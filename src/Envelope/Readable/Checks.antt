-- ===== src/Envelope/Readable/Checks.antt =====
-- What fields hold whose checks in packages/core/src/schemas/validate.ts find no issue.
use oxdeai_core.Prelude.{
  ℕ, ◌≡◌, ◌≢◌, refl, sym, ap, ◌∙◌, String, Bool, Bool-cases, true, false, not, Option, none, some,
  List, [], ◌∷◌, ◌++◌, ◌==◌, any, map, any-sort_by, sort_by, eq_iff, arith, inl, inr,
}
use oxdeai_core.Json.{Json, str, num, arr, Items, nil, item, Fields, end, field}
use oxdeai_core.Audit.{Decision, allowed, denied, decision_name, str_items}
use oxdeai_core.Schemas.{
  SchemaValidationIssue, IssueCode, value_of, keys_of, extras, is_str, is_full_str, is_one_of,
  int_non_negative, or_undefined, in_check, issue_if, sorted, push_additional,
}
use oxdeai_core.Schemas.Events.{texts, is_text_array}

pub not_nil : (x : SchemaValidationIssue) (xs : List SchemaValidationIssue) → x ∷ xs ≢ []
not_nil x xs h = cc h

sort_by_nil : {A : Type 0} (lt : A → A → Bool) (xs : List A) → sort_by lt xs ≡ [] → xs ≡ []
sort_by_nil lt [] h = refl
sort_by_nil lt (x ∷ xs) h =
    absurd (cc (any-sort_by (λ _. true) lt (x ∷ xs), ap (any (λ _. true)) h))

map_nil : {A B : Type 0} (f : A → B) (xs : List A) → map f xs ≡ [] → xs ≡ []
map_nil f [] h = refl
map_nil f (x ∷ xs) h = absurd (cc h)

false_ne_true : false ≢ true
false_ne_true = cc

abbrev pub opt_str : Option String → Option Json
opt_str none = none
opt_str (some s) = some (str s)

pub sorted_nil : (xs : List SchemaValidationIssue) → sorted xs ≡ [] → xs ≡ []
unfolding sorted
sorted_nil xs h = sort_by_nil _ xs h

pub append_nil : (xs ys : List SchemaValidationIssue) → xs ++ ys ≡ [] → (xs ≡ []) × (ys ≡ [])
append_nil [] ys h = (refl, h)
append_nil (x ∷ xs) ys h = absurd (not_nil x (xs ++ ys) h)

pub no_issue :
    (b : Bool) (path : String) (code : IssueCode) (message : String)
    → issue_if (not b) path code message ≡ []
    → b ≡ true
no_issue true path code message h = refl
no_issue false path code message h = absurd (cc h)

pub full_read :
    (o : Option Json) → is_full_str (or_undefined o) ≡ true → (s : String) × (o ≡ some (str s))
full_read none h = absurd (cc h)
full_read (some (str s)) h = (s, refl)
full_read (some _) h = absurd (cc h)

pub str_read :
    (o : Option Json) → is_str (or_undefined o) ≡ true → (s : String) × (o ≡ some (str s))
str_read none h = absurd (cc h)
str_read (some (str s)) h = (s, refl)
str_read (some _) h = absurd (cc h)

pub number_read :
    (o : Option Json) → int_non_negative (or_undefined o) ≡ true → (n : ℕ) × (o ≡ some (num n))
number_read none h = absurd (cc h)
number_read (some (num n)) h = (n, refl)
number_read (some _) h = absurd (cc h)

texts_read : (xs : Items) → texts xs ≡ true → (ss : List String) × (xs ≡ str_items ss)
texts_read nil h = ([], refl)
texts_read (item (str s) xs) h = let (ss, e) = texts_read xs h in (s ∷ ss, ap (item (str s)) e)
texts_read (item _ xs) h = absurd (cc h)

pub array_read :
    (o : Option Json)
    → is_text_array (or_undefined o) ≡ true
    → (ss : List String) × (o ≡ some (arr (str_items ss)))
array_read none h = absurd (cc h)
array_read (some (arr xs)) h = let (ss, e) = texts_read xs h in (ss, ap (λ ys. some (arr ys)) e)
array_read (some _) h = absurd (cc h)

pub verdict_read :
    (o : Option Json)
    → is_one_of ("ALLOW" ∷ "DENY" ∷ []) (or_undefined o) ≡ true
    → (d : Decision) × (o ≡ some (str (decision_name d)))
verdict_read none h = absurd (cc h)
verdict_read (some (str s)) h = elim (Bool-cases ("ALLOW" == s)) [
  | inl e ↦ (allowed, ap (λ t. some (str t)) (sym ((eq_iff "ALLOW" s).0 e)))
  | inr e ↦ (denied, ap (λ t. some (str t)) (sym ((eq_iff "DENY" s).0 (ground (arith, h, e)))))
]
verdict_read (some _) h = absurd (cc h)

-- A field that may be missing, and is a text where it is not.
pub optional_read :
    (o : Option Json) → in_check o is_str ≡ false → (p : Option String) × (o ≡ opt_str p)
optional_read none h = (none, refl)
optional_read (some (str s)) h = (some s, refl)
optional_read (some _) h = absurd (cc h)

pub no_issue_if :
    (b : Bool) (path : String) (code : IssueCode) (message : String)
    → issue_if b path code message ≡ []
    → b ≡ false
no_issue_if false path code message h = refl
no_issue_if true path code message h = absurd (cc h)

extras_nil :
    (known : List String) (k : String) (fs : Fields)
    → extras known (keys_of fs) ≡ []
    → any (λ a. a == k) known ≡ false
    → value_of k fs ≡ none
unfolding extras keys_of value_of
extras_nil known k end h absent = refl
extras_nil known k (field j v fs) h absent = elim (Bool-cases (any (λ a. a == j) known)) [
  | inl e ↦ elim (Bool-cases (j == k)) [
    | inl same ↦ absurd (
        false_ne_true
          (sym absent ∙ (ap (λ i. any (λ a. a == i) known) (sym ((eq_iff j k).0 same)) ∙ e)))
    | inr other ↦ rw other (extras_nil known k fs (ground (arith, h, e)) absent)
  ]
  | inr e ↦ absurd (ground (arith, h, e))
]

-- Where no unknown field is found, a key that is not among the known ones is missing.
pub additional_nil :
    (known : List String) (fs : Fields)
    → push_additional "$" known fs ≡ []
    → (k : String) → any (λ a. a == k) known ≡ false
    → value_of k fs ≡ none
unfolding push_additional
additional_nil known fs h k absent = extras_nil known k fs (sort_by_nil _ _ (map_nil _ _ h)) absent
