-- ===== src/Schemas.antt =====
-- packages/core/src/schemas/validate.ts: issues, and the tests and rules that the validators of
-- unknown JSON are made of. A key is in an object if it is one of its fields.
pub mod Artifacts
pub mod Events
pub mod Lookup
use Prim.Native.String
use Prim.Native.Char.{Char, code}
use oxdeai_core.Prelude.{
  ℕ, ◌≡◌, refl, String, Bool, true, false, not, Option, none, some, List, [], ◌∷◌, ◌++◌, ◌==◌, ◌&&◌,
  ◌||◌, ◌-◌, nat_eq, leb, any, map, has_text, sort_by, is_some, show_ℕ, show_ℤ, if◌then◌else◌,
}
use oxdeai_core.Crypto.{◌+++◌}
use oxdeai_core.Json.{
  Json, undefined, null, bool, num, bigint, str, arr, obj, Items, nil, item, Fields, end, field,
}
use oxdeai_core.Json.Order.{str_ltb}

pub data IssueCode : Type 0 where
  type required enum format additional value : IssueCode

abbrev pub issue_code_name : IssueCode → String
issue_code_name type = "TYPE"
issue_code_name required = "REQUIRED"
issue_code_name enum = "ENUM"
issue_code_name format = "FORMAT"
issue_code_name additional = "ADDITIONAL"
issue_code_name value = "VALUE"

pub record SchemaValidationIssue : Type 0 where
  pub path : String
  pub code : IssueCode
  pub message : String

abbrev pub issue : String → IssueCode → String → SchemaValidationIssue
issue path code message = record { path = path; code = code; message = message }

-- The value of a field, if there is one.
unfoldable pub value_of : String → Fields → Option Json
value_of k end = none
value_of k (field j v fs) = let rest = value_of k fs in if j == k then some v else rest

unfoldable pub keys_of : Fields → List String
keys_of end = []
keys_of (field k v fs) = k ∷ keys_of fs

-- Tests on characters and texts.
abbrev in_range : ℕ → ℕ → Char → Bool
in_range low high c = leb low (code c) && leb (code c) high

abbrev is_digit : Char → Bool
is_digit c = in_range 48 57 c

abbrev is_base64 : Char → Bool
is_base64 c =
    in_range 65 90 c || in_range 97 122 c || is_digit c || nat_eq (code c) 43 || nat_eq (code c) 47

-- `n` hexadecimal digits and no more.
unfoldable pub hex_digits : ℕ → String → Bool
hex_digits n String.[] = nat_eq n 0
hex_digits n (String.◌∷◌ c s) =
    let rest = hex_digits (n - 1) s in leb 1 n && (is_digit c || in_range 97 102 c) && rest

-- /^[0-9a-f]{64}$/
abbrev pub is_hex64_text : String → Bool
is_hex64_text s = hex_digits 64 s

-- [0-9]*n?$
unfoldable digits_n : String → Bool
digits_n String.[] = true
digits_n (String.◌∷◌ c s) =
    let rest = digits_n s in if is_digit c then rest else nat_eq (code c) 110 && s == ""

-- [0-9]+n?$
abbrev number_n : String → Bool
number_n String.[] = false
number_n (String.◌∷◌ c s) = is_digit c && digits_n s

-- /^-?[0-9]+n?$/
unfoldable pub is_bigint_text : String → Bool
unfolding digits_n
is_bigint_text String.[] = false
is_bigint_text (String.◌∷◌ c s) =
    if nat_eq (code c) 45 then number_n s else is_digit c && digits_n s

-- [A-Za-z0-9+/]*={0,2}$
unfoldable base64_end : String → Bool
base64_end String.[] = true
base64_end (String.◌∷◌ c s) =
    let rest = base64_end s in
    if is_base64 c then rest else nat_eq (code c) 61 && (s == "" || s == "=")

-- /^[A-Za-z0-9+/]+={0,2}$/
unfoldable pub is_base64_text : String → Bool
unfolding base64_end
is_base64_text String.[] = false
is_base64_text (String.◌∷◌ c s) = is_base64 c && base64_end s

-- Tests on values.
abbrev pub is_str : Json → Bool
is_str (str s) = true
is_str _ = false

abbrev pub is_full_str : Json → Bool
is_full_str (str s) = has_text s
is_full_str _ = false

-- The value is one of the texts.
abbrev pub is_one_of : List String → Json → Bool
is_one_of texts (str s) = any (λ t. t == s) texts
is_one_of texts _ = false

abbrev pub is_object : Json → Bool
is_object (obj fs) = true
is_object _ = false

abbrev pub is_array : Json → Bool
is_array (arr xs) = true
is_array _ = false

abbrev pub is_bool : Json → Bool
is_bool (bool b) = true
is_bool _ = false

abbrev pub is_one : Json → Bool
is_one (num n) = nat_eq n 1
is_one _ = false

abbrev pub hex64 : Json → Bool
hex64 (str s) = is_hex64_text s
hex64 _ = false

abbrev pub int_non_negative : Json → Bool
int_non_negative (num n) = true
int_non_negative _ = false

abbrev pub bigint_like : Json → Bool
bigint_like (num n) = true
bigint_like (str s) = is_bigint_text s
bigint_like _ = false

-- `String(value)`; an array's entries are joined by commas, with nothing for null and undefined, for
-- which `entry` stands.
unfoldable mutual
  js_text : Bool → Json → String
  js_text true undefined = ""
  js_text false undefined = "undefined"
  js_text true null = ""
  js_text false null = "null"
  js_text entry (bool true) = "true"
  js_text entry (bool false) = "false"
  js_text entry (num n) = show_ℕ n
  js_text entry (bigint n) = show_ℤ n
  js_text entry (str s) = s
  js_text entry (arr xs) = js_join xs
  js_text entry (obj fs) = "[object Object]"

  js_join : Items → String
  js_join nil = ""
  js_join (item v nil) = js_text true v
  js_join (item v (item w xs)) = js_text true v +++ "," +++ js_join (item w xs)

unfoldable pub js_string : Json → String
unfolding js_text
js_string v = js_text false v

-- Rules: the issues of an object at a path.
abbrev pub issue_if : Bool → String → IssueCode → String → List SchemaValidationIssue
issue_if true path code message = issue path code message ∷ []
issue_if false path code message = []

-- `if (!(key in value))` for each of the keys.
unfoldable pub missing : String → List String → Fields → List SchemaValidationIssue
missing path [] fs = []
missing path (k ∷ ks) fs =
    issue_if (not (is_some (value_of k fs))) path required ("missing " +++ k) ++ missing path ks fs

-- `if (key in value && !test(value[key]))`
abbrev pub in_check : Option Json → (Json → Bool) → Bool
in_check none test = false
in_check (some v) test = not (test v)

abbrev pub check_field :
    String → String → (Json → Bool) → IssueCode → String → Fields → List SchemaValidationIssue
check_field path k test code message fs =
    issue_if (in_check (value_of k fs) test) (path +++ "." +++ k) code message

-- `if (!test(value[key]))`, where a missing field is undefined.
abbrev pub or_undefined : Option Json → Json
or_undefined none = undefined
or_undefined (some v) = v

abbrev pub require_field :
    String → String → (Json → Bool) → IssueCode → String → Fields → List SchemaValidationIssue
require_field path k test code message fs =
    issue_if (not (test (or_undefined (value_of k fs)))) (path +++ "." +++ k) code message

abbrev keep_if : Bool → String → List String → List String
keep_if true s ss = s ∷ ss
keep_if false s ss = ss

unfoldable pub extras : List String → List String → List String
extras allowed [] = []
extras allowed (k ∷ ks) = keep_if (not (any (λ a. a == k) allowed)) k (extras allowed ks)

-- `pushAdditional`
unfoldable pub push_additional : String → List String → Fields → List SchemaValidationIssue
unfolding keys_of extras sort_by
push_additional path allowed fs =
    map (λ k. issue (path +++ "." +++ k) additional "unknown field")
      (sort_by str_ltb (extras allowed (keys_of fs)))

abbrev text_lt : String → String → Bool → Bool
text_lt s t after = str_ltb s t || (s == t && after)

abbrev issue_lt : SchemaValidationIssue → SchemaValidationIssue → Bool
issue_lt a b =
    text_lt a.path b.path
      (text_lt (issue_code_name a.code) (issue_code_name b.code) (str_ltb a.message b.message))

unfoldable pub sorted : List SchemaValidationIssue → List SchemaValidationIssue
unfolding sort_by
sorted issues = sort_by issue_lt issues

abbrev pub not_object : List SchemaValidationIssue
not_object = issue "$" type "must be object" ∷ []
