-- ===== src/Json/Canonical.antt =====
-- The canonical form is a canonical form: to take it again changes nothing.
use oxdeai_core.Prelude.{◌≡◌, refl, ap, ◌∙◌, String, Bool-cases, false, inl, inr}
use oxdeai_core.Json.{
  Json, undefined, null, bool, num, bigint, str, arr, obj, Items, nil, item, Fields, end, field,
  insert_field, sort_fields, canonicalize, canonicalize_items, canonicalize_fields, canonical_json,
  json_stringify,
}
use oxdeai_core.Json.Order.{str_ltb, str_ltb_asym}

-- The first key is not after `k`.
abbrev pub Follows : String → Fields → Type 0
Follows k end = Unit
Follows k (field j v fs) = str_ltb j k ≡ false

abbrev pub IsOrdered : Fields → Type 0
IsOrdered end = Unit
IsOrdered (field k v fs) = Follows k fs × IsOrdered fs

insert_field-Follows :
    (j k : String) (v : Json) (fs : Fields)
    → str_ltb k j ≡ false
    → Follows j fs
    → Follows j (insert_field k v fs)
unfolding insert_field
insert_field-Follows j k v end below f = below
insert_field-Follows j k v (field i w fs) below f = elim (Bool-cases (str_ltb i k)) [
  | inl e ↦ rw e f
  | inr e ↦ rw e below
]

insert_field-IsOrdered :
    (k : String) (v : Json) (fs : Fields) → IsOrdered fs → IsOrdered (insert_field k v fs)
unfolding insert_field
insert_field-IsOrdered k v end h = (tt, tt)
insert_field-IsOrdered k v (field j w fs) (f, h) = elim (Bool-cases (str_ltb j k)) [
  | inl e ↦
      rw e ((insert_field-Follows j k v fs (str_ltb_asym j k e) f, insert_field-IsOrdered k v fs h))
  | inr e ↦ rw e ((e, (f, h)))
]

pub sort_fields-IsOrdered : (fs : Fields) → IsOrdered (sort_fields fs)
unfolding sort_fields
sort_fields-IsOrdered end = tt
sort_fields-IsOrdered (field k v fs) =
    insert_field-IsOrdered k v (sort_fields fs) (sort_fields-IsOrdered fs)

insert_field-first :
    (k : String) (v : Json) (fs : Fields) → Follows k fs → insert_field k v fs ≡ field k v fs
unfolding insert_field
insert_field-first k v end f = refl
insert_field-first k v (field j w fs) f = rw f refl

pub sort_fields-ordered : (fs : Fields) → IsOrdered fs → sort_fields fs ≡ fs
unfolding sort_fields
sort_fields-ordered end h = refl
sort_fields-ordered (field k v fs) (f, h) =
    ap (insert_field k v) (sort_fields-ordered fs h) ∙ insert_field-first k v fs f

canonicalize_fields-insert :
    (k : String) (v : Json) (fs : Fields)
    → canonicalize_fields (insert_field k v fs)
      ≡ insert_field k (canonicalize v) (canonicalize_fields fs)
unfolding insert_field canonicalize
canonicalize_fields-insert k v end = refl
canonicalize_fields-insert k v (field j w fs) = elim (Bool-cases (str_ltb j k)) [
  | inl e ↦ rw (e, canonicalize_fields-insert k v fs) refl
  | inr e ↦ rw e refl
]

canonicalize_fields-sort :
    (fs : Fields) → canonicalize_fields (sort_fields fs) ≡ sort_fields (canonicalize_fields fs)
unfolding sort_fields canonicalize
canonicalize_fields-sort end = refl
canonicalize_fields-sort (field k v fs) =
    canonicalize_fields-insert k v (sort_fields fs)
    ∙ ap (insert_field k (canonicalize v)) (canonicalize_fields-sort fs)

mutual
  unfolding canonicalize

  -- The canonical form of a canonical form is that form: arrays keep their order, and the keys of
  -- objects are sorted once, at every depth.
  pub canonicalize_twice : (v : Json) → canonicalize (canonicalize v) ≡ canonicalize v
  canonicalize_twice undefined = refl
  canonicalize_twice null = refl
  canonicalize_twice (bool b) = refl
  canonicalize_twice (num n) = refl
  canonicalize_twice (bigint n) = refl
  canonicalize_twice (str s) = refl
  canonicalize_twice (arr xs) = ap arr (canonicalize_items_twice xs)
  canonicalize_twice (obj fs) = ap obj (
      ap sort_fields (canonicalize_fields-sort (canonicalize_fields fs))
      ∙ ap (λ x. sort_fields (sort_fields x)) (canonicalize_fields_twice fs)
      ∙ sort_fields-ordered (sort_fields (canonicalize_fields fs))
          (sort_fields-IsOrdered (canonicalize_fields fs)))

  canonicalize_items_twice :
      (xs : Items) → canonicalize_items (canonicalize_items xs) ≡ canonicalize_items xs
  canonicalize_items_twice nil = refl
  canonicalize_items_twice (item v xs) =
      ap (λ w. item w (canonicalize_items (canonicalize_items xs))) (canonicalize_twice v)
      ∙ ap (item (canonicalize v)) (canonicalize_items_twice xs)

  canonicalize_fields_twice :
      (fs : Fields) → canonicalize_fields (canonicalize_fields fs) ≡ canonicalize_fields fs
  canonicalize_fields_twice end = refl
  canonicalize_fields_twice (field k v fs) =
      ap (λ w. field k w (canonicalize_fields (canonicalize_fields fs))) (canonicalize_twice v)
      ∙ ap (field k (canonicalize v)) (canonicalize_fields_twice fs)

-- A value and its canonical form have the same canonical text, and so the same hash.
pub canonical_json-canonicalize : (v : Json) → canonical_json (canonicalize v) ≡ canonical_json v
unfolding canonical_json
canonical_json-canonicalize v = ap json_stringify (canonicalize_twice v)
