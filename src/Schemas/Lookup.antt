-- ===== src/Schemas/Lookup.antt =====
-- Reading a field of an object that is in its canonical form, as `decodeEnvelope` does.
use oxdeai_core.Prelude.{
  ◌≡◌, ◌≢◌, refl, sym, ap, ◌∙◌, subst, String, Bool-cases, true, false, Option, none, some, ◌==◌,
  eq_iff, arith, inl, inr, if◌then◌else◌,
}
use oxdeai_core.Crypto.{opt_field}
use oxdeai_core.Json.{
  Json, Fields, end, field, insert_field, sort_fields, canonicalize, canonicalize_fields,
}
use oxdeai_core.Json.Order.{str_ltb, str_ltb_asym}
use oxdeai_core.Schemas.{value_of}

-- What is before a text is another text.
str_ltb-ne : (s t : String) → str_ltb s t ≡ true → s ≢ t
str_ltb-ne s t h e =
    let below : str_ltb t s ≡ true =
      subst (λ x. str_ltb t x ≡ true) (sym e) (subst (λ x. str_ltb x t ≡ true) e h) in
    ground (arith, str_ltb_asym s t h, below)

value_of-insert_field :
    (k j : String) (v : Json) (fs : Fields)
    → value_of k (insert_field j v fs) ≡ (if j == k then some v else value_of k fs)
unfolding insert_field value_of
value_of-insert_field k j v end = refl
value_of-insert_field k j v (field i w fs) = elim (Bool-cases (str_ltb i j)) [
  | inl e ↦
      let other = str_ltb-ne i j e in
      ground (arith, e, other, value_of-insert_field k j v fs, eq_iff i k, eq_iff j k)
  | inr e ↦ ground (arith, e)
]

-- Sorting the fields of an object does not change what its keys hold.
pub value_of-sort_fields : (k : String) (fs : Fields) → value_of k (sort_fields fs) ≡ value_of k fs
unfolding sort_fields value_of
value_of-sort_fields k end = refl
value_of-sort_fields k (field j v fs) =
    value_of-insert_field k j v (sort_fields fs)
    ∙ ap (λ o. if j == k then some v else o) (value_of-sort_fields k fs)

pub value_of-opt_field :
    {A : Type 0} (k j : String) (f : A → Json) (o : Option A) (fs : Fields)
    → (j == k) ≡ false
    → value_of k (canonicalize_fields (opt_field j f o fs)) ≡ value_of k (canonicalize_fields fs)
unfolding value_of canonicalize
value_of-opt_field k j f none fs h = refl
value_of-opt_field k j f (some a) fs h = rw h refl
