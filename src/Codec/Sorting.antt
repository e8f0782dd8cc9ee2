-- ===== src/Codec/Sorting.antt =====
-- Sorting and checking of serialized values, the helpers of
-- packages/core/src/policy/modules/_codec.ts. `none` is a thrown error.
use oxdeai_core.Prelude.{
  sort_by, ℕ, zero, suc, String, Option, none, some, List, [], ◌∷◌, ◌==◌, ◌>>=◌, if◌then◌else◌,
}
use oxdeai_core.Dict.{Dict}
use oxdeai_core.Json.{Json, num, obj, Fields, end, field}
use oxdeai_core.Json.Order.{str_ltb}

-- Sorting keys: `Object.keys(d).sort(...)`, each key with its value.
module _ {ℓ} {V : Type ℓ} where
  unfoldable pub insert_entry : String → V → Dict V → Dict V
  insert_entry k v [] = (k, v) ∷ []
  insert_entry k v ((j, w) ∷ d) =
      let deeper = insert_entry k v d in
      if str_ltb j k then (j, w) ∷ deeper else (k, v) ∷ (j, w) ∷ d

  unfoldable pub sorted_entries : Dict V → Dict V
  unfolding insert_entry
  sorted_entries [] = []
  sorted_entries ((k, v) ∷ d) = insert_entry k v (sorted_entries d)

  -- An object built in a loop over the sorted keys; the first value that is refused throws.
  unfoldable pub object_of : (V → Option Json) → Dict V → Option Fields
  object_of f [] = some end
  object_of f ((k, v) ∷ d) = do j ← f v; fs ← object_of f d; some (field k j fs)

  unfoldable pub sorted_object : (V → Option Json) → Dict V → Option Json
  unfolding sorted_entries object_of
  sorted_object f d = do fs ← object_of f (sorted_entries d); some (obj fs)

abbrev pub assert_pos : ℕ → Option ℕ
assert_pos zero = none
assert_pos (suc n) = some (suc n)

abbrev pub num_json : ℕ → Option Json
num_json n = some (num n)

unfoldable pub remove_text : String → List String → List String
remove_text s [] = []
remove_text s (t ∷ ts) = let rest = remove_text s ts in if t == s then rest else t ∷ rest

-- `[...new Set(values)]`
unfoldable pub unique : List String → List String
unfolding remove_text
unique [] = []
unique (s ∷ ss) = s ∷ remove_text s (unique ss)

unfoldable pub uniq_sorted : List String → List String
unfolding unique sort_by
uniq_sorted values = sort_by str_ltb (unique values)
