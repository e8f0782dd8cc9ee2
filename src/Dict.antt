-- ===== src/Dict.antt =====
-- Objects used as records with string keys, in the order of insertion: reading `d[k]`, the spread
-- with one key set `{ ...d, [k]: v }`, and the in-place `mergeInto` of
-- packages/core/src/policy/PolicyEngine.ts. A missing key and a key with the value undefined are
-- not told apart, as in the source's tests.
pub mod Laws
use oxdeai_core.Prelude.{
  String, Option, none, some, Bool, false, List, [], ◌∷◌, ◌==◌, ◌||◌, if◌then◌else◌,
}

abbrev pub Dict {ℓ} : Type ℓ → Type ℓ
Dict V = List (String × V)

pub has_key : String → List String → Bool
has_key k [] = false
has_key k (j ∷ ks) = (j == k) || has_key k ks

module _ {ℓ} {V : Type ℓ} where
  -- `d[k]`
  unfoldable pub get : String → Dict V → Option V
  get k [] = none
  get k ((j, v) ∷ d) = if j == k then some v else get k d

  -- `{ ...d, [k]: v }`
  unfoldable pub put : String → V → Dict V → Dict V
  put k v [] = (k, v) ∷ []
  put k v ((j, w) ∷ d) = if j == k then (j, v) ∷ d else (j, w) ∷ put k v d

  -- `const { [k]: _, ...rest } = d`
  unfoldable pub remove : String → Dict V → Dict V
  remove k [] = []
  remove k ((j, w) ∷ d) = let rest = remove k d in if j == k then rest else (j, w) ∷ rest

  -- `Object.keys(d)`
  unfoldable pub keys : Dict V → List String
  keys [] = []
  keys ((j, w) ∷ d) = j ∷ keys d

  -- One round of the loop of `mergeInto`: `combine` is the recursive merge where source and target
  -- are objects, and the assignment `target[key] = src` where they are not.
  write_key : (V → V → V) → String → Dict V → Option V → Option V → Dict V
  write_key combine k target none dst = target
  write_key combine k target (some src) none = put k src target
  write_key combine k target (some src) (some dst) = put k (combine dst src) target

  merge_key : (V → V → V) → String → Dict V → Dict V → Dict V
  unfolding write_key
  merge_key combine k target source = write_key combine k target (get k source) (get k target)

  merge_keys : (V → V → V) → List String → Dict V → Dict V → Dict V
  merge_keys combine [] target source = target
  merge_keys combine (k ∷ ks) target source =
      merge_keys combine ks (merge_key combine k target source) source

  -- The content of `target` after `mergeInto(target, source)`.
  unfoldable pub merge_into : (V → V → V) → Dict V → Dict V → Dict V
  unfolding get put keys merge_key merge_keys
  merge_into combine target source = merge_keys combine (keys source) target source

  -- The value where it is no object: the source's.
  abbrev pub assign : V → V → V
  assign dst src = src
