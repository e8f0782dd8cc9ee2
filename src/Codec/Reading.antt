-- ===== src/Codec/Reading.antt =====
-- The assertions on unknown JSON that `deserializeState` makes, the helpers of
-- packages/core/src/policy/modules/_codec.ts. `none` is a thrown error. Numbers are natural, so that
-- `assertInt` and `assertNonNegInt` ask for a number.
use Prim.Native.Char.{code}
use oxdeai_core.Prelude.{
  ℕ, ℤ, pos, ◌+◌, ◌*◌, ◌-◌, String, Bool, Option, none, some, List, [], ◌∷◌, ◌==◌, ◌&&◌, nat_eq,
  leb, ◌>>=◌, if◌then◌else◌,
}
use oxdeai_core.Dict.{Dict}
use oxdeai_core.Json.{
  Json, undefined, null, bool, num, str, arr, obj, Items, nil, item, Fields, end, field,
  sort_fields,
}
use oxdeai_core.Schemas.{value_of, or_undefined}
use oxdeai_core.Codec.Sorting.{assert_pos}

-- `asObject`
abbrev pub as_object : Json → Option Fields
as_object (obj fs) = some fs
as_object _ = none

abbrev pub assert_int : Json → Option ℕ
assert_int (num n) = some n
assert_int _ = none

-- `assertPosInt`
abbrev pub assert_pos_int : Json → Option ℕ
assert_pos_int v = do n ← assert_int v; assert_pos n

abbrev pub as_string : Json → Option String
as_string (str s) = some s
as_string _ = none

abbrev pub as_bool : Json → Option Bool
as_bool (bool b) = some b
as_bool _ = none

-- `obj[key]`
abbrev pub at_key : String → Fields → Json
at_key k fs = or_undefined (value_of k fs)

-- `asObject(value ?? {}, ...)`
abbrev pub object_or_empty : Json → Option Fields
object_or_empty undefined = some end
object_or_empty null = some end
object_or_empty v = as_object v

-- `value ?? 0`
abbrev pub number_or_zero : Json → Option ℕ
number_or_zero undefined = some 0
number_or_zero null = some 0
number_or_zero v = assert_int v

-- The entries of an array, the first one that is refused throws.
unfoldable pub items_of {ℓ} : {A : Type ℓ} → (Json → Option A) → Items → Option (List A)
items_of f nil = some []
items_of f (item v xs) = do a ← f v; rest ← items_of f xs; some (a ∷ rest)

abbrev pub array_of {ℓ} : {A : Type ℓ} → (Json → Option A) → Json → Option (List A)
array_of f (arr xs) = items_of f xs
array_of f _ = none

-- `asStringArray`
abbrev pub as_string_array : Json → Option (List String)
as_string_array v = array_of as_string v

-- The fields of an object, each read, in their order.
unfoldable pub read_fields {ℓ} : {A : Type ℓ} → (Json → Option A) → Fields → Option (Dict A)
read_fields f end = some []
read_fields f (field k v fs) = do a ← f v; d ← read_fields f fs; some ((k, a) ∷ d)

-- The loop over an object's sorted keys.
unfoldable pub read_object {ℓ} : {A : Type ℓ} → (Json → Option A) → Fields → Option (Dict A)
unfolding read_fields sort_fields
read_object f fs = read_fields f (sort_fields fs)

-- The value of decimal digits behind those read so far.
unfoldable pub decimal_value : ℕ → String → Option ℕ
decimal_value n String.[] = some n
decimal_value n (String.◌∷◌ c s) =
    let rest = decimal_value (10 * n + (code c - 48)) s in
    if leb 48 (code c) && leb (code c) 57 then rest else none

-- `assertDecimalBigIntString`: /^(0|[1-9]\d*)$/, and the number that it writes.
unfoldable pub read_decimal : String → Option ℕ
unfolding decimal_value
read_decimal String.[] = none
read_decimal (String.◌∷◌ c s) =
    if nat_eq (code c) 48
    then if s == "" then some 0 else none
    else decimal_value 0 (String.◌∷◌ c s)

abbrev pub assert_decimal : Json → Option ℤ
assert_decimal v = do s ← as_string v; n ← read_decimal s; some (pos n)
