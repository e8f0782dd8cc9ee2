-- ===== src/Json.antt =====
-- JavaScript values, their canonical form and their text: `canonicalize` and `canonicalJson` of
-- packages/core/src/crypto/hashes.ts, and `stableStringify` of packages/core/src/utils.
-- Numbers are natural numbers. Texts are compared by code points, where JavaScript compares UTF-16
-- units; the two orders differ only for keys outside the basic plane. An object keeps its keys in
-- the order in which they are written: keys that look like array indices, which JavaScript puts
-- first, are not treated apart.
pub mod Order
pub mod Canonical
use Prim.Native.String
use Prim.Native.Char.{Char, code}
use oxdeai_core.Prelude.{
  ◌≡◌, refl, ℕ, ℤ, ◌/◌, ◌%◌, String, Bool, true, false, List, [], ◌∷◌, nat_eq, ltb, show_ℕ, show_ℤ,
  if◌then◌else◌,
}
use oxdeai_core.Json.Order.{str_ltb}

mutual
  pub data Json : Type 0 where
    undefined null : Json
    bool : Bool → Json
    num : ℕ → Json
    bigint : ℤ → Json
    str : String → Json
    arr : Items → Json
    obj : Fields → Json

  pub data Items : Type 0 where
    nil : Items
    item : Json → Items → Items

  pub data Fields : Type 0 where
    end : Fields
    field : String → Json → Fields → Fields

-- `Object.keys(v).sort()`, each key with its value.
unfoldable pub insert_field : String → Json → Fields → Fields
insert_field k v end = field k v end
insert_field k v (field j w fs) =
    let deeper = insert_field k v fs in
    if str_ltb j k then field j w deeper else field k v (field j w fs)

unfoldable pub sort_fields : Fields → Fields
unfolding insert_field
sort_fields end = end
sort_fields (field k v fs) = insert_field k v (sort_fields fs)

unfoldable mutual
  unfolding sort_fields

  -- `canonicalize`: undefined becomes null, a bigint its decimal text, and an object's keys are
  -- sorted, at every depth.
  pub canonicalize : Json → Json
  canonicalize undefined = null
  canonicalize null = null
  canonicalize (bool b) = bool b
  canonicalize (num n) = num n
  canonicalize (bigint n) = str (show_ℤ n)
  canonicalize (str s) = str s
  canonicalize (arr xs) = arr (canonicalize_items xs)
  canonicalize (obj fs) = obj (sort_fields (canonicalize_fields fs))

  pub canonicalize_items : Items → Items
  canonicalize_items nil = nil
  canonicalize_items (item v xs) = item (canonicalize v) (canonicalize_items xs)

  pub canonicalize_fields : Fields → Fields
  canonicalize_fields end = end
  canonicalize_fields (field k v fs) = field k (canonicalize v) (canonicalize_fields fs)

unfoldable mutual
  unfolding sort_fields

  -- `normalize` of stableStringify.ts, which keeps undefined.
  pub normalize : Json → Json
  normalize undefined = undefined
  normalize null = null
  normalize (bool b) = bool b
  normalize (num n) = num n
  normalize (bigint n) = str (show_ℤ n)
  normalize (str s) = str s
  normalize (arr xs) = arr (normalize_items xs)
  normalize (obj fs) = obj (sort_fields (normalize_fields fs))

  pub normalize_items : Items → Items
  normalize_items nil = nil
  normalize_items (item v xs) = item (normalize v) (normalize_items xs)

  pub normalize_fields : Fields → Fields
  normalize_fields end = end
  normalize_fields (field k v fs) = field k (normalize v) (normalize_fields fs)

-- A hexadecimal digit, in lower case.
abbrev hex_digit : ℕ → String
hex_digit n =
    if ltb n 10
    then show_ℕ n
    else if nat_eq n 10
    then "a"
    else if nat_eq n 11
    then "b"
    else if nat_eq n 12
    then "c"
    else if nat_eq n 13
    then "d"
    else if nat_eq n 14
    then "e"
    else "f"

-- A character inside a JSON text literal.
abbrev escape : Char → String
escape c =
    if nat_eq (code c) 34
    then "\\\""
    else if nat_eq (code c) 92
    then "\\\\"
    else if nat_eq (code c) 8
    then "\\b"
    else if nat_eq (code c) 9
    then "\\t"
    else if nat_eq (code c) 10
    then "\\n"
    else if nat_eq (code c) 12
    then "\\f"
    else if nat_eq (code c) 13
    then "\\r"
    else if ltb (code c) 32
    then String.◌++◌ "\\u00" (String.◌++◌ (hex_digit (code c / 16)) (hex_digit (code c % 16)))
    else String.◌∷◌ c String.[]

unfoldable pub quote_from : String → String
quote_from String.[] = "\""
quote_from (String.◌∷◌ c s) = String.◌++◌ (escape c) (quote_from s)

unfoldable pub quote : String → String
unfolding quote_from
quote s = String.◌++◌ "\"" (quote_from s)

-- What stands before an entry that is not the first.
abbrev comma : Bool → String
comma true = ""
comma false = ","

unfoldable mutual
  unfolding quote

  -- `JSON.stringify`. An undefined entry of an array is null and an undefined field is left out; at
  -- the top, where JavaScript gives no text, the text is empty.
  pub json_stringify : Json → String
  json_stringify undefined = ""
  json_stringify null = "null"
  json_stringify (bool true) = "true"
  json_stringify (bool false) = "false"
  json_stringify (num n) = show_ℕ n
  json_stringify (bigint n) = show_ℤ n
  json_stringify (str s) = quote s
  json_stringify (arr xs) = String.◌++◌ "[" (stringify_items true xs)
  json_stringify (obj fs) = String.◌++◌ "{" (stringify_fields true fs)

  stringify_items : Bool → Items → String
  stringify_items first nil = "]"
  stringify_items first (item undefined xs) =
      String.◌++◌ (comma first) (String.◌++◌ "null" (stringify_items false xs))
  stringify_items first (item v xs) =
      String.◌++◌ (comma first) (String.◌++◌ (json_stringify v) (stringify_items false xs))

  stringify_fields : Bool → Fields → String
  stringify_fields first end = "}"
  stringify_fields first (field k undefined fs) = stringify_fields first fs
  stringify_fields first (field k v fs) = String.◌++◌ (comma first) (
      String.◌++◌ (quote k)
        (String.◌++◌ ":" (String.◌++◌ (json_stringify v) (stringify_fields false fs))))

unfoldable pub canonical_json : Json → String
unfolding canonicalize json_stringify
canonical_json v = json_stringify (canonicalize v)

unfoldable pub stable_stringify : Json → String
unfolding normalize json_stringify
stable_stringify v = json_stringify (normalize v)

sample :
    canonical_json
      (obj (field "b" (num 12) (field "a" (arr (item (str "x\"y") (item undefined nil))) end)))
    ≡ "{\"a\":[\"x\\\"y\",null],\"b\":12}"
unfolding canonical_json canonicalize json_stringify show_ℕ
sample = refl
