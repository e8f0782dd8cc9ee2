-- ===== src/Json/Order.antt =====
-- The order of texts by which keys are sorted.
use Prim.Native.Nat
use Prim.Native.Nat.{Ordering}
use Prim.Native.Char.{code}
use Prim.Native.String.compare
use Prim.Native.String.{String, compare, then}
use text.Mathlib.Text.{is_lt}
use oxdeai_core.Prelude.{ℕ, ◌≡◌, ◌≢◌, sym, ap, ◌∙◌, Bool, true, false, arith}

abbrev pub str_ltb : String → String → Bool
str_ltb s t = is_lt (compare s t)

false_ne_true : false ≢ true
false_ne_true = cc

then_asym :
    (a b : ℕ) (o o' : Ordering)
    → (is_lt o ≡ true → is_lt o' ≡ false)
    → is_lt (then (Nat.compare a b) o) ≡ true
    → is_lt (then (Nat.compare b a) o') ≡ false
then_asym a b o o' rest h = ground (arith, rest)

-- Of two texts at most one is before the other.
pub str_ltb_asym : (s t : String) → str_ltb s t ≡ true → str_ltb t s ≡ false
str_ltb_asym String.[] String.[] h = ap is_lt compare.nil-nil
str_ltb_asym String.[] (String.◌∷◌ d t) h = ap is_lt (compare.cons-nil d t)
str_ltb_asym (String.◌∷◌ c s) String.[] h =
    absurd (false_ne_true (ap is_lt (sym (compare.cons-nil c s)) ∙ h))
str_ltb_asym (String.◌∷◌ c s) (String.◌∷◌ d t) h =
    ap is_lt (compare.cons-cons d c t s)
    ∙ then_asym (code c) (code d) (compare s t) (compare t s) (str_ltb_asym s t)
        (ap is_lt (sym (compare.cons-cons c d s t)) ∙ h)
