-- ===== src/Base/Order.antt =====
-- Go's `<` on strings: the order of their bytes, which is that of their code points.
use Prim.Native.Nat.{compare as compare_ℕ, Ordering}
use Prim.Native.Char.{Char, code}
use Prim.Native.String.{String, compare, then}
use Prim.Native.String.compare
use mathlib.Core.Path.{◌≡◌, refl}
use mathlib.Core.Bool.{Bool, true, false}
use native.Mathlib.Omega.{arith}
use text.Mathlib.Text.{is_lt, ◌==◌}

abbrev pub str_lt : String → String → Bool
str_lt s t = is_lt (compare s t)

nil-cons : (d : Char) (t : String) → compare String.[] (String.◌∷◌ d t) ≡ Ordering.lt
nil-cons d t = compare.nil-cons d t

cons-nil : (c : Char) (s : String) → compare (String.◌∷◌ c s) String.[] ≡ Ordering.gt
cons-nil c s = compare.cons-nil c s

cons-cons :
    (c d : Char) (s t : String)
    → compare (String.◌∷◌ c s) (String.◌∷◌ d t) ≡ then (compare_ℕ (code c) (code d)) (compare s t)
cons-cons c d s t = compare.cons-cons c d s t

pub str_lt_asymm : (s t : String) → str_lt s t ≡ true → str_lt t s ≡ false
str_lt_asymm String.[] String.[] h = refl
str_lt_asymm String.[] (String.◌∷◌ d t) h = ground (arith, cons-nil d t)
str_lt_asymm (String.◌∷◌ c s) String.[] h = ground (arith, cons-nil c s)
str_lt_asymm (String.◌∷◌ c s) (String.◌∷◌ d t) h =
    ground (arith, str_lt_asymm s t, cons-cons c d s t, cons-cons d c t s)

-- Two different texts are ordered.
pub str_lt_total : (s t : String) → (s == t) ≡ false → str_lt s t ≡ false → str_lt t s ≡ true
str_lt_total String.[] String.[] ne h = cc
str_lt_total String.[] (String.◌∷◌ d t) ne h = ground (arith, nil-cons d t)
str_lt_total (String.◌∷◌ c s) String.[] ne h = ground (arith, nil-cons c s)
str_lt_total (String.◌∷◌ c s) (String.◌∷◌ d t) ne h =
    ground (arith, str_lt_total s t, cons-cons c d s t, cons-cons d c t s)

str_lt-nil : (s : String) → str_lt s String.[] ≡ false
str_lt-nil String.[] = refl
str_lt-nil (String.◌∷◌ c s) = ground (arith, cons-nil c s)

-- Not being before is transitive.
pub str_lt_chain : (s t u : String) → str_lt s t ≡ false → str_lt t u ≡ false → str_lt s u ≡ false
str_lt_chain s t String.[] h k = str_lt-nil s
str_lt_chain String.[] String.[] (String.◌∷◌ e u) h k = k
str_lt_chain String.[] (String.◌∷◌ d t) (String.◌∷◌ e u) h k = absurd (ground (arith, nil-cons d t))
str_lt_chain (String.◌∷◌ c s) String.[] (String.◌∷◌ e u) h k = absurd (ground (arith, nil-cons e u))
str_lt_chain (String.◌∷◌ c s) (String.◌∷◌ d t) (String.◌∷◌ e u) h k =
    ground (arith, str_lt_chain s t u, cons-cons c d s t, cons-cons d e t u, cons-cons c e s u)
