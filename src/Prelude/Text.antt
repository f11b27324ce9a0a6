-- ===== src/Prelude/Text.antt =====
-- Text as a list of byte values.
use Prim.Native.Char.{code}
use Prim.Native.String.{String}
use Prim.Native.Nat.{ℕ}
use mathlib.Core.Path.{◌≡◌, refl}
use mathlib.Core.Bool.{Bool, true, false, ◌&&◌}
use mathlib.Core.List.{List, [], ◌∷◌}
use native.Mathlib.Omega.{arith}
use tp_sistemas_operativos_i.Prelude.Tests.{◌==◌}

-- The bytes of an ASCII literal.
abbrev pub codes : String → List ℕ
codes String.[] = []
codes (String.◌∷◌ c s) = code c ∷ codes s

-- `strcmp(a, b) == 0` on the bytes before the terminators.
unfoldable pub str_eq : List ℕ → List ℕ → Bool
str_eq [] [] = true
str_eq [] (b ∷ bs) = false
str_eq (a ∷ as') [] = false
str_eq (a ∷ as') (b ∷ bs) = (a == b) && str_eq as' bs

pub str_eq→eq : (a b : List ℕ) → str_eq a b ≡ true → a ≡ b
unfolding str_eq
str_eq→eq [] [] h = refl
str_eq→eq [] (b ∷ bs) h = cc
str_eq→eq (a ∷ as') [] h = cc
str_eq→eq (a ∷ as') (b ∷ bs) h = ground (arith, str_eq→eq as' bs)

pub str_eq_refl : (a : List ℕ) → str_eq a a ≡ true
unfolding str_eq
str_eq_refl [] = refl
str_eq_refl (a ∷ as') = ground (arith, str_eq_refl as')
