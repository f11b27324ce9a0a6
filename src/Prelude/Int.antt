-- ===== src/Prelude/Int.antt =====
-- The C type `int` as an integer over the native numbers (the library's ℤ stands on the unary ℕ).
-- `int` arithmetic that overflows is undefined in C, so the integers are not wrapped; a conversion
-- to `unsigned` is reduced modulo 2 ^ 32.
use Prim.Native.Nat.{ℕ, suc, ◌+◌, ◌-◌, ◌≤◌, ◌%◌, ◌^◌}
use mathlib.Core.Path.{◌≡◌, refl, ap}
use mathlib.Core.Logic.{◌↔◌}
use mathlib.Core.Bool.{Bool, true, false}
use mathlib.Core.List.{List, [], ◌∷◌, ◌++◌, reverse, reverse-cons}
use native.Mathlib.Omega.{arith}
use tp_sistemas_operativos_i.Prelude.Tests.{ltb, leb, ◌==◌, if◌then◌else◌}

-- `negsuc n` is -(n + 1).
pub data ℤ : Type 0 where
  pos : ℕ → ℤ
  negsuc : ℕ → ℤ

abbrev pub pos_part : ℤ → ℕ
pos_part (pos n) = n
pos_part (negsuc n) = 0

abbrev pub neg_part : ℤ → ℕ
neg_part (pos n) = 0
neg_part (negsuc n) = suc n

abbrev pub sub_ℕ : ℕ → ℕ → ℤ
sub_ℕ a b = if leb b a then pos (a - b) else negsuc (b - a - 1)

infixl 65 ◌+ℤ◌ ◌-ℤ◌
infix 50 ◌≤ℤ◌ ◌<ℤ◌
unfoldable pub ◌+ℤ◌ : ℤ → ℤ → ℤ
a +ℤ b = sub_ℕ (pos_part a + pos_part b) (neg_part a + neg_part b)

unfoldable pub ◌-ℤ◌ : ℤ → ℤ → ℤ
a -ℤ b = sub_ℕ (pos_part a + neg_part b) (neg_part a + pos_part b)

abbrev pub ◌≤ℤ◌ : ℤ → ℤ → Type 0
a ≤ℤ b = pos_part a + neg_part b ≤ pos_part b + neg_part a

abbrev pub ◌<ℤ◌ : ℤ → ℤ → Type 0
a <ℤ b = suc (pos_part a + neg_part b) ≤ pos_part b + neg_part a

abbrev pub leb_ℤ : ℤ → ℤ → Bool
leb_ℤ a b = leb (pos_part a + neg_part b) (pos_part b + neg_part a)

abbrev pub ltb_ℤ : ℤ → ℤ → Bool
ltb_ℤ a b = ltb (pos_part a + neg_part b) (pos_part b + neg_part a)

abbrev pub eq_ℤ : ℤ → ℤ → Bool
eq_ℤ a b = (pos_part a + neg_part b) == (pos_part b + neg_part a)

-- The conversion `(unsigned)`.
abbrev pub to_unsigned : ℤ → ℕ
to_unsigned (pos n) = n % 2 ^ 32
to_unsigned (negsuc n) = 2 ^ 32 - 1 - n % 2 ^ 32

pub +ℤ_parts :
    (a b : ℤ)
    → pos_part (a +ℤ b) + neg_part a + neg_part b ≡ neg_part (a +ℤ b) + pos_part a + pos_part b
unfolding ◌+ℤ◌
+ℤ_parts a b = ground arith

pub -ℤ_parts :
    (a b : ℤ)
    → pos_part (a -ℤ b) + neg_part a + pos_part b ≡ neg_part (a -ℤ b) + pos_part a + neg_part b
unfolding ◌-ℤ◌
-ℤ_parts a b = ground arith

pub eq_of_parts : (a b : ℤ) → pos_part a + neg_part b ≡ pos_part b + neg_part a → a ≡ b
eq_of_parts a b h = ground arith

pub eq_ℤ_iff : (a b : ℤ) → (eq_ℤ a b ≡ true) ↔ (a ≡ b)
eq_ℤ_iff a b = ground arith

pub leb_ℤ→le : (a b : ℤ) → leb_ℤ a b ≡ true → a ≤ℤ b
leb_ℤ→le a b h = ground arith

pub leb_ℤ→lt : (a b : ℤ) → leb_ℤ a b ≡ false → b <ℤ a
leb_ℤ→lt a b h = ground arith

pub le→leb_ℤ : (a b : ℤ) → a ≤ℤ b → leb_ℤ a b ≡ true
le→leb_ℤ a b h = ground arith

pub lt→leb_ℤ : (a b : ℤ) → b <ℤ a → leb_ℤ a b ≡ false
lt→leb_ℤ a b h = ground arith

pub ruleset int_laws = (arith, +ℤ_parts, -ℤ_parts, eq_of_parts)

-- The sum of a field over a list.
module _ {ℓ} {A : Type ℓ} where
  unfoldable pub sum_ℤ : (A → ℤ) → List A → ℤ
  sum_ℤ f [] = pos 0
  sum_ℤ f (x ∷ xs) = f x +ℤ sum_ℤ f xs

  pub sum_ℤ-nil : (f : A → ℤ) → sum_ℤ f [] ≡ pos 0
  unfolding sum_ℤ
  sum_ℤ-nil f = refl

  pub sum_ℤ-cons : (f : A → ℤ) (x : A) (xs : List A) → sum_ℤ f (x ∷ xs) ≡ f x +ℤ sum_ℤ f xs
  unfolding sum_ℤ
  sum_ℤ-cons f x xs = refl

  pub sum_ℤ-append : (f : A → ℤ) (xs ys : List A) → sum_ℤ f (xs ++ ys) ≡ sum_ℤ f xs +ℤ sum_ℤ f ys
  unfolding sum_ℤ
  sum_ℤ-append f [] ys = omega int_laws
  sum_ℤ-append f (x ∷ xs) ys =
      omega (int_laws, ap pos_part (sum_ℤ-append f xs ys), ap neg_part (sum_ℤ-append f xs ys))

  pub sum_ℤ-reverse : (f : A → ℤ) (xs : List A) → sum_ℤ f (reverse xs) ≡ sum_ℤ f xs
  unfolding sum_ℤ
  sum_ℤ-reverse f [] = refl
  sum_ℤ-reverse f (x ∷ xs) =
      let ih = sum_ℤ-reverse f xs in
      let e = sum_ℤ-append f (reverse xs) (x ∷ []) in
      rw (reverse-cons x xs)
        (omega (int_laws, ap pos_part e, ap neg_part e, ap pos_part ih, ap neg_part ih))
