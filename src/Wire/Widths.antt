-- ===== src/Wire/Widths.antt =====
-- How many characters "%d" prints of a 32-bit `int`.
use tp_sistemas_operativos_i.Prelude.{
  ℕ, zero, suc, ◌+◌, ◌*◌, ◌/◌, ◌%◌, ◌≤◌, ◌<◌, ◌≡◌, [], ◌∷◌, arith, ltb, Bool-cases, inl, inr,
  length, length-append, true,
}
use tp_sistemas_operativos_i.Prelude.Int.{ℤ, pos, negsuc, pos_part, neg_part}
use tp_sistemas_operativos_i.Wire.{print_digits, print_nat, print_int}

-- A number below `bound` has at most `width` digits.
abbrev HasWidth : ℕ → ℕ → Type 0
HasWidth width bound = (fuel n : ℕ) → n < bound → length (print_digits fuel n) ≤ width

HasWidth-one : HasWidth 1 10
unfolding print_digits
HasWidth-one zero n h = omega arith
HasWidth-one (suc fuel) n h = let small : ltb n 10 ≡ true = ground arith in rw small (omega arith)

HasWidth-times_ten :
    (width bound : ℕ) → HasWidth width bound → 0 < width → HasWidth (suc width) (bound * 10)
unfolding print_digits
HasWidth-times_ten width bound w some_digit zero n h = omega arith
HasWidth-times_ten width bound w some_digit (suc fuel) n h = elim (Bool-cases (ltb n 10)) [
  | inl small ↦ rw small (omega arith)
  | inr big ↦ rw big (
      omega (
        arith,
        w fuel (n / 10) (omega arith),
        length-append {0} (print_digits fuel (n / 10)) ((n % 10 + b'0') ∷ []),
      ))
]

HasWidth-ten : HasWidth 10 10000000000
HasWidth-ten =
    let step = HasWidth-times_ten in
    step 9 1000000000
      (step 8 100000000
        (step 7 10000000
          (step 6 1000000
            (step 5 100000
              (step 4 10000
                (step 3 1000 (step 2 100 (step 1 10 HasWidth-one (omega arith)) (omega arith))
                  (omega arith))
                (omega arith))
              (omega arith))
            (omega arith))
          (omega arith))
        (omega arith))
      (omega arith)

-- The values of a 32-bit `int`.
pub record IsInt (z : ℤ) : Type 0 where
  pub above : neg_part z ≤ 2147483648
  pub below : pos_part z < 2147483648

pub length-print_int : (z : ℤ) → IsInt z → length (print_int z) ≤ 11
unfolding print_int print_nat
length-print_int (pos n) h = omega (arith, HasWidth-ten (suc n) n (omega (arith, h.below)))
length-print_int (negsuc n) h =
    omega (arith, HasWidth-ten (suc (suc n)) (suc n) (omega (arith, h.above)))
