-- ===== src/Wire/Decimal.antt =====
-- `atoi` reads back what "%d" prints.
use tp_sistemas_operativos_i.Prelude.{
  ℕ, zero, suc, ◌+◌, ◌-◌, ◌*◌, ◌/◌, ◌%◌, ◌<◌, ◌≡◌, refl, List, [], ◌∷◌, ◌++◌, true, false, arith,
  ltb, ◌==◌, Bool-cases, inl, inr, All, All-append,
}
use tp_sistemas_operativos_i.Prelude.Int.{ℤ, pos, negsuc, sub_ℕ}
use tp_sistemas_operativos_i.Wire.{
  print_digits, print_nat, print_int, is_digit, is_space, read_digits, read_signed, atoi,
}

abbrev pub IsDigits : List ℕ → Type 0
IsDigits = All (λ c. is_digit c ≡ true)

read_digits-append :
    (acc : ℕ) (xs : List ℕ) (c : ℕ)
    → IsDigits xs
    → is_digit c ≡ true
    → read_digits acc (xs ++ c ∷ []) ≡ read_digits acc xs * 10 + (c - b'0')
unfolding read_digits
read_digits-append acc [] c h d = rw d
read_digits-append acc (x ∷ xs) c h d =
    rw (h.0) (read_digits-append (acc * 10 + (x - b'0')) xs c h.1 d)

pub print_digits-IsDigits : (fuel n : ℕ) → IsDigits (print_digits fuel n)
unfolding print_digits
print_digits-IsDigits zero n = tt
print_digits-IsDigits (suc fuel) n = elim (Bool-cases (ltb n 10)) [
  | inl small ↦ rw small (ground arith, tt)
  | inr big ↦ rw big (
      All-append (λ c. is_digit c ≡ true) _ _ (print_digits-IsDigits fuel (n / 10))
        (ground arith, tt))
]

read_digits-print_digits : (fuel n : ℕ) → n < fuel → read_digits 0 (print_digits fuel n) ≡ n
unfolding print_digits read_digits
read_digits-print_digits zero n h = elim h [ ]
read_digits-print_digits (suc fuel) n h = elim (Bool-cases (ltb n 10)) [
  | inl small ↦ rw small (ground arith)
  | inr big ↦
      rw
        (
          big,
          read_digits-append 0 (print_digits fuel (n / 10)) (n % 10 + b'0')
              (print_digits-IsDigits fuel (n / 10)) (ground arith),
          read_digits-print_digits fuel (n / 10) (ground arith),
        )
        (omega arith)
]

atoi-digits : (xs : List ℕ) → IsDigits xs → atoi xs ≡ pos (read_digits 0 xs)
unfolding atoi read_digits
atoi-digits [] d = refl
atoi-digits (c ∷ cs) d =
    let space : is_space c ≡ false = ground arith in
    let minus : (c == b'-') ≡ false = ground arith in
    let plus : (c == b'+') ≡ false = ground arith in rw (space, atoi, read_signed, minus, plus) refl

pub read_digits-print_nat : (n : ℕ) → read_digits 0 (print_nat n) ≡ n
unfolding print_nat
read_digits-print_nat n = read_digits-print_digits (suc n) n (omega arith)

atoi-minus : (cs : List ℕ) → atoi (b'-' ∷ cs) ≡ sub_ℕ 0 (read_digits 0 cs)
unfolding atoi
atoi-minus cs = refl

atoi-print_nat : (n : ℕ) → atoi (print_nat n) ≡ pos n
unfolding print_nat
atoi-print_nat n =
    rw (atoi-digits (print_nat n) (print_digits-IsDigits (suc n) n), read_digits-print_nat n)

-- Printing an integer and reading it gives it back.
pub atoi-print_int : (z : ℤ) → atoi (print_int z) ≡ z
unfolding print_int
atoi-print_int (pos n) = atoi-print_nat n
atoi-print_int (negsuc n) =
    rw (atoi-minus (print_nat (suc n)), read_digits-print_nat (suc n)) (ground arith)
