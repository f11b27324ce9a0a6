-- ===== src/Wire/Numerals.antt =====
-- A printed integer is one word of a line, and `get_quantity` reads it behind a name.
use tp_sistemas_operativos_i.Prelude.{
  ℕ, suc, ◌+◌, ◌/◌, ◌%◌, ◌<◌, ◌≡◌, refl, List, [], ◌∷◌, ◌++◌, Bool, true, false, arith, ltb, ◌==◌,
  ◌||◌, length, length-append, All, All-append, some, Bool-cases, inl, inr,
}
use tp_sistemas_operativos_i.Prelude.Int.{ℤ, pos, negsuc}
use tp_sistemas_operativos_i.Wire.{
  strtok, print_int, print_nat, print_digits, is_digit, is_delimiter, is_colon, is_blank,
  get_quantity,
}
use tp_sistemas_operativos_i.Wire.Decimal.{atoi-print_int, IsDigits, print_digits-IsDigits}
use tp_sistemas_operativos_i.Wire.Tokens.{IsToken, IsWord, strtok-token, strtok-last}

-- The bytes of a printed number: digits and the sign.
abbrev pub IsNumeral : ℕ → Type 0
IsNumeral c = (is_digit c || c == b'-') ≡ true

digits-IsNumeral : (xs : List ℕ) → IsDigits xs → All IsNumeral xs
digits-IsNumeral [] h = tt
digits-IsNumeral (x ∷ xs) h = (ground arith, digits-IsNumeral xs h.1)

pub print_int-IsNumeral : (z : ℤ) → All IsNumeral (print_int z)
unfolding print_int print_nat
print_int-IsNumeral (pos n) = digits-IsNumeral (print_nat n) (print_digits-IsDigits (suc n) n)
print_int-IsNumeral (negsuc n) =
    (refl, digits-IsNumeral (print_nat (suc n)) (print_digits-IsDigits (suc (suc n)) (suc n)))

numeral-word : (xs : List ℕ) → All IsNumeral xs → All (λ c. is_delimiter c ≡ false) xs
numeral-word [] h = tt
numeral-word (x ∷ xs) h = (ground arith, numeral-word xs h.1)

numeral-blank : (xs : List ℕ) → All IsNumeral xs → All (λ c. is_blank c ≡ false) xs
numeral-blank [] h = tt
numeral-blank (x ∷ xs) h = (ground arith, numeral-blank xs h.1)

print_digits_pos : (fuel n : ℕ) → 0 < length (print_digits (suc fuel) n)
unfolding print_digits
print_digits_pos fuel n = elim (Bool-cases (ltb n 10)) [
  | inl small ↦ rw small (omega arith)
  | inr big ↦
      rw big (omega (arith, length-append {0} (print_digits fuel (n / 10)) ((n % 10 + b'0') ∷ [])))
]

print_int_pos : (z : ℤ) → 0 < length (print_int z)
unfolding print_int print_nat
print_int_pos (pos n) = print_digits_pos n n
print_int_pos (negsuc n) = omega arith

IsToken-of :
    (delim : ℕ → Bool) (xs : List ℕ)
    → 0 < length xs
    → All (λ c. delim c ≡ false) xs
    → IsToken delim xs
IsToken-of delim [] p h = elim p [ ]
IsToken-of delim (x ∷ xs) p h = h

pub print_int-IsWord : (z : ℤ) → IsWord (print_int z)
print_int-IsWord z =
    IsToken-of is_delimiter (print_int z) (print_int_pos z)
      (numeral-word (print_int z) (print_int-IsNumeral z))

-- A word with a printed integer behind it is a word.
pub append-IsWord :
    (w : List ℕ) (z : ℤ) → All (λ c. is_delimiter c ≡ false) w → IsWord (w ++ print_int z)
append-IsWord w z h =
    IsToken-of is_delimiter (w ++ print_int z)
      (omega (arith, print_int_pos z, length-append {0} w (print_int z)))
      (All-append (λ c. is_delimiter c ≡ false) w (print_int z) h
        (numeral-word (print_int z) (print_int-IsNumeral z)))

pub strtok-print_int : (z : ℤ) → strtok is_blank (print_int z) ≡ some (print_int z, [])
strtok-print_int z = strtok-last is_blank (print_int z) (
    IsToken-of is_blank (print_int z) (print_int_pos z)
      (numeral-blank (print_int z) (print_int-IsNumeral z)))

-- The quantity behind a name and a colon.
pub get_quantity-print_int :
    (name : List ℕ) (z : ℤ) → IsToken is_colon name → get_quantity (name ++ b':' ∷ print_int z) ≡ z
unfolding get_quantity
get_quantity-print_int name z h =
    rw (strtok-token is_colon name (print_int z) b':' h refl, strtok-print_int z) (atoi-print_int z)

-- Not the terminator of a string.
abbrev pub IsByte : ℕ → Type 0
IsByte c = (c == 0) ≡ false

numeral-IsByte : (xs : List ℕ) → All IsNumeral xs → All IsByte xs
numeral-IsByte [] h = tt
numeral-IsByte (x ∷ xs) h = (ground arith, numeral-IsByte xs h.1)

pub int-IsByte : (z : ℤ) (rest : List ℕ) → All IsByte rest → All IsByte (print_int z ++ rest)
int-IsByte z rest h =
    All-append IsByte (print_int z) rest (numeral-IsByte (print_int z) (print_int-IsNumeral z)) h
