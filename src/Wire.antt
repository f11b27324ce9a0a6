-- ===== src/Wire.antt =====
-- The text of the line protocol: the calls of the C library that the agent prints and parses with
-- (`snprintf` of "%d", `atoi`, `strtok_r`, `strncpy`), and `get_token` and `get_quantity` of
-- agent/read_instructions.c. A C string is the list of the bytes before its terminator.
pub mod Messages
pub mod Decimal
pub mod Tokens
pub mod Numerals
pub mod Widths
use tp_sistemas_operativos_i.Prelude.{
  ℕ, zero, suc, ◌+◌, ◌-◌, ◌*◌, ◌/◌, ◌%◌, List, [], ◌∷◌, ◌++◌, Bool, ◌&&◌, ◌||◌, Option, none, some,
  ltb, leb, ◌==◌, if◌then◌else◌, take,
}
use tp_sistemas_operativos_i.Prelude.Int.{ℤ, pos, negsuc, sub_ℕ}
use tp_sistemas_operativos_i.Prelude.Text.{codes}

-- The decimal digits of a number; the fuel bounds their count.
unfoldable pub print_digits : ℕ → ℕ → List ℕ
print_digits zero n = []
print_digits (suc fuel) n =
    let front = print_digits fuel (n / 10) in
    if ltb n 10 then (n + b'0') ∷ [] else front ++ (n % 10 + b'0') ∷ []

unfoldable pub print_nat : ℕ → List ℕ
unfolding print_digits
print_nat n = print_digits (suc n) n

-- "%d"
unfoldable pub print_int : ℤ → List ℕ
unfolding print_nat
print_int (pos n) = print_nat n
print_int (negsuc n) = b'-' ∷ print_nat (suc n)

abbrev pub is_digit : ℕ → Bool
is_digit c = leb b'0' c && leb c b'9'

-- `isspace`: space, and the control characters from tab to carriage return.
abbrev pub is_space : ℕ → Bool
is_space c = c == 32 || leb 9 c && leb c 13

unfoldable pub read_digits : ℕ → List ℕ → ℕ
read_digits acc [] = acc
read_digits acc (c ∷ cs) =
    let rest = read_digits (acc * 10 + (c - b'0')) cs in if is_digit c then rest else acc

unfoldable pub skip : (ℕ → Bool) → List ℕ → List ℕ
skip p [] = []
skip p (c ∷ cs) = if p c then skip p cs else c ∷ cs

unfoldable pub read_signed : List ℕ → ℤ
unfolding read_digits
read_signed [] = pos 0
read_signed (c ∷ cs) =
    if c == b'-'
    then sub_ℕ 0 (read_digits 0 cs)
    else (if c == b'+' then pos (read_digits 0 cs) else pos (read_digits 0 (c ∷ cs)))

-- A value outside `int` is undefined in C, so it is not wrapped.
unfoldable pub atoi : List ℕ → ℤ
unfolding skip read_signed
atoi s = read_signed (skip is_space s)

-- The bytes up to the first delimiter, and those behind it.
unfoldable pub until : (ℕ → Bool) → List ℕ → List ℕ
until delim [] = []
until delim (c ∷ cs) = if delim c then [] else c ∷ until delim cs

unfoldable pub after : (ℕ → Bool) → List ℕ → List ℕ
after delim [] = []
after delim (c ∷ cs) = if delim c then cs else after delim cs

abbrev pub token_at : (ℕ → Bool) → List ℕ → Option (List ℕ × List ℕ)
token_at delim [] = none
token_at delim (c ∷ cs) = some (until delim (c ∷ cs), after delim (c ∷ cs))

-- `strtok_r`: the next token, and the text that the save pointer is left at.
unfoldable pub strtok : (ℕ → Bool) → List ℕ → Option (List ℕ × List ℕ)
unfolding skip until after
strtok delim s = token_at delim (skip delim s)

-- " \n\r"
abbrev pub is_delimiter : ℕ → Bool
is_delimiter c = c == 32 || c == 10 || c == 13

unfoldable pub get_token : List ℕ → ℕ → List (List ℕ)
unfolding strtok
get_token instruction zero = []
get_token instruction (suc max_tokens) = elim (strtok is_delimiter instruction) [
  | none ↦ []
  | some (t, rest) ↦ t ∷ get_token rest max_tokens
]

abbrev pub is_colon : ℕ → Bool
is_colon c = c == b':'

abbrev pub is_blank : ℕ → Bool
is_blank c = c == 32

abbrev quantity_of : Option (List ℕ × List ℕ) → ℤ
quantity_of none = pos 0
quantity_of (some (q, rest)) = atoi q

abbrev rest_of : Option (List ℕ × List ℕ) → List ℕ
rest_of none = []
rest_of (some (t, rest)) = rest

-- "name:quantity"
unfoldable pub get_quantity : List ℕ → ℤ
unfolding strtok atoi
get_quantity line = quantity_of (strtok is_blank (rest_of (strtok is_colon line)))

-- `strncpy(copy, s, size - 1); copy[size - 1] = '\0'`
abbrev pub bounded_copy : ℕ → List ℕ → List ℕ
bounded_copy size s = take (size - 1) s
