-- ===== src/Tools/Text.antt =====
-- What driver/tools use of the C library on texts. A text is the list of its bytes without the NUL.
-- `unsigned long` is 64 bits wide.
pub mod Numbers
use Prim.Native.String.{String}
use Prim.Native.Char.{code}
use gs_usb_user.Base.{
  ℕ, ◌+◌, ◌-◌, ◌*◌, ◌%◌, ◌^◌, Bool, false, ◌&&◌, ◌||◌, Option, none, some, List, [], ◌∷◌, ltb, leb,
  ◌==◌, if◌then◌else◌,
}

-- the bytes of a literal
abbrev pub codes : String → List ℕ
codes String.[] = []
codes (String.◌∷◌ c s) = code c ∷ codes s

-- `isspace` in the C locale
abbrev pub is_space : ℕ → Bool
is_space c = c == 32 || (leb 9 c && leb c 13)

-- the value of a hexadecimal digit
unfoldable pub hex_value : ℕ → Option ℕ
hex_value c =
    if leb b'0' c && leb c b'9'
    then some (c - b'0')
    else if leb b'a' c && leb c b'f'
    then some (c - b'a' + 10)
    else if leb b'A' c && leb c b'F'
    then some (c - b'A' + 10)
    else none

unfoldable pub skip_space : List ℕ → List ℕ
skip_space [] = []
skip_space (c ∷ cs) = if is_space c then skip_space cs else c ∷ cs

-- the number that the digits stand for, and the text behind them
unfoldable pub digits : ℕ → List ℕ → ℕ × List ℕ
digits acc [] = (acc, [])
digits acc (c ∷ cs) = elim (hex_value c) [
  | none ↦ (acc, c ∷ cs)
  | some v ↦ digits (acc * 16 + v) cs
]

abbrev pub is_sign : ℕ → Bool
is_sign c = c == b'+' || c == b'-'

abbrev pub is_x : ℕ → Bool
is_x c = c == b'x' || c == b'X'

-- `0x` counts only in front of a digit
unfoldable pub skip_prefix : List ℕ → List ℕ
skip_prefix (z ∷ x ∷ c ∷ cs) =
    if z == b'0' && is_x x
    then elim (hex_value c) [ none ↦ z ∷ x ∷ c ∷ cs | some v ↦ c ∷ cs ]
    else z ∷ x ∷ c ∷ cs
skip_prefix cs = cs

abbrev pub ulong_max : ℕ
ulong_max = 2 ^ 64 - 1

-- the value of `strtoul`, from the sign and the digits; ULONG_MAX if it is too large
abbrev pub ulong : Bool → ℕ → ℕ
ulong negative n =
    if ltb ulong_max n then ulong_max else if negative then (2 ^ 64 - n) % 2 ^ 64 else n

-- the digits of `strtoul(s, &end, 16)`; with none of them the end is the start
unfoldable pub unsigned_digits : List ℕ → Bool → List ℕ → ℕ × List ℕ
unsigned_digits s negative [] = (0, s)
unsigned_digits s negative (c ∷ cs) = elim (hex_value c) [
  | none ↦ (0, s)
  | some v ↦ let (n, end) = digits 0 (c ∷ cs) in (ulong negative n, end)
]

unfoldable pub strtoul : List ℕ → ℕ × List ℕ
strtoul s = elim (skip_space s) [
  | [] ↦ (0, s)
  | c ∷ cs ↦
      if is_sign c
      then unsigned_digits s (c == b'-') (skip_prefix cs)
      else unsigned_digits s false (skip_prefix (c ∷ cs))
]

-- the second character of what `%2x` reads, after a digit `v` written `c`
unfoldable pub second_digit : ℕ → ℕ → List ℕ → Option ℕ
second_digit c v [] = some v
second_digit c v (x ∷ xs) = elim (hex_value x) [
  | some u ↦ some (v * 16 + u)
  | none ↦ if c == b'0' && is_x x then none else some v
]

-- the one digit behind a sign
unfoldable pub signed_digit : Bool → List ℕ → Option ℕ
signed_digit negative [] = none
signed_digit negative (x ∷ xs) = elim (hex_value x) [
  | none ↦ none
  | some v ↦ some (if negative then (2 ^ 32 - v) % 2 ^ 32 else v)
]

-- `sscanf(s, "%2x", &n)`: the number, or `none` if it does not give 1
unfoldable pub scan_2x : List ℕ → Option ℕ
scan_2x s = elim (skip_space s) [
  | [] ↦ none
  | c ∷ cs ↦ elim (hex_value c) [
    | some v ↦ second_digit c v cs
    | none ↦ if is_sign c then signed_digit (c == b'-') cs else none
  ]
]
