-- ===== src/Tools/Text/Numbers.antt =====
-- What driver/tools read their options with: `strtoul` in base 10, `atoi`, and the conversions of
-- their results. The tools pass no end pointer. `long` is 64 bits wide; `atoi` is `strtol` in base 10, as
-- the manual of the C library says, so a number that does not fit is the nearest `long`.
use gs_usb_user.Base.{
  ℕ, ◌+◌, ◌-◌, ◌*◌, ◌%◌, ◌^◌, Bool, false, ◌&&◌, List, [], ◌∷◌, ltb, leb, min, ◌==◌, u32,
  if◌then◌else◌,
}
use gs_usb_user.Base.Int.{ℤ, pos, negsuc}
use gs_usb_user.Tools.Text.{skip_space, is_sign, ulong, strtoul}

abbrev pub is_digit : ℕ → Bool
is_digit c = leb b'0' c && leb c b'9'

-- the number in front of the first character that is no digit
unfoldable pub decimal_digits : ℕ → List ℕ → ℕ
decimal_digits acc [] = acc
decimal_digits acc (c ∷ cs) =
    let rest = decimal_digits (acc * 10 + (c - b'0')) cs in if is_digit c then rest else acc

-- whether there is a minus sign, and the number behind the sign
unfoldable pub signed_decimal : List ℕ → Bool × ℕ
signed_decimal s = elim (skip_space s) [
  | [] ↦ (false, 0)
  | c ∷ cs ↦
      if is_sign c then (c == b'-', decimal_digits 0 cs) else (false, decimal_digits 0 (c ∷ cs))
]

-- `strtoul(s, NULL, 10)`
unfoldable pub strtoul_10 : List ℕ → ℕ
strtoul_10 s = let (negative, n) = signed_decimal s in ulong negative n

-- `strtol(s, NULL, 10)`, as 64 bits
unfoldable pub strtol_10 : List ℕ → ℕ
strtol_10 s =
    let (negative, n) = signed_decimal s in
    if negative then (2 ^ 64 - min n (2 ^ 63)) % 2 ^ 64 else min n (2 ^ 63 - 1)

-- `(int)` of 32 bits
abbrev pub as_int : ℕ → ℤ
as_int n = if ltb n (2 ^ 31) then pos n else negsuc (2 ^ 32 - 1 - n)

-- `(unsigned int)atoi(s)`
abbrev pub atou : List ℕ → ℕ
atou s = u32 (strtol_10 s)

abbrev pub atoi : List ℕ → ℤ
atoi s = as_int (atou s)

-- `(uint32_t)strtoul(s, NULL, 10)`
abbrev pub decimal_u32 : List ℕ → ℕ
decimal_u32 s = u32 (strtoul_10 s)

-- `(uint32_t)strtoul(s, NULL, 16)`
abbrev pub hex_u32 : List ℕ → ℕ
hex_u32 s = u32 (strtoul s).0

-- `(int)strtoul(s, NULL, 16)`
abbrev pub hex_int : List ℕ → ℤ
hex_int s = as_int (hex_u32 s)
