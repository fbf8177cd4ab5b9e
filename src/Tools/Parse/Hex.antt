-- ===== src/Tools/Parse/Hex.antt =====
-- The numbers that `parse_frame` reads, from hexadecimal digits of a fixed width.
use native.Mathlib.Nat.{pow-suc}
use gs_usb_user.Base.{
  Bool, ℕ, zero, suc, ◌+◌, ◌*◌, ◌/◌, ◌%◌, ◌^◌, ◌<◌, ◌≡◌, refl, ap, false, some, List, [], ◌∷◌, ◌++◌,
  arith, ◌==◌, length, length-append,
}
use gs_usb_user.Tools.Text.{
  is_space, hex_value, skip_space, digits, skip_prefix, is_sign, is_x, ulong, unsigned_digits,
  strtoul, scan_2x, second_digit,
}
use gs_usb_user.Tools.Parse.{is_empty, parse_hex_u32}
use gs_usb_user.Tools.Parse.Message.{hex_char, hex_fixed}

unfoldable pub IsHex : ℕ → Type 0
IsHex c = (v : ℕ) × (hex_value c ≡ some v) × (v < 16)

abbrev pub AllHex : List ℕ → Type 0
AllHex [] = Unit
AllHex (c ∷ cs) = IsHex c × AllHex cs

pub hex_value-hex_char : (upper : Bool) (v : ℕ) → v < 16 → hex_value (hex_char upper v) ≡ some v
unfolding hex_value
hex_value-hex_char upper v h = ground arith

-- A digit is none of the characters that the parser looks for.
pub digit_plain :
    (c : ℕ)
    → IsHex c
    → (is_space c ≡ false) × (is_sign c ≡ false) × (is_x c ≡ false) × ((c == b'#') ≡ false)
unfolding IsHex hex_value
digit_plain c (v, e, h) = ground arith

AllHex-append : (xs ys : List ℕ) → AllHex xs → AllHex ys → AllHex (xs ++ ys)
AllHex-append [] ys hx hy = hy
AllHex-append (x ∷ xs) ys hx hy = (hx.0, AllHex-append xs ys hx.1 hy)

pub hex_fixed-AllHex : (upper : Bool) (w v : ℕ) → AllHex (hex_fixed upper w v)
unfolding IsHex
hex_fixed-AllHex upper zero v = tt
hex_fixed-AllHex upper (suc w) v =
    AllHex-append (hex_fixed upper w (v / 16)) (hex_char upper (v % 16) ∷ [])
      (hex_fixed-AllHex upper w (v / 16))
      ((v % 16, hex_value-hex_char upper (v % 16) (omega arith), omega arith), tt)

digits-append :
    (acc : ℕ) (xs ys : List ℕ)
    → AllHex xs
    → ((digits acc xs).1 ≡ []) × (digits acc (xs ++ ys) ≡ digits (digits acc xs).0 ys)
unfolding digits IsHex
digits-append acc [] ys h = (refl, refl)
digits-append acc (x ∷ xs) ys ((v, e, small), h) =
    rw (e, digits) (digits-append (acc * 16 + v) xs ys h)

digits-hex_fixed :
    (upper : Bool) (w v acc : ℕ)
    → v < 16 ^ w
    → digits acc (hex_fixed upper w v) ≡ (acc * 16 ^ w + v, [])
unfolding digits
digits-hex_fixed upper zero v acc h = ground arith
digits-hex_fixed upper (suc w) v acc h =
    let small : v / 16 < 16 ^ w = omega (arith, pow-suc 16 w) in
    let whole : (acc * 16 ^ w + v / 16) * 16 + v % 16 ≡ acc * 16 ^ suc w + v =
      omega (arith, ap (λ (t : ℕ). acc * t) (pow-suc 16 w)) in
    ground (
      arith,
      digits-append acc (hex_fixed upper w (v / 16)) (hex_char upper (v % 16) ∷ [])
          (hex_fixed-AllHex upper w (v / 16)),
      digits-hex_fixed upper w (v / 16) acc small,
      hex_value-hex_char upper (v % 16),
    )

skip_prefix-hex : (s : List ℕ) → AllHex s → skip_prefix s ≡ s
unfolding skip_prefix
skip_prefix-hex [] h = refl
skip_prefix-hex (z ∷ []) h = refl
skip_prefix-hex (z ∷ x ∷ []) h = refl
skip_prefix-hex (z ∷ x ∷ c ∷ cs) h = ground (arith, digit_plain x h.1.0)

skip_space-digit : (c : ℕ) (cs : List ℕ) → IsHex c → skip_space (c ∷ cs) ≡ c ∷ cs
unfolding skip_space
skip_space-digit c cs h = ground (arith, digit_plain c h)

-- On digits alone `strtoul` gives their number and reads to the end.
pub strtoul-hex :
    (c : ℕ) (cs : List ℕ)
    → AllHex (c ∷ cs)
    → strtoul (c ∷ cs) ≡ (ulong false (digits 0 (c ∷ cs)).0, (digits 0 (c ∷ cs)).1)
unfolding strtoul unsigned_digits IsHex
strtoul-hex c cs h =
    ground (arith, skip_space-digit c cs h.0, digit_plain c h.0, skip_prefix-hex (c ∷ cs) h, h.0.1)

is_empty-length : (s : List ℕ) → 0 < length s → is_empty s ≡ false
is_empty-length [] h = absurd (omega arith)
is_empty-length (c ∷ cs) h = refl

pub length-hex_fixed : (upper : Bool) (w v : ℕ) → length (hex_fixed upper w v) ≡ w
length-hex_fixed upper zero v = refl
length-hex_fixed upper (suc w) v = omega (
  arith,
  length-append {0} (hex_fixed upper w (v / 16)) (hex_char upper (v % 16) ∷ []),
  length-hex_fixed upper w (v / 16),
)

-- An id of a fixed width is read back.
pub parse_hex_u32-hex_fixed :
    (upper : Bool) (w v : ℕ)
    → v < 16 ^ suc w
    → v < 2 ^ 32
    → parse_hex_u32 (hex_fixed upper (suc w) v) ≡ some v
unfolding parse_hex_u32
parse_hex_u32-hex_fixed upper w v h small =
    from (hex_fixed upper (suc w) v) (hex_fixed-AllHex upper (suc w) v)
      (digits-hex_fixed upper (suc w) v 0 h) nonempty
  where
    nonempty : is_empty (hex_fixed upper (suc w) v) ≡ false
    nonempty =
        is_empty-length (hex_fixed upper (suc w) v)
          (omega (arith, length-hex_fixed upper (suc w) v))

    from :
        (s : List ℕ)
        → AllHex s
        → digits 0 s ≡ (0 * 16 ^ suc w + v, [])
        → is_empty s ≡ false
        → parse_hex_u32 s ≡ some v
    from [] h d e = ground arith
    from (c ∷ cs) h d e = ground (arith, strtoul-hex c cs h, d)

pub scan_2x-byte :
    (upper : Bool) (b : ℕ) (rest : List ℕ)
    → b < 256
    → scan_2x (hex_char upper (b / 16) ∷ hex_char upper (b % 16) ∷ rest) ≡ some b
unfolding scan_2x second_digit IsHex
scan_2x-byte upper b rest h =
    let hi = hex_value-hex_char upper (b / 16) (omega arith) in
    let lo = hex_value-hex_char upper (b % 16) (omega arith) in
    ground (
      arith,
      skip_space-digit (hex_char upper (b / 16)) (hex_char upper (b % 16) ∷ rest)
          (b / 16, hi, omega arith),
      hi,
      lo,
    )
