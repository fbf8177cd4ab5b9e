-- ===== src/Tools/Info/Scan/Reopening.antt =====
-- The numbers of a line of `gsusb_info --scan` are options that find the device again.
use gs_usb_user.Base.{
  ℕ, ◌+◌, ◌/◌, ◌%◌, ◌^◌, ◌<◌, ◌≡◌, ◌≢◌, ap₂, ◌∙◌, true, some, [], ◌∷◌, arith, ltb, if◌then◌else◌,
}
use gs_usb_user.Base.Int.{pos}
use gs_usb_user.Open.Find.{UsbDevice, is_match}
use gs_usb_user.Tools.Text.{hex_value, digits, skip_space}
use gs_usb_user.Tools.Text.Numbers.{decimal_digits, signed_decimal, strtol_10, atoi, hex_int}
use gs_usb_user.Tools.Parse.Hex.{IsHex, strtoul-hex}
use gs_usb_user.Tools.Info.Scan.{decimal_fixed, hex_lower}
use gs_usb_user.Tools.Info.Scan.Agreement.{tried}

-- a lower-case digit
abbrev lower_char : ℕ → ℕ
lower_char v = if ltb v 10 then 48 + v else 87 + v

hex_value-lower_char : (v : ℕ) → v < 16 → hex_value (lower_char v) ≡ some v
unfolding hex_value
hex_value-lower_char v h = ground arith

lower_char-IsHex : (v : ℕ) → v < 16 → IsHex (lower_char v)
unfolding IsHex
lower_char-IsHex v h = (v, hex_value-lower_char v h, h)

hex_int-hex_lower : (v : ℕ) → v < 2 ^ 16 → hex_int (hex_lower 4 v) ≡ pos v
unfolding digits
hex_int-hex_lower v h =
    let a = v / 16 / 16 / 16 % 16 in
    let b = v / 16 / 16 % 16 in
    let c = v / 16 % 16 in
    let e = v % 16 in
    let read = strtoul-hex (lower_char a) (lower_char b ∷ lower_char c ∷ lower_char e ∷ []) (
      lower_char-IsHex a (omega arith),
      (
        lower_char-IsHex b (omega arith),
        (lower_char-IsHex c (omega arith), (lower_char-IsHex e (omega arith), tt)),
      ),
    ) in
    ground (
      arith,
      read,
      hex_value-lower_char a (omega arith),
      hex_value-lower_char b (omega arith),
      hex_value-lower_char c (omega arith),
      hex_value-lower_char e (omega arith),
    )

atoi-decimal_fixed : (n : ℕ) → n < 256 → atoi (decimal_fixed 3 n) ≡ pos n
unfolding strtol_10 signed_decimal decimal_digits skip_space
atoi-decimal_fixed n h = ground arith

-- For a device with 16-bit ids that are not 0 and an 8-bit bus number and address, the four numbers of
-- its line, given to a tool as `--vid`, `--pid`, `--bus` and `--addr`, make it try the ids of that device
-- alone, and the device matches them.
pub reopening :
    (d : UsbDevice) (v p : ℕ)
    → d.ids ≡ some (v, p)
    → v ≢ 0
    → p ≢ 0
    → v < 2 ^ 16
    → p < 2 ^ 16
    → d.bus < 256
    → d.address < 256
    → (tried (hex_int (hex_lower 4 v)) (hex_int (hex_lower 4 p)) ≡ (v, p) ∷ [])
      × (is_match v p (atoi (decimal_fixed 3 d.bus)) (atoi (decimal_fixed 3 d.address)) d ≡ true)
unfolding is_match
reopening d v p e nv np hv hp hb ha = (
  ap₂ tried (hex_int-hex_lower v hv) (hex_int-hex_lower p hp) ∙ ground arith,
  ap₂ (λ b a. is_match v p b a d) (atoi-decimal_fixed d.bus hb) (atoi-decimal_fixed d.address ha)
      ∙ ground arith,
)
