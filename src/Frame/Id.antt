-- ===== src/Frame/Id.antt =====
-- driver/include/gsusb.h: the bits of a CAN id, and what its flags and masks read of it.
use gs_usb_user.Base.{
  ℕ, ◌+◌, ◌*◌, ◌^◌, ◌<◌, ◌≡◌, refl, ap, ◌∙◌, Bool, true, false, arith, bit_and, has, or_if,
  if◌then◌else◌,
}
use gs_usb_user.Base.Bits.{bit_and_fields, bit_and-ones, bit_and-zero, bit_or_fields, bit_or_high}
use gs_usb_user.Frame.{eff_flag, rtr_flag, err_flag, eff_mask, sff_mask}

-- GSUSB_EFF_MASK or GSUSB_SFF_MASK
abbrev pub mask_of : Bool → ℕ
mask_of true = eff_mask
mask_of false = sff_mask

-- what a CAN id says
pub record CanId : Type 0 where
  pub number : ℕ
  pub is_extended : Bool
  pub is_remote : Bool
  pub is_error : Bool

abbrev pub digit : Bool → ℕ
digit true = 1
digit false = 0

-- bits 29, 30 and 31
abbrev pub flag_digits : CanId → ℕ
flag_digits a = digit a.is_error + (digit a.is_remote * 2 + digit a.is_extended * 4)

-- the CAN id of the driver
abbrev pub packed : CanId → ℕ
packed a = a.number + flag_digits a * 2 ^ 29

-- 29 bits for an extended id, 11 bits for the others
abbrev pub IsCanId : CanId → Type 0
IsCanId a = a.number < (if a.is_extended then 2 ^ 29 else 2 ^ 11)

pub bits_below : (a : CanId) → IsCanId a → a.number < 2 ^ 29
bits_below a h = ground arith

has_high : (n d b : ℕ) → n < 2 ^ 29 → has (n + d * 2 ^ 29) (b * 2 ^ 29) ≡ has d b
has_high n d b h = ground (arith, bit_and_fields 29 n 0 d b h (omega arith), bit_and-zero n)

has-flag_digits :
    (n : ℕ) (x r e : Bool)
    → let d = flag_digits (record { number = n; is_extended = x; is_remote = r; is_error = e }) in
      (has d 4 ≡ x) × (has d 2 ≡ r) × (has d 1 ≡ e)
has-flag_digits n true true true = (refl, refl, refl)
has-flag_digits n true true false = (refl, refl, refl)
has-flag_digits n true false true = (refl, refl, refl)
has-flag_digits n true false false = (refl, refl, refl)
has-flag_digits n false true true = (refl, refl, refl)
has-flag_digits n false true false = (refl, refl, refl)
has-flag_digits n false false true = (refl, refl, refl)
has-flag_digits n false false false = (refl, refl, refl)

-- A test of one of the three flags reads it.
pub has-packed :
    (a : CanId)
    → IsCanId a
    → (has (packed a) eff_flag ≡ a.is_extended)
      × (has (packed a) rtr_flag ≡ a.is_remote)
      × (has (packed a) err_flag ≡ a.is_error)
has-packed a h =
    let (x, r, e) = has-flag_digits a.number a.is_extended a.is_remote a.is_error in
    let high = λ (b : ℕ). has_high a.number (flag_digits a) b (bits_below a h) in
    (high 4 ∙ x, high 2 ∙ r, high 1 ∙ e)

-- The mask leaves the number.
pub masked :
    (x : Bool) (n d : ℕ)
    → n < (if x then 2 ^ 29 else 2 ^ 11)
    → bit_and (n + d * 2 ^ 29) (mask_of x) ≡ n
masked true n d h =
    ground
      (arith, bit_and_fields 29 n eff_mask d 0 h (omega arith), bit_and-ones 29 n h, bit_and-zero d)
masked false n d h =
    let high = bit_and_fields 11 n sff_mask (d * 2 ^ 18) 0 h (omega arith) in
    ground (arith, high, bit_and-ones 11 n h, bit_and-zero (d * 2 ^ 18))

pub masked_alone :
    (x : Bool) (n : ℕ) → n < (if x then 2 ^ 29 else 2 ^ 11) → bit_and n (mask_of x) ≡ n
masked_alone x n h =
    let plus : n ≡ n + 0 * 2 ^ 29 = omega arith in
    ap (λ (t : ℕ). bit_and t (mask_of x)) plus ∙ masked x n 0 h

-- the same id without its error flag
abbrev pub no_error : CanId → CanId
no_error a = record a { is_error = false }

pub rebuilt :
    (n : ℕ) (x r : Bool)
    → n < 2 ^ 29
    → or_if r rtr_flag (or_if x eff_flag n)
      ≡ packed (record { number = n; is_extended = x; is_remote = r; is_error = false })
rebuilt n true true h = ground (arith, bit_or_fields 29 n 4 h, bit_or_high 29 n 4 2 h)
rebuilt n true false h = ground (arith, bit_or_fields 29 n 4 h)
rebuilt n false true h = ground (arith, bit_or_fields 29 n 2 h)
rebuilt n false false h = ground arith
