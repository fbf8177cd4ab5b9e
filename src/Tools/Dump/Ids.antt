-- ===== src/Tools/Dump/Ids.antt =====
-- The ids that gsusb_dump.c prints are those that gsusb_send.c reads.
use gs_usb_user.Base.{
  ◌<◌, ◌^◌, ℕ, ◌+◌, ◌^◌, ◌≡◌, ap, ◌∙◌, Bool, true, false, some, arith, bit_and, if◌then◌else◌,
}
use gs_usb_user.Frame.Id.{CanId, flag_digits, packed, IsCanId, has-packed, mask_of, masked}
use gs_usb_user.Tools.Parse.{parse_id}
use gs_usb_user.Tools.Parse.Message.{hex_fixed}
use gs_usb_user.Tools.Parse.RoundTrip.{parse_id-hex_fixed}
use gs_usb_user.Tools.Dump.{id_text}

id_text-packed :
    (a : CanId)
    → IsCanId a
    → id_text (packed a) ≡ hex_fixed true (if a.is_extended then 8 else 3) a.number
unfolding id_text
id_text-packed a h =
    let (x, _, _) = has-packed a h in
    let m = masked a.is_extended a.number (flag_digits a) h in
    ap (λ b. hex_fixed true (if b then 8 else 3) (bit_and (packed a) (mask_of b))) x
    ∙ ap (hex_fixed true (if a.is_extended then 8 else 3)) m

-- Three digits are read as an 11-bit id, eight as an extended one.
printed :
    (extended : Bool) (id : ℕ)
    → id < (if extended then 2 ^ 29 else 2 ^ 11)
    → parse_id (hex_fixed true (if extended then 8 else 3) id)
      ≡ some ((if extended then 2 ^ 31 else 0) + id)
printed true id h = parse_id-hex_fixed true 8 id (omega arith) (omega arith) (omega arith) h
printed false id h = parse_id-hex_fixed true 3 id (omega arith) (omega arith) (omega arith) h

-- without its remote and its error flag
abbrev pub plain_id : CanId → CanId
plain_id a = record a { is_remote = false; is_error = false }

-- For a CAN id that is extended and of 29 bits, or not extended and of 11 bits, the id that
-- `gsusb_dump` prints, written in a word for `gsusb_send`, stands for the same CAN id without its remote
-- and error flags: three digits for an 11-bit id are never taken for an extended one, and eight digits
-- always are.
pub parse_id-id_text :
    (a : CanId) → IsCanId a → parse_id (id_text (packed a)) ≡ some (packed (plain_id a))
parse_id-id_text a h =
    ap parse_id (id_text-packed a h)
    ∙ printed a.is_extended a.number h
    ∙ ap some (flags a.is_extended a.number)
  where
    flags :
        (x : Bool) (n : ℕ)
        → (if x then 2 ^ 31 else 0) + n
          ≡ packed (record { number = n; is_extended = x; is_remote = false; is_error = false })
    flags true n = omega arith
    flags false n = omega arith
