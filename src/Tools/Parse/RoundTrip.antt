-- ===== src/Tools/Parse/RoundTrip.antt =====
-- `parse_frame` reads every text of the documented syntax as the frame that it stands for.
use gs_usb_user.Base.{
  zero, ltb, ℕ, suc, ◌+◌, ◌*◌, ◌^◌, ◌<◌, ◌≤◌, ◌≡◌, Bool, some, List, arith, bit_or, if◌then◌else◌,
}
use gs_usb_user.Base.Bits.{bit_or_fields}
use gs_usb_user.Frame.{Frame, zero_frame, eff_flag}
use gs_usb_user.Tools.Parse.{parse_hex_u32, parse_id}
use gs_usb_user.Tools.Parse.Message.{Message, hex_fixed}
use gs_usb_user.Tools.Parse.Hex.{length-hex_fixed, parse_hex_u32-hex_fixed}

abbrev start_of : ℕ → Frame
start_of id = record zero_frame { can_id = id }

-- Four digits or more stand for an extended id.
pub parse_id-hex_fixed :
    (upper : Bool) (width id : ℕ)
    → 1 ≤ width
    → width ≤ 8
    → id < 16 ^ width
    → id < (if ltb 3 width then 2 ^ 29 else 2 ^ 11)
    → parse_id (hex_fixed upper width id) ≡ some ((if ltb 3 width then 2 ^ 31 else 0) + id)
unfolding parse_id
parse_id-hex_fixed upper zero id one most fits h = absurd (omega arith)
parse_id-hex_fixed upper (suc w) id one most fits h =
    let small : id < 2 ^ 29 = ground (arith, h) in
    let read : parse_hex_u32 (hex_fixed upper (suc w) id) ≡ some id =
      parse_hex_u32-hex_fixed upper w id fits (omega arith) in
    let flag : bit_or id eff_flag ≡ id + 1 * 2 ^ 31 = bit_or_fields 31 id 1 (omega arith) in
    ground (arith, read, flag, length-hex_fixed upper (suc w) id, h)
