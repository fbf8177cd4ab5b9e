-- ===== src/Tools/Parse/Message.antt =====
-- The frame syntax of the comment at the top of driver/tools/gsusb_send.c: what may be written, the
-- text of it and the frame that it stands for.
use gs_usb_user.Base.{
  ℕ, zero, suc, ◌+◌, ◌/◌, ◌%◌, ◌^◌, ◌-◌, ◌<◌, ◌≤◌, Bool, List, [], ◌∷◌, ◌++◌, ltb, length,
  replicate, if◌then◌else◌,
}
use gs_usb_user.Frame.{Frame}

pub data Body : Type 0 where
  remote : Body
  plain : List ℕ → Body
  -- with BRS and ESI
  flexible : Bool → Bool → List ℕ → Body

pub record Message : Type 0 where
  -- the number of digits of the id
  pub width : ℕ
  pub id : ℕ
  -- whether it is written with A to F or with a to f
  pub upper : Bool
  pub body : Body

abbrev pub hex_char : Bool → ℕ → ℕ
hex_char upper n = if ltb n 10 then 48 + n else if upper then 55 + n else 87 + n

-- `width` digits, the highest first
abbrev pub hex_fixed : Bool → ℕ → ℕ → List ℕ
hex_fixed upper zero v = []
hex_fixed upper (suc width) v = hex_fixed upper width (v / 16) ++ (hex_char upper (v % 16) ∷ [])

abbrev pub data_text : Bool → List ℕ → List ℕ
data_text upper [] = []
data_text upper (b ∷ bs) = hex_char upper (b / 16) ∷ hex_char upper (b % 16) ∷ data_text upper bs

abbrev pub flag_value : Bool → Bool → ℕ
flag_value brs esi = (if brs then 1 else 0) + (if esi then 2 else 0)

abbrev pub body_text : Bool → Body → List ℕ
body_text upper remote = b'R' ∷ []
body_text upper (plain bytes) = data_text upper bytes
body_text upper (flexible brs esi bytes) =
    b'#' ∷ hex_char upper (flag_value brs esi) ∷ data_text upper bytes

-- "with more than 3 hex digits"
abbrev pub is_extended : Message → Bool
is_extended m = ltb 3 m.width

abbrev pub message_text : Message → List ℕ
message_text m = hex_fixed m.upper m.width m.id ++ (b'#' ∷ body_text m.upper m.body)

-- the array of 64 bytes
abbrev pub array_of : List ℕ → List ℕ
array_of bytes = bytes ++ replicate (64 - length bytes) 0

-- bit 31 for an extended id
abbrev pub id_of : Message → ℕ
id_of m = (if is_extended m then 2 ^ 31 else 0) + m.id

abbrev pub body_frame : ℕ → Body → Frame
body_frame id remote = record {
  can_id = 2 ^ 30 + id;
  len = 0;
  flags = 0;
  payload = array_of [];
  timestamp_us = 0;
}
body_frame id (plain bytes) = record {
  can_id = id;
  len = length bytes;
  flags = 0;
  payload = array_of bytes;
  timestamp_us = 0;
}
body_frame id (flexible brs esi bytes) = record {
  can_id = id;
  len = length bytes;
  flags = 1 + (if brs then 2 else 0) + (if esi then 4 else 0);
  payload = array_of bytes;
  timestamp_us = 0;
}

abbrev pub message_frame : Message → Frame
message_frame m = body_frame (id_of m) m.body

abbrev pub AllBytes : List ℕ → Type 0
AllBytes [] = Unit
AllBytes (b ∷ bs) = (b < 256) × AllBytes bs

abbrev pub FitsBody : Body → Type 0
FitsBody remote = Unit
FitsBody (plain bytes) = (length bytes ≤ 8) × AllBytes bytes
FitsBody (flexible brs esi bytes) = (length bytes ≤ 64) × AllBytes bytes

-- What can be written: an id of one to eight digits, of 29 bits if it has more than three and else of
-- 11 bits, and as many bytes as a frame holds.
pub record IsWritable (m : Message) : Type 0 where
  pub some_digits : 1 ≤ m.width
  pub most_digits : m.width ≤ 8
  pub in_digits : m.id < 16 ^ m.width
  pub id_in : m.id < (if is_extended m then 2 ^ 29 else 2 ^ 11)
  pub body_in : FitsBody m.body
