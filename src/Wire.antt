-- ===== src/Wire.antt =====
-- driver/src/gsusb_proto.h: request codes, flag bits, sizes, and the little-endian helpers.
-- A buffer is a list of bytes; reading or writing outside it is `none`.
pub mod HwMode
pub mod Feature
pub mod WireFlag
pub mod RoundTrip
pub mod HostFrame
use gs_usb_user.Base.{
  ℕ, ◌+◌, ◌*◌, ◌/◌, ◌^◌, bit_or, Bool, Option, some, List, u8, u32, get_elem?, store, ◌>>=◌,
  if◌then◌else◌,
}

-- `enum gs_usb_breq`, the codes that the driver sends
pub data Breq : Type 0 where
  host_format bittiming mode berr bt_const device_config timestamp identify get_user_id : Breq
  set_user_id data_bittiming bt_const_ext set_termination get_termination get_state : Breq

abbrev pub breq_code : Breq → ℕ
breq_code Breq.host_format = 0
breq_code Breq.bittiming = 1
breq_code Breq.mode = 2
breq_code Breq.berr = 3
breq_code Breq.bt_const = 4
breq_code Breq.device_config = 5
breq_code Breq.timestamp = 6
breq_code Breq.identify = 7
breq_code Breq.get_user_id = 8
breq_code Breq.set_user_id = 9
breq_code Breq.data_bittiming = 10
breq_code Breq.bt_const_ext = 11
breq_code Breq.set_termination = 12
breq_code Breq.get_termination = 13
breq_code Breq.get_state = 14

abbrev pub mode_reset : ℕ
mode_reset = 0

abbrev pub mode_start : ℕ
mode_start = 1

abbrev pub identify_off : ℕ
identify_off = 0

abbrev pub identify_on : ℕ
identify_on = 1

abbrev pub termination_state_off : ℕ
termination_state_off = 0

abbrev pub termination_state_on : ℕ
termination_state_on = 1

abbrev pub echo_id_rx : ℕ
echo_id_rx = 0xffff_ffff

abbrev pub host_config_size : ℕ
host_config_size = 4

abbrev pub device_config_size : ℕ
device_config_size = 12

abbrev pub device_mode_size : ℕ
device_mode_size = 8

abbrev pub device_state_size : ℕ
device_state_size = 12

abbrev pub device_bittiming_size : ℕ
device_bittiming_size = 20

abbrev pub identify_mode_size : ℕ
identify_mode_size = 4

abbrev pub termination_state_size : ℕ
termination_state_size = 4

abbrev pub device_bt_const_size : ℕ
device_bt_const_size = 40

abbrev pub device_bt_const_ext_size : ℕ
device_bt_const_ext_size = 72

abbrev pub host_frame_hdr_size : ℕ
host_frame_hdr_size = 12

abbrev pub host_frame_ts_size : ℕ
host_frame_ts_size = 4

abbrev pub classic_dlen : ℕ
classic_dlen = 8

abbrev pub fd_dlen : ℕ
fd_dlen = 64

unfoldable pub frame_size : ℕ → Bool → ℕ
frame_size data_len with_ts =
    host_frame_hdr_size + data_len + (if with_ts then host_frame_ts_size else 0)

-- `gs_put_le32(p + at, v)`
unfoldable pub put_le32 : List ℕ → ℕ → ℕ → Option (List ℕ)
put_le32 p at v = do
  p ← store p at (u8 v)
  p ← store p (at + 1) (u8 (v / 2 ^ 8))
  p ← store p (at + 2) (u8 (v / 2 ^ 16))
  store p (at + 3) (u8 (v / 2 ^ 24))

-- `gs_get_le32(p + at)`
unfoldable pub get_le32 : List ℕ → ℕ → Option ℕ
get_le32 p at = do
  b0 ← get_elem? p at
  b1 ← get_elem? p (at + 1)
  b2 ← get_elem? p (at + 2)
  b3 ← get_elem? p (at + 3)
  some (bit_or (bit_or (bit_or b0 (u32 (b1 * 2 ^ 8))) (u32 (b2 * 2 ^ 16))) (u32 (b3 * 2 ^ 24)))
