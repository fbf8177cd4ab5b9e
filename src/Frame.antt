-- ===== src/Frame.antt =====
-- driver/include/gsusb.h: `gsusb_frame`, its flags, and the flag bits of a CAN id.
pub mod Id
use gs_usb_user.Base.{ℕ, List, replicate}

pub record Frame : Type 0 where
  pub can_id : ℕ
  pub len : ℕ
  pub flags : ℕ
  -- the array `data`, all 64 bytes of it
  pub payload : List ℕ
  pub timestamp_us : ℕ

abbrev pub max_dlen : ℕ
max_dlen = 64

abbrev pub eff_flag : ℕ
eff_flag = 0x8000_0000

abbrev pub rtr_flag : ℕ
rtr_flag = 0x4000_0000

abbrev pub err_flag : ℕ
err_flag = 0x2000_0000

abbrev pub eff_mask : ℕ
eff_mask = 0x1fff_ffff

abbrev pub sff_mask : ℕ
sff_mask = 0x7ff

-- GSUSB_FRAME_*
abbrev pub frame_fd : ℕ
frame_fd = 1

abbrev pub frame_brs : ℕ
frame_brs = 2

abbrev pub frame_esi : ℕ
frame_esi = 4

-- `memset(&f, 0, sizeof(f))`
abbrev pub zero_frame : Frame
zero_frame = record {
  can_id = 0;
  len = 0;
  flags = 0;
  payload = replicate max_dlen 0;
  timestamp_us = 0;
}
