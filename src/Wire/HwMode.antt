-- ===== src/Wire/HwMode.antt =====
-- driver/src/gsusb_proto.h: GS_CAN_MODE_*, the mode bits that the device is started with.
use gs_usb_user.Base.{ℕ}

abbrev pub listen_only : ℕ
listen_only = 1

abbrev pub loop_back : ℕ
loop_back = 2

abbrev pub triple_sample : ℕ
triple_sample = 4

abbrev pub one_shot : ℕ
one_shot = 8

abbrev pub hw_timestamp : ℕ
hw_timestamp = 16

abbrev pub fd : ℕ
fd = 256

abbrev pub berr_reporting : ℕ
berr_reporting = 4096
