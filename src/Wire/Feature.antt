-- ===== src/Wire/Feature.antt =====
-- driver/src/gsusb_proto.h: GS_CAN_FEATURE_*, with the numbers of GSUSB_FEATURE_* in
-- driver/include/gsusb.h.
use gs_usb_user.Base.{ℕ}

abbrev pub listen_only : ℕ
listen_only = 1

abbrev pub loop_back : ℕ
loop_back = 2

abbrev pub triple_sample : ℕ
triple_sample = 4

abbrev pub one_shot : ℕ
one_shot = 8

abbrev pub hw_timestamp : ℕ
hw_timestamp = 16

abbrev pub identify : ℕ
identify = 32

abbrev pub user_id : ℕ
user_id = 64

abbrev pub pad_pkts_to_max : ℕ
pad_pkts_to_max = 128

abbrev pub fd : ℕ
fd = 256

abbrev pub req_usb_quirk_lpc546xx : ℕ
req_usb_quirk_lpc546xx = 512

abbrev pub bt_const_ext : ℕ
bt_const_ext = 1024

abbrev pub termination : ℕ
termination = 2048

abbrev pub berr_reporting : ℕ
berr_reporting = 4096

abbrev pub get_state : ℕ
get_state = 8192

abbrev pub mask : ℕ
mask = 0x3fff
