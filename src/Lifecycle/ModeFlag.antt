-- ===== src/Lifecycle/ModeFlag.antt =====
-- driver/include/gsusb.h: GSUSB_MODE_*, the mode flags of `gsusb_channel_start`.
use gs_usb_user.Base.{ℕ}

abbrev pub listen_only : ℕ
listen_only = 1

abbrev pub loopback : ℕ
loopback = 2

abbrev pub triple_sample : ℕ
triple_sample = 4

abbrev pub one_shot : ℕ
one_shot = 8

abbrev pub fd : ℕ
fd = 16

abbrev pub berr_reporting : ℕ
berr_reporting = 32
