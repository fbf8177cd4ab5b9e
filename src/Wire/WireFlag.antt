-- ===== src/Wire/WireFlag.antt =====
-- driver/src/gsusb_proto.h: GS_CAN_FLAG_*, the flags of a frame on the wire.
use gs_usb_user.Base.{ℕ}

abbrev pub fd : ℕ
fd = 2

abbrev pub brs : ℕ
brs = 4

abbrev pub esi : ℕ
esi = 8
