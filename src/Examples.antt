-- ===== src/Examples.antt =====
-- Concrete data for the tests: a queue of three frames, a device of one channel, a world that counts
-- the calls, and a `double` of thousandths.
pub mod Queue
pub mod Packets
pub mod Lifecycle
pub mod Timing
pub mod Opening
pub mod Tools
pub mod Commands
pub mod Lua
use gs_usb_user.Base.{
  ℕ, zero, suc, ◌+◌, ◌-◌, ◌*◌, ◌/◌, ◌^◌, ◌<◌, ◌≤◌, ◌≡◌, refl, Bool, true, false, Option, some, List,
  [], ◌∷◌, arith, ltb, leb, length, replicate, get_elem?, get_or,
}
use gs_usb_user.Base.Int.{ℤ, pos, negsuc}
use gs_usb_user.Frame.{Frame, zero_frame}
use gs_usb_user.Rxq.{Rxq}
use gs_usb_user.Rxq.Invariant.{IsValid as IsQueue}
use gs_usb_user.Device.{BittimingConst, DeviceConfig, Channel, Dev}
use gs_usb_user.Device.Invariant.{IsValid}
use gs_usb_user.Status.{LibusbCode}
use gs_usb_user.Timing.{Double}
use gs_usb_user.Usb.{Usb, moved}

abbrev pub two_bytes : Frame
two_bytes = record {
  can_id = 0x123;
  len = 2;
  flags = 0;
  payload = 17 ∷ 34 ∷ replicate 62 0;
  timestamp_us = 0;
}

abbrev pub three_slots : Rxq
three_slots = record { buf = replicate 3 zero_frame; cap = 3; head = 0; len = 0; drops = 0 }

pub three_slots-IsQueue : IsQueue three_slots
three_slots-IsQueue = record {
  storage = omega arith;
  small = omega arith;
  head_in = omega arith;
  len_in = omega arith;
  drops_in = omega arith;
}

-- a queue that holds one frame, in the last slot
abbrev pub one_held : Rxq
one_held = record {
  buf = zero_frame ∷ zero_frame ∷ two_bytes ∷ [];
  cap = 3;
  head = 2;
  len = 1;
  drops = 0;
}

pub one_held-IsQueue : IsQueue one_held
one_held-IsQueue = record {
  storage = omega arith;
  small = omega arith;
  head_in = omega arith;
  len_in = omega arith;
  drops_in = omega arith;
}

-- a clock of 16 Hz, prescalers 1 and 2
abbrev pub slow : BittimingConst
slow = record {
  feature = 256;
  fclk_can = 16;
  tseg1_min = 1;
  tseg1_max = 4;
  tseg2_min = 1;
  tseg2_max = 3;
  sjw_max = 2;
  brp_min = 1;
  brp_max = 2;
  brp_inc = 1;
}

abbrev pub bus : Channel
bus = record {
  index = 0;
  bt_const = slow;
  has_data_bt_const = false;
  data_bt_const = slow;
  feature = 256;
  started = false;
  hw_ts_enabled = false;
  queue = three_slots;
}

abbrev pub live_bus : Channel
live_bus = record bus { started = true }

abbrev pub device_of : Channel → Dev
device_of ch = record {
  interface_number = 0;
  ep_in = 0x81;
  ep_out = 2;
  devconf = record { sw_version = 2; hw_version = 1; channel_count = 1 };
  channel_count = 1;
  channels = ch ∷ [];
  hf_size_rx = 76;
  active_channels = 0;
  reader_running = false;
  stop_flag = false;
}

-- nothing started
abbrev pub at_rest : Dev
at_rest = device_of bus

-- its one channel started
abbrev pub in_use : Dev
in_use = record (device_of live_bus) { active_channels = 1; reader_running = true }

only : (ch c : Channel) (k : ℕ) → get_elem? (ch ∷ []) k ≡ some c → (k ≡ 0) × (c ≡ ch)
only ch c zero e = (refl, ground arith)
only ch c (suc k) e = ground arith

pub device_of-IsValid : (ch : Channel) → ch.index ≡ 0 → IsQueue ch.queue → IsValid (device_of ch)
device_of-IsValid ch i q = record {
  counted = refl;
  bounded = omega arith;
  indexed = λ k c e. let (z, same) = only ch c k e in ground arith;
  queued = λ k c e. let (z, same) = only ch c k e in rw same q;
}

pub at_rest-IsValid : IsValid at_rest
at_rest-IsValid = device_of-IsValid bus refl three_slots-IsQueue

-- Every call succeeds; the world is the number of calls so far.
abbrev pub counting : Usb ℕ
counting = record {
  control_out = λ s bytes w. (moved (length bytes), w + 1);
  control_in = λ s n w. (moved n, replicate n 0, w + 1);
  bulk_out = λ ep bytes t w. (LibusbCode.success, length bytes, w + 1);
  create_reader = λ w. (true, w + 1);
  join_reader = λ w. w + 1;
}

abbrev magnitude : ℤ → ℕ
magnitude (pos n) = n
magnitude (negsuc n) = 0

-- numbers from 0 on, in thousandths
abbrev pub thousandths : Double ℕ
thousandths = record {
  of_int = λ i. magnitude i * 1000;
  literal = λ m e. m * 1000 / 10 ^ e;
  huge = 10 ^ 30;
  add = λ a b. a + b;
  sub = λ a b. a - b;
  mul = λ a b. a * b / 1000;
  div = λ a b. a * 1000 / b;
  fabs = λ a. a;
  lround = λ a. pos ((a + 500) / 1000);
  less = ltb;
  less_or_equal = leb;
}
