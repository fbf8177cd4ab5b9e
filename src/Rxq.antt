-- ===== src/Rxq.antt =====
-- driver/src/gsusb.c: the bounded RX queue of a channel, a ring that drops its oldest frame when it
-- is full. Each function runs under `q_lock`, so it is one step; signalling `q_cond` is in `Recv`.
-- `unsigned int` is 32 bits wide, `unsigned long` 64.
pub mod Invariant
pub mod Refine
use gs_usb_user.Base.{
  ℕ, ◌+◌, ◌-◌, ◌%◌, Bool, Option, none, some, List, ◌==◌, u32, u64, length, get_elem?, set,
  replicate, if◌then◌else◌,
}
use gs_usb_user.Frame.{Frame, zero_frame}

-- the fields `q_buf`, `q_cap`, `q_head`, `q_len` and `q_drops` of `struct gsusb_channel`
pub record Rxq : Type 0 where
  pub buf : List Frame
  pub cap : ℕ
  pub head : ℕ
  pub len : ℕ
  pub drops : ℕ

abbrev pub rxq_capacity : ℕ
rxq_capacity = 512

-- `none` is the -1 that a failed `calloc` gives.
unfoldable pub init : Bool → Option Rxq
init allocated =
    if allocated
    then some (record {
      buf = replicate rxq_capacity zero_frame;
      cap = rxq_capacity;
      head = 0;
      len = 0;
      drops = 0;
    })
    else none

-- the branch of `rxq_push` that makes room; `q_len--` runs only on a full queue
unfoldable pub make_room : Rxq → Rxq
make_room q =
    if q.len == q.cap
    then record q { head = u32 (q.head + 1) % q.cap; len = q.len - 1; drops = u64 (q.drops + 1) }
    else q

-- the index that a push writes
abbrev pub tail : Rxq → ℕ
tail q = u32 (q.head + q.len) % q.cap

unfoldable pub push : Rxq → Frame → Rxq
push q f = let r = make_room q in record r { buf = set r.buf (tail r) f; len = u32 (r.len + 1) }

-- the end of `gsusb_channel_recv`, reached with a nonempty queue; `none` is a read out of bounds
unfoldable pub pop : Rxq → Option (Frame × Rxq)
pop q = elim (get_elem? q.buf q.head) [
  | none ↦ none
  | some f ↦ some (f, record q { head = u32 (q.head + 1) % q.cap; len = q.len - 1 })
]
