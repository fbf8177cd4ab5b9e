-- ===== src/Rxq/Invariant.antt =====
-- The representation invariant of the RX queue: no sum wraps and no index is out of bounds.
use gs_usb_user.Base.{
  ◌+◌, ◌-◌, ◌%◌, ◌^◌, ◌≤◌, ◌<◌, ◌≡◌, true, some, arith, u32, u64, length, length-set,
  length-replicate, get_elem?-eq-get_or, get_or,
}
use gs_usb_user.Frame.{Frame, zero_frame}
use gs_usb_user.Rxq.{Rxq, rxq_capacity, init, make_room, tail, push, pop}

pub record IsValid (q : Rxq) : Type 0 where
  pub storage : q.cap ≤ length q.buf
  pub small : q.cap ≤ 2 ^ 31
  pub head_in : q.head < q.cap
  pub len_in : q.len ≤ q.cap
  pub drops_in : q.drops < 2 ^ 64

pub make_room-IsValid :
    {q : Rxq}
    → IsValid q
    → IsValid (make_room q) × ((make_room q).len < q.cap) × ((make_room q).cap ≡ q.cap)
unfolding make_room
make_room-IsValid v = ground arith

-- The index that `rxq_push` writes lies in the storage, on a full queue too.
pub tail_in_bounds : {q : Rxq} → IsValid q → tail (make_room q) < length (make_room q).buf
tail_in_bounds {q} v = ground (arith, make_room-IsValid v)

pub push-IsValid : (f : Frame) {q : Rxq} → IsValid q → IsValid (push q f)
unfolding push
push-IsValid f {q} v =
    let r = make_room q in ground (arith, make_room-IsValid v, length-set r.buf (tail r) f)

-- A push keeps the capacity, adds one frame unless it also loses one, and counts the loss.
pub push_counts :
    (f : Frame) {q : Rxq}
    → IsValid q
    → ((push q f).cap ≡ q.cap)
      × ((push q f).len ≡ q.len + 1 - (q.len + 1 - q.cap))
      × ((push q f).drops ≡ u64 (q.drops + (q.len + 1 - q.cap)))
unfolding push make_room
push_counts f {q} v = ground arith

-- The queue after a pop.
abbrev pub popped : Rxq → Rxq
popped q = record q { head = u32 (q.head + 1) % q.cap; len = q.len - 1 }

pub pop-eq : {q : Rxq} → IsValid q → pop q ≡ some (get_or q.buf q.head zero_frame, popped q)
unfolding pop
pop-eq {q} v = ground (arith, get_elem?-eq-get_or q.buf q.head zero_frame)

pub popped-IsValid : {q : Rxq} → IsValid q → IsValid (popped q)
popped-IsValid v = omega arith

-- What `rxq_init` gives is valid and empty; it fails exactly when the allocation does.
pub init-IsValid : (q : Rxq) → init true ≡ some q → IsValid q × (q.len ≡ 0)
unfolding init
init-IsValid q e = ground (arith, length-replicate rxq_capacity zero_frame)
