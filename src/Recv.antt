-- ===== src/Recv.antt =====
-- driver/src/gsusb.c: `gsusb_channel_recv`. While it waits on `q_cond`, `q_lock` is free and other
-- threads change the channel: a wait is the channel that `recv` finds when it holds the lock again,
-- and whether `pthread_cond_timedwait` said ETIMEDOUT.
pub mod Outcome
use gs_usb_user.Base.{
  ℕ, ◌+◌, ◌-◌, ◌*◌, ◌/◌, ◌%◌, Bool, true, false, Option, none, some, List, [], ◌∷◌, leb, ◌==◌, not,
  if◌then◌else◌,
}
use gs_usb_user.Frame.{Frame}
use gs_usb_user.Rxq.{Rxq, pop}
use gs_usb_user.Device.{Channel}

-- `struct timespec`
pub record Timespec : Type 0 where
  pub tv_sec : ℕ
  pub tv_nsec : ℕ

-- `deadline`, from the time of the call; it is not used if `timeout_ms` is 0
unfoldable pub deadline : Timespec → ℕ → Timespec
deadline now timeout_ms =
    let sec = now.tv_sec + timeout_ms / 1000 in
    let nsec = now.tv_nsec + timeout_ms % 1000 * 1_000_000 in
    if leb 1_000_000_000 nsec
    then record { tv_sec = sec + 1; tv_nsec = nsec - 1_000_000_000 }
    else record { tv_sec = sec; tv_nsec = nsec }

pub record Wait : Type 0 where
  pub timed_out : Bool
  pub found : Channel

-- what `recv` comes to: 1 with a frame, 0, GSUSB_ERR_INVALID, a wait that has not ended, or a read
-- outside the queue
pub data Recv : Type 0 where
  received : Frame → Channel → Recv
  nothing : Channel → Recv
  not_started : Channel → Recv
  waiting fault : Recv

-- the statements after the loop
unfoldable pub take_frame : Channel → Recv
take_frame ch = elim (pop ch.queue) [
  | none ↦ fault
  | some (f, q) ↦ received f (record ch { queue = q })
]

-- `while (ch->q_len == 0)`, and what follows it
unfoldable pub recv : ℕ → List Wait → Channel → Recv
recv timeout_ms [] ch =
    if ch.queue.len == 0
    then if not ch.started then not_started ch else if timeout_ms == 0 then nothing ch else waiting
    else take_frame ch
recv timeout_ms (wait ∷ waits) ch =
    let again = recv timeout_ms waits wait.found in
    if ch.queue.len == 0
    then if not ch.started
      then not_started ch
      else if timeout_ms == 0
      then nothing ch
      else if wait.timed_out
      then nothing wait.found
      else again
    else take_frame ch
