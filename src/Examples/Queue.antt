-- ===== src/Examples/Queue.antt =====
-- Runs of the RX queue and of `gsusb_channel_recv`.
use gs_usb_user.Base.{◌+◌, ◌-◌, ◌*◌, ◌<◌, ◌≡◌, false, List, [], ◌∷◌, ◌++◌, arith, length, u64}
use gs_usb_user.Frame.{Frame, zero_frame}
use gs_usb_user.Rxq.Invariant.{IsValid}
use gs_usb_user.Rxq.Refine.{contents, newest, push_all, push_all_lem}
use gs_usb_user.Recv.{Timespec, deadline, Wait, recv}
use gs_usb_user.Recv.Outcome.{deadline_exact, AllValid, Outcome, recv-Outcome}
use gs_usb_user.Examples.{
  two_bytes, three_slots, three_slots-IsQueue, one_held, one_held-IsQueue, live_bus,
}

abbrev four : List Frame
four = two_bytes ∷ zero_frame ∷ zero_frame ∷ two_bytes ∷ []

push_all_lem_example :
    IsValid (push_all three_slots four)
    × (contents (push_all three_slots four) ≡ newest 3 (contents three_slots ++ four))
    × ((push_all three_slots four).drops ≡ u64 (0 + (0 + length four - 3)))
push_all_lem_example = push_all_lem four three_slots-IsQueue

abbrev half_past : Timespec
half_past = record { tv_sec = 7; tv_nsec = 500_000_000 }

deadline_exact_example :
    ((deadline half_past 1700).tv_nsec < 1_000_000_000)
    × ((deadline half_past 1700).tv_sec * 1_000_000_000 + (deadline half_past 1700).tv_nsec
        ≡ 7 * 1_000_000_000 + 500_000_000 + 1700 * 1_000_000)
deadline_exact_example = deadline_exact half_past 1700 (omega arith)

-- one wait, which ends with a frame in the queue
abbrev woken : List Wait
woken = record { timed_out = false; found = record live_bus { queue = one_held } } ∷ []

recv-Outcome_example : Outcome 100 woken live_bus (recv 100 woken live_bus)
recv-Outcome_example =
    recv-Outcome 100 woken live_bus three_slots-IsQueue
      (AllValid.next one_held-IsQueue AllValid.end)
