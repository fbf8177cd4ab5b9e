-- ===== src/Examples/Timing.antt =====
-- Runs of the bit-timing calculator.
use gs_usb_user.Base.{ℕ, ◌-◌, ◌^◌, ◌≡◌, refl, none, some, arith}
use gs_usb_user.Device.{BittimingConst}
use gs_usb_user.Timing.{Answer, Candidate, effective_sample_point, calc_bittiming}
use gs_usb_user.Timing.Search.{IsBounded}
use gs_usb_user.Timing.Result.{Answered, calc_bittiming_correct}
use gs_usb_user.Timing.Optimal.{IsOrder, closer, earlier, Preferred, calc_bittiming-Preferred}
use gs_usb_user.Timing.Hang.{calc_bittiming_hangs}
use gs_usb_user.Wire.{Breq}
use gs_usb_user.Control.{set_bitrate}
use gs_usb_user.Control.Bitrate.{Sent, set_bitrate-Sent}
use gs_usb_user.Examples.{slow, bus, counting, thousandths}

slow-IsBounded : IsBounded 16 2 slow
slow-IsBounded = record {
  clock_in = omega arith;
  bitrate_in = omega arith;
  tseg1_in = omega arith;
  tseg2_in = omega arith;
  no_wrap = omega arith;
}

calc_bittiming_correct_example :
    (answer : Answer) × (calc_bittiming thousandths 3 16 2 0 slow ≡ some answer)
    × Answered 16 2 slow answer
calc_bittiming_correct_example =
    calc_bittiming_correct thousandths 3 16 2 0 slow (omega arith) (omega arith) (omega arith)
      (omega arith) slow-IsBounded (omega arith)

abbrev widest : BittimingConst
widest = record slow { brp_max = 2 ^ 32 - 1 }

calc_bittiming_hangs_example : calc_bittiming thousandths 5 16 2 0 widest ≡ none
calc_bittiming_hangs_example =
    calc_bittiming_hangs thousandths 16 2 0 widest (omega arith) (omega arith) (omega arith)
      (omega arith) refl 5

set_bitrate-Sent_example :
    Sent counting Breq.bittiming bus slow 2 0 (set_bitrate counting thousandths 3 bus 2 0 0)
set_bitrate-Sent_example =
    set_bitrate-Sent counting thousandths 3 bus 2 0 0 (omega arith) (omega arith) (omega arith)
      (omega arith) slow-IsBounded (omega arith)

-- The two comparisons of thousandths are those of numbers.
closer-IsOrder : (P : Candidate ℕ → Type 0) → IsOrder P (closer thousandths)
closer-IsOrder P = record {
  asym = λ a b p q e. ground arith;
  cotrans = λ a b c p q r e f. ground arith;
}

earlier-IsOrder : (P : Candidate ℕ → Type 0) → IsOrder P (earlier thousandths)
earlier-IsOrder P = record {
  asym = λ a b p q e. ground arith;
  cotrans = λ a b c p q r e f. ground arith;
}

calc_bittiming-Preferred_example :
    (answer : Answer) × (calc_bittiming thousandths 3 16 2 0 slow ≡ some answer)
    × Preferred thousandths 16 2 (effective_sample_point thousandths 2 0) slow answer
calc_bittiming-Preferred_example =
    calc_bittiming-Preferred thousandths 3 16 2 0 slow (omega arith) (omega arith) (omega arith)
      (omega arith) slow-IsBounded (omega arith) (closer-IsOrder _) (earlier-IsOrder _)
