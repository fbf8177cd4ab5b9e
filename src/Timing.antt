-- ===== src/Timing.antt =====
-- driver/src/bittiming.c: the search for bit-timing registers. `double` is a parameter: a type with the
-- operations that the code uses. `long` is unbounded; every `long` of the code is a difference of two
-- 32-bit numbers, or what `lround` gives, less one. The six pointers are not NULL.
-- The loop over `brp` runs on fuel, since `uint32_t brp` may wrap; `none` is a loop that still runs.
pub mod Split
pub mod Solution
pub mod Search
pub mod Result
pub mod Hang
pub mod Halts
pub mod Optimal
use gs_usb_user.Base.{
  ℕ, zero, suc, ◌+◌, ◌-◌, ◌*◌, ◌/◌, ◌%◌, ◌^◌, Bool, true, false, ◌||◌, Option, none, some, ltb, leb,
  ◌==◌, u32, u64, ◌>>=◌, if◌then◌else◌,
}
use gs_usb_user.Base.Int.{ℤ, pos, negsuc, ltb_ℤ, ◌-ℤ◌}
use gs_usb_user.Device.{BittimingConst}
use gs_usb_user.Status.{Status}

-- C's `double`, as far as this file uses it.
pub record Double (F : Type 0) : Type 0 where
  -- `(double)i`
  pub of_int : ℤ → F
  -- the literal `mantissa * 10 ^ -exponent`
  pub literal : ℕ → ℕ → F
  -- 1e300
  pub huge : F
  pub add : F → F → F
  pub sub : F → F → F
  pub mul : F → F → F
  pub div : F → F → F
  pub fabs : F → F
  pub lround : F → ℤ
  pub less : F → F → Bool
  pub less_or_equal : F → F → Bool

pub record Registers : Type 0 where
  pub prop_seg : ℕ
  pub phase_seg1 : ℕ
  pub phase_seg2 : ℕ
  pub sjw : ℕ
  pub brp : ℕ

-- what `gsusb_calc_bittiming` returns, with what it writes through its pointers
pub data Answer : Type 0 where
  failed : Status → Answer
  solved : Registers → Answer

-- the variables of the search
pub record Best (F : Type 0) : Type 0 where
  pub have_best : Bool
  pub best_bitrate_err : F
  pub best_sp_err : F
  pub best_tseg1 : ℕ
  pub best_tseg2 : ℕ
  pub best_brp : ℕ

-- one setting that fits the limits, with its two errors
pub record Candidate (F : Type 0) : Type 0 where
  pub bitrate_err : F
  pub sp_err : F
  pub tseg1 : ℕ
  pub tseg2 : ℕ

-- `(uint32_t)` of a `long`
abbrev pub to_u32 : ℤ → ℕ
to_u32 (pos n) = u32 n
to_u32 (negsuc n) = 2 ^ 32 - 1 - u32 n

-- time quanta in a bit, rounded to nearest
unfoldable pub quanta : ℕ → ℕ → ℕ
quanta clock_hz denom = u64 (clock_hz + denom / 2) / denom

unfoldable pub clamp_tseg1 : BittimingConst → ℤ → ℤ
clamp_tseg1 btc tseg1 =
    let raised = if ltb_ℤ tseg1 (pos btc.tseg1_min) then pos btc.tseg1_min else tseg1 in
    if ltb_ℤ (pos btc.tseg1_max) raised then pos btc.tseg1_max else raised

-- `tseg2` from what is left, and both corrected to the range of `tseg2`
unfoldable pub balance : BittimingConst → ℕ → ℤ → ℤ × ℤ
balance btc tseg_total tseg1 =
    let tseg2 = pos tseg_total -ℤ tseg1 in
    if ltb_ℤ tseg2 (pos btc.tseg2_min)
    then (pos tseg_total -ℤ pos btc.tseg2_min, pos btc.tseg2_min)
    else if ltb_ℤ (pos btc.tseg2_max) tseg2
    then (pos tseg_total -ℤ pos btc.tseg2_max, pos btc.tseg2_max)
    else (tseg1, tseg2)

abbrev pub outside : ℤ → ℕ → ℕ → Bool
outside t lo hi = ltb_ℤ t (pos lo) || ltb_ℤ (pos hi) t

-- the two segments for a wanted `tseg1`; `none` is a `continue`
unfoldable pub split : BittimingConst → ℕ → ℤ → Option (ℤ × ℤ)
split btc tseg_total wanted =
    let (tseg1, tseg2) = balance btc tseg_total (clamp_tseg1 btc wanted) in
    if outside tseg1 btc.tseg1_min btc.tseg1_max
    then none
    else if outside tseg2 btc.tseg2_min btc.tseg2_max
    then none
    else some (tseg1, tseg2)

-- `btc->brp_inc ? btc->brp_inc : 1`
abbrev pub increment : BittimingConst → ℕ
increment btc = if btc.brp_inc == 0 then 1 else btc.brp_inc

-- `sjw_val`
unfoldable pub sjw_of : BittimingConst → ℕ → ℕ
sjw_of btc tseg2 =
    let capped = if ltb btc.sjw_max tseg2 then btc.sjw_max else tseg2 in
    if capped == 0 then 1 else capped

unfoldable pub finish : {F : Type 0} → BittimingConst → Best F → Answer
finish btc best =
    if best.have_best
    then solved (record {
      prop_seg = 0;
      phase_seg1 = best.best_tseg1;
      phase_seg2 = best.best_tseg2;
      sjw = sjw_of btc best.best_tseg2;
      brp = best.best_brp;
    })
    else failed Status.no_bittiming_solution

module _ {F : Type 0} (d : Double F) where
  abbrev pub of_nat : ℕ → F
  of_nat n = d.of_int (pos n)

  unfoldable pub default_sample_point : ℕ → F
  default_sample_point bitrate =
      if ltb 800_000 bitrate
      then d.literal 75 2
      else if ltb 500_000 bitrate
      then d.literal 80 2
      else d.literal 875 3

  -- the errors of a setting that fits
  unfoldable pub candidate : ℕ → ℕ → F → ℕ → ℕ → ℤ × ℤ → Candidate F
  candidate clock_hz bitrate sample_point brp tq (tseg1, tseg2) =
      let actual_bitrate = d.div (of_nat clock_hz) (d.mul (of_nat brp) (of_nat tq)) in
      let achieved_sp = d.div (d.add (d.literal 1 0) (d.of_int tseg1)) (of_nat tq) in
      record {
        bitrate_err = d.div (d.fabs (d.sub actual_bitrate (of_nat bitrate))) (of_nat bitrate);
        sp_err = d.fabs (d.sub achieved_sp sample_point);
        tseg1 = to_u32 tseg1;
        tseg2 = to_u32 tseg2;
      }

  -- the body of the loop down to the errors; `none` is a `continue`
  unfoldable pub evaluate : ℕ → ℕ → F → BittimingConst → ℕ → Option (Candidate F)
  evaluate clock_hz bitrate sample_point btc brp =
      let denom = u64 (brp * bitrate) in
      let tq = quanta clock_hz denom in
      if brp == 0 || denom == 0
      then none
      else if ltb tq 3 || ltb 0xffff_ffff tq
      then none
      else if ltb (tq - 1) (u32 (btc.tseg1_min + btc.tseg2_min))
      then none
      else do
        segments ← split btc (tq - 1) (d.lround (d.mul sample_point (of_nat tq)) -ℤ pos 1)
        some (candidate clock_hz bitrate sample_point brp tq segments)

  unfoldable pub is_better : Best F → Candidate F → Bool
  is_better best c =
      if best.have_best
      then if d.less (d.add c.bitrate_err (d.literal 1 12)) best.best_bitrate_err
        then true
        else if d.less (d.add best.best_bitrate_err (d.literal 1 12)) c.bitrate_err
        then false
        else d.less c.sp_err best.best_sp_err
      else true

  unfoldable pub consider : ℕ → Best F → Candidate F → Best F
  consider brp best c =
      if is_better best c
      then record {
        have_best = true;
        best_bitrate_err = c.bitrate_err;
        best_sp_err = c.sp_err;
        best_tseg1 = c.tseg1;
        best_tseg2 = c.tseg2;
        best_brp = brp;
      }
      else best

  -- the loop body
  unfoldable pub visit : ℕ → ℕ → F → BittimingConst → ℕ → Best F → Best F
  visit clock_hz bitrate sample_point btc brp best =
      elim (evaluate clock_hz bitrate sample_point btc brp) [
        | none ↦ best
        | some c ↦ consider brp best c
      ]

  -- `for (brp = ...; brp <= btc->brp_max; brp += brp_inc)`
  unfoldable pub search : ℕ → ℕ → ℕ → F → BittimingConst → ℕ → ℕ → Best F → Option (Best F)
  search zero clock_hz bitrate sample_point btc brp_inc brp best = none
  search (suc fuel) clock_hz bitrate sample_point btc brp_inc brp best =
      let rest =
        search fuel clock_hz bitrate sample_point btc brp_inc (u32 (brp + brp_inc))
          (visit clock_hz bitrate sample_point btc brp best) in
      if leb brp btc.brp_max then rest else some best

  abbrev pub start_best : Best F
  start_best = record {
    have_best = false;
    best_bitrate_err = d.huge;
    best_sp_err = d.huge;
    best_tseg1 = 0;
    best_tseg2 = 0;
    best_brp = 0;
  }

  abbrev pub effective_sample_point : ℕ → F → F
  effective_sample_point bitrate sample_point =
      if d.less_or_equal sample_point (d.literal 0 0)
        || d.less_or_equal (d.literal 1 0) sample_point
      then default_sample_point bitrate
      else sample_point

  unfoldable pub calc_bittiming : ℕ → ℕ → ℕ → F → BittimingConst → Option Answer
  calc_bittiming fuel clock_hz bitrate sample_point btc =
      if clock_hz == 0 || bitrate == 0
      then some (failed Status.invalid)
      else if btc.brp_min == 0 || ltb btc.brp_max btc.brp_min
      then some (failed Status.invalid)
      else do
        best ←
            search fuel clock_hz bitrate (effective_sample_point bitrate sample_point) btc
              (increment btc) btc.brp_min start_best
        some (finish btc best)
