-- ===== src/Timing/Result.antt =====
-- The answer of `gsusb_calc_bittiming`, for every `double`.
use gs_usb_user.Base.{ℕ, ◌+◌, ◌-◌, ◌≤◌, ◌<◌, ◌≡◌, ◌≢◌, refl, ◌⊎◌, inl, inr, some, arith, max}
use gs_usb_user.Device.{BittimingConst}
use gs_usb_user.Status.{Status}
use gs_usb_user.Timing.{
  Double, Registers, Answer, failed, solved, Best, sjw_of, finish, start_best,
  effective_sample_point, calc_bittiming,
}
use gs_usb_user.Timing.Solution.{IsSetting}
use gs_usb_user.Timing.Search.{IsBounded, allowed, HasNone, Final, search-Final}

-- The registers are a timing setting of an allowed prescaler, with a jump width in range.
pub record IsSolution (clock_hz bitrate : ℕ) (btc : BittimingConst) (r : Registers) : Type 0 where
  pub setting : IsSetting clock_hz bitrate btc r.brp r.phase_seg1 r.phase_seg2
  pub combined : r.prop_seg ≡ 0
  pub step : (k : ℕ) × (r.brp ≡ allowed btc k)
  pub brp_in : r.brp ≤ btc.brp_max
  pub sjw_positive : 1 ≤ r.sjw
  pub sjw_in : r.sjw ≤ max 1 btc.sjw_max
  pub sjw_fits : r.sjw ≤ max 1 r.phase_seg2

-- The two good answers.
abbrev pub Answered : ℕ → ℕ → BittimingConst → Answer → Type 0
Answered clock_hz bitrate btc answer =
    ((r : Registers) × (answer ≡ solved r) × IsSolution clock_hz bitrate btc r)
    ⊎ ((answer ≡ failed Status.no_bittiming_solution)
        × ((k : ℕ) → allowed btc k ≤ btc.brp_max → HasNone clock_hz bitrate btc (allowed btc k)))

finish-Answered :
    {F : Type 0} (clock_hz bitrate : ℕ) (btc : BittimingConst) (best : Best F)
    → Final clock_hz bitrate btc best
    → Answered clock_hz bitrate btc (finish btc best)
unfolding finish
finish-Answered clock_hz bitrate btc best (inl (h, at, le, s)) = inl (
  record {
    prop_seg = 0;
    phase_seg1 = best.best_tseg1;
    phase_seg2 = best.best_tseg2;
    sjw = sjw_of btc best.best_tseg2;
    brp = best.best_brp;
  },
  rw h refl,
  record {
    setting = s;
    combined = refl;
    step = at;
    brp_in = le;
    sjw_positive = unfold sjw_of in ground arith;
    sjw_in = unfold sjw_of in ground arith;
    sjw_fits = unfold sjw_of in ground arith;
  },
)
finish-Answered clock_hz bitrate btc best (inr (h, misfit)) = inr (rw h refl, misfit)

-- For valid 32-bit arguments with `brp_max + brp_inc` below 2^32, and more fuel than the prescalers
-- from `brp_min` to `brp_max`, `calc_bittiming` returns: registers that are a timing setting of an
-- allowed prescaler, with a jump width of at least 1 that exceeds neither `sjw_max` nor `phase_seg2`
-- unless those are 0, or the error "no solution" when no allowed prescaler has a timing setting.
pub calc_bittiming_correct :
    {F : Type 0} (d : Double F) (fuel clock_hz bitrate : ℕ) (sample_point : F)
    (btc : BittimingConst)
    → clock_hz ≢ 0
    → bitrate ≢ 0
    → btc.brp_min ≢ 0
    → btc.brp_min ≤ btc.brp_max
    → IsBounded clock_hz bitrate btc
    → btc.brp_max + 1 - btc.brp_min < fuel
    → (answer : Answer) × (calc_bittiming d fuel clock_hz bitrate sample_point btc ≡ some answer)
      × Answered clock_hz bitrate btc answer
unfolding calc_bittiming
calc_bittiming_correct d fuel clock_hz bitrate sample_point btc hc hb hmin hmax bounds enough =
    let (best, e, final) =
      search-Final d clock_hz bitrate (effective_sample_point d bitrate sample_point) btc bounds
        fuel 0 btc.brp_min (start_best d) (omega arith) enough
        (inr (refl, λ k lt. absurd (omega arith))) in
    (finish btc best, ground (arith, e), finish-Answered clock_hz bitrate btc best final)
