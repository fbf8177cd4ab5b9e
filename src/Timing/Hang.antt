-- ===== src/Timing/Hang.antt =====
-- `brp` is a `uint32_t`: under the test `brp <= btc->brp_max` it must be able to pass `brp_max`.
use gs_usb_user.Base.{ℕ, zero, suc, ◌+◌, ◌-◌, ◌^◌, ◌<◌, ◌≡◌, ◌≢◌, refl, none, arith, u32}
use gs_usb_user.Device.{BittimingConst}
use gs_usb_user.Timing.{
  Double, Best, increment, visit, search, start_best, effective_sample_point, calc_bittiming,
}

search_hangs :
    {F : Type 0} (d : Double F) (fuel clock_hz bitrate : ℕ) (sample_point : F)
    (btc : BittimingConst) (brp_inc brp : ℕ) (best : Best F)
    → btc.brp_max ≡ 2 ^ 32 - 1
    → brp < 2 ^ 32
    → search d fuel clock_hz bitrate sample_point btc brp_inc brp best ≡ none
unfolding search
search_hangs d zero clock_hz bitrate sample_point btc brp_inc brp best top small = refl
search_hangs d (suc fuel) clock_hz bitrate sample_point btc brp_inc brp best top small = ground (
  arith,
  search_hangs d fuel clock_hz bitrate sample_point btc brp_inc (u32 (brp + brp_inc))
      (visit d clock_hz bitrate sample_point btc brp best) top (omega arith),
)

-- With `brp_max` the largest 32-bit number, a 32-bit `brp_min` and arguments that pass the guards,
-- no fuel is enough: `calc_bittiming` does not return.
pub calc_bittiming_hangs :
    {F : Type 0} (d : Double F) (clock_hz bitrate : ℕ) (sample_point : F) (btc : BittimingConst)
    → clock_hz ≢ 0
    → bitrate ≢ 0
    → btc.brp_min ≢ 0
    → btc.brp_min < 2 ^ 32
    → btc.brp_max ≡ 2 ^ 32 - 1
    → (fuel : ℕ) → calc_bittiming d fuel clock_hz bitrate sample_point btc ≡ none
unfolding calc_bittiming
calc_bittiming_hangs d clock_hz bitrate sample_point btc hc hb hmin small top fuel = ground (
  arith,
  search_hangs d fuel clock_hz bitrate (effective_sample_point d bitrate sample_point) btc
      (increment btc) btc.brp_min (start_best d) top small,
)
