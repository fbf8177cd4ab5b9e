-- ===== src/Timing/Halts.antt =====
-- `gsusb_calc_bittiming` returns on any arguments, if `brp += brp_inc` does not wrap under the limits.
use gs_usb_user.Base.{
  ℕ, zero, suc, ◌+◌, ◌-◌, ◌^◌, ◌≤◌, ◌<◌, ◌≡◌, refl, some, arith, ◌==◌, ◌||◌, leb, ltb, u32,
  Bool-cases, inl, inr, if◌then◌else◌,
}
use gs_usb_user.Device.{BittimingConst}
use gs_usb_user.Status.{Status}
use gs_usb_user.Timing.{
  Double, Best, Answer, failed, increment, finish, visit, search, start_best,
  effective_sample_point, calc_bittiming,
}

-- A largest prescaler leaves room for one more step, and the fuel is more than it.
pub record HasRoom (fuel brp_max brp_inc : ℕ) : Type 0 where
  pub no_wrap : brp_max + (if brp_inc == 0 then 1 else brp_inc) < 2 ^ 32
  pub enough : brp_max < fuel

module _ {F : Type 0} (d : Double F) where
  search_total :
      (fuel clock_hz bitrate : ℕ) (sample_point : F) (btc : BittimingConst) (inc brp : ℕ)
      (best : Best F)
      → btc.brp_max + inc < 2 ^ 32
      → 1 ≤ inc
      → btc.brp_max + 1 - brp < fuel
      → (b : Best F) × (search d fuel clock_hz bitrate sample_point btc inc brp best ≡ some b)
  unfolding search
  search_total zero clock_hz bitrate sample_point btc inc brp best room pos enough =
      absurd (omega arith)
  search_total (suc fuel) clock_hz bitrate sample_point btc inc brp best room pos enough =
      elim (Bool-cases (leb brp btc.brp_max)) [
        | inr e ↦ (best, rw e refl)
        | inl e ↦
            let (b, f) =
              search_total fuel clock_hz bitrate sample_point btc inc (u32 (brp + inc))
                (visit d clock_hz bitrate sample_point btc brp best) room pos (ground arith) in
            (b, rw e f)
      ]

  pub calc_bittiming_total :
      (fuel clock_hz bitrate : ℕ) (sample_point : F) (btc : BittimingConst)
      → HasRoom fuel btc.brp_max btc.brp_inc
      → (a : Answer) × (calc_bittiming d fuel clock_hz bitrate sample_point btc ≡ some a)
  unfolding calc_bittiming
  calc_bittiming_total fuel clock_hz bitrate sample_point btc r =
      elim (Bool-cases (clock_hz == 0 || bitrate == 0)) [
        | inl e ↦ (failed Status.invalid, rw e refl)
        | inr e ↦ elim (Bool-cases (btc.brp_min == 0 || ltb btc.brp_max btc.brp_min)) [
          | inl f ↦ (failed Status.invalid, rw (e, f) refl)
          | inr f ↦
              let (best, s) =
                search_total fuel clock_hz bitrate (effective_sample_point d bitrate sample_point)
                  btc (increment btc) btc.brp_min (start_best d) r.no_wrap (ground arith)
                  (ground (arith, r.enough)) in
              (finish btc best, rw (e, f, s) refl)
        ]
      ]
