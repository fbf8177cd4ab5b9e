-- ===== src/Timing/Optimal.antt =====
-- Which of several settings the search takes.
use native.Mathlib.Nat.{mul-le-mul_right}
use gs_usb_user.Base.{
  ℕ, suc, ◌+◌, ◌-◌, ◌<◌, ◌≤◌, ◌≡◌, ◌≢◌, refl, sym, subst, ap, ◌∙◌, Bool, true, false, Option, none,
  some, arith, inl, inr, Bool-cases, Option-cases, ℕ_discrete,
}
use gs_usb_user.Device.{BittimingConst}
use gs_usb_user.Status.{Status}
use gs_usb_user.Timing.{
  Double, Registers, Answer, failed, solved, Candidate, Best, increment, evaluate, is_better,
  consider, visit, start_best, effective_sample_point, finish, calc_bittiming,
}
use gs_usb_user.Timing.Search.{IsBounded, allowed, search-ends, allowed-lt}

-- A relation that orders the members of `P`, those that it does not tell apart being equal to it.
pub record IsOrder {A : Type 0} (P : A → Type 0) (R : A → A → Bool) : Type 0 where
  pub asym : (a b : A) → P a → P b → R a b ≡ true → R b a ≡ false
  pub cotrans : (a b c : A) → P a → P b → P c → R a b ≡ false → R b c ≡ false → R a c ≡ false

module _ {F : Type 0} (d : Double F) where
  -- the best that a candidate becomes
  abbrev pub best_of : ℕ → Candidate F → Best F
  best_of brp c = record {
    have_best = true;
    best_bitrate_err = c.bitrate_err;
    best_sp_err = c.sp_err;
    best_tseg1 = c.tseg1;
    best_tseg2 = c.tseg2;
    best_brp = brp;
  }

  -- the two comparisons, of the bitrate with its tolerance and of the sample point
  abbrev pub closer : Candidate F → Candidate F → Bool
  closer a b = d.less (d.add a.bitrate_err (d.literal 1 12)) b.bitrate_err

  abbrev pub earlier : Candidate F → Candidate F → Bool
  earlier a b = d.less a.sp_err b.sp_err

  -- What is no better than a candidate is no better than one that beats it.
  beaten :
      {P : Candidate F → Type 0} (m n : ℕ) (c c' ck : Candidate F)
      → IsOrder P closer
      → IsOrder P earlier
      → P c
      → P c'
      → P ck
      → is_better d (best_of m c) ck ≡ false
      → is_better d (best_of m c) c' ≡ true
      → is_better d (best_of n c') ck ≡ false
  unfolding is_better
  beaten m n c c' ck o1 o2 p p' pk worse better = ground (
    arith,
    o1.asym c' c p' p,
    o1.cotrans ck c c' pk p p',
    o1.cotrans c' ck c p' pk p,
    o1.cotrans c c' ck p p' pk,
    o2.asym c' c p' p,
    o2.cotrans ck c c' pk p p',
  )

  not_better_itself :
      {P : Candidate F → Type 0} (n : ℕ) (c : Candidate F)
      → IsOrder P closer
      → IsOrder P earlier
      → P c
      → is_better d (best_of n c) c ≡ false
  unfolding is_better
  not_better_itself n c o1 o2 p = ground (arith, o1.asym c c p p, o2.asym c c p p)

  better_first :
      (best : Best F) (c : Candidate F) → best.have_best ≡ false → is_better d best c ≡ true
  unfolding is_better
  better_first best c e = rw e refl

  none_is_some : {c : Candidate F} → none ≡ some c → ⊥
  none_is_some e = cc

  module _ (clock_hz bitrate : ℕ) (sample_point : F) (btc : BittimingConst) where
    -- the setting of the `k`-th prescaler that the device allows, if it has one
    abbrev pub setting : ℕ → Option (Candidate F)
    setting k = evaluate d clock_hz bitrate sample_point btc (allowed btc k)

    abbrev pub IsOption : Candidate F → Type 0
    IsOption c = (k : ℕ) × (allowed btc k ≤ btc.brp_max) × (setting k ≡ some c)

    -- Nothing was found before turn `j`, or a setting that none before it beats.
    data Chosen (j : ℕ) : Best F → Type 0 where
      nothing :
          (best : Best F)
          → best.have_best ≡ false
          → ((k : ℕ) → k < j → setting k ≡ none)
          → Chosen j best
      chosen :
          (i : ℕ) (c : Candidate F)
          → allowed btc i ≤ btc.brp_max
          → setting i ≡ some c
          → ((k : ℕ) (c' : Candidate F)
              → k < j
              → setting k ≡ some c'
              → is_better d (best_of (allowed btc i) c) c' ≡ false)
          → Chosen j (best_of (allowed btc i) c)

    allowed-le : (k j : ℕ) → k ≤ j → allowed btc k ≤ allowed btc j
    allowed-le k j le = omega (arith, mul-le-mul_right {m = k} {n = j} (increment btc) le)

    module _ (o1 : IsOrder IsOption closer) (o2 : IsOrder IsOption earlier) where
      -- A setting that is taken at turn `j`.
      taken :
          (j : ℕ) (c : Candidate F)
          → allowed btc j ≤ btc.brp_max
          → setting j ≡ some c
          → ((k : ℕ) (c' : Candidate F)
              → k < j
              → setting k ≡ some c'
              → is_better d (best_of (allowed btc j) c) c' ≡ false)
          → Chosen (suc j) (best_of (allowed btc j) c)
      taken j c le e before = chosen j c le e λ k c' lt e'. elim (ℕ_discrete k j) [
        | no other ↦ before k c' (omega arith) e'
        | yes same ↦
            let e2 : setting j ≡ some c' = ap setting (sym same) ∙ e' in
            let is : c ≡ c' = cc in
            subst (λ x. is_better d (best_of (allowed btc j) c) x ≡ false) is
              (not_better_itself (allowed btc j) c o1 o2 (j, le, e))
      ]

      consider-Chosen :
          (j : ℕ) (best : Best F) (c : Candidate F)
          → allowed btc j ≤ btc.brp_max
          → setting j ≡ some c
          → Chosen j best
          → Chosen (suc j) (consider d (allowed btc j) best c)
      unfolding consider
      consider-Chosen j best c le e (nothing b none_yet before) =
          let first : is_better d best c ≡ true = better_first best c none_yet in
          rw first (taken j c le e λ k c' lt e'. absurd (none_is_some (sym (before k lt) ∙ e')))
      consider-Chosen j best c le e (chosen i ci lei ei before) =
          let old = best_of (allowed btc i) ci in
          elim (Bool-cases (is_better d old c)) [
            | inl better ↦ rw better (
                taken j c le e λ k c' lt e'.
                  beaten (allowed btc i) (allowed btc j) ci c c' o1 o2 (i, lei, ei) (j, le, e)
                    (k, omega (arith, allowed-le k j (omega arith)), e') (before k c' lt e') better)
            | inr worse ↦ rw worse (
                chosen i ci lei ei λ k c' lt e'. elim (ℕ_discrete k j) [
                  | no other ↦ before k c' (omega arith) e'
                  | yes same ↦
                      let e2 : setting j ≡ some c' = ap setting (sym same) ∙ e' in
                      let is : c ≡ c' = cc in subst (λ x. is_better d old x ≡ false) is worse
                ])
          ]

      later : (j : ℕ) (best : Best F) → setting j ≡ none → Chosen j best → Chosen (suc j) best
      later j best e (nothing b none_yet before) = nothing best none_yet λ k lt.
          elim (ℕ_discrete k j) [
            | yes same ↦ ap setting same ∙ e
            | no other ↦ before k (omega arith)
          ]
      later j best e (chosen i ci lei ei before) = chosen i ci lei ei λ k c' lt e'.
          elim (ℕ_discrete k j) [
            | yes same ↦ absurd (none_is_some (sym e ∙ (ap setting (sym same) ∙ e')))
            | no other ↦ before k c' (omega arith) e'
          ]

      visit-Chosen :
          (j brp : ℕ) (best : Best F)
          → brp ≡ allowed btc j
          → brp ≤ btc.brp_max
          → Chosen j best
          → Chosen (suc j) (visit d clock_hz bitrate sample_point btc brp best)
      unfolding visit
      visit-Chosen j brp best at le p = elim (Option-cases (setting j)) [
        | inr (c, e) ↦
            subst (λ t. Chosen (suc j) (visit d clock_hz bitrate sample_point btc t best)) (sym at)
              (rw (e, visit) (consider-Chosen j best c (omega arith) e p))
        | inl e ↦
            subst (λ t. Chosen (suc j) (visit d clock_hz bitrate sample_point btc t best)) (sym at)
              (rw (e, visit) (later j best e p))
      ]

  -- The answer of the calculator: no solution if no allowed prescaler has a setting, else the registers of
  -- a setting that the comparison puts behind no other.
  pub data Preferred (clock_hz bitrate : ℕ) (sample_point : F) (btc : BittimingConst)
      : Answer → Type 0 where
    no_setting :
        ((k : ℕ) → allowed btc k ≤ btc.brp_max → setting clock_hz bitrate sample_point btc k ≡ none)
        → Preferred clock_hz bitrate sample_point btc (failed Status.no_bittiming_solution)
    setting_of :
        (i : ℕ) (c : Candidate F) (r : Registers)
        → allowed btc i ≤ btc.brp_max
        → setting clock_hz bitrate sample_point btc i ≡ some c
        → (r.brp ≡ allowed btc i) × (r.phase_seg1 ≡ c.tseg1) × (r.phase_seg2 ≡ c.tseg2)
        → ((k : ℕ) (c' : Candidate F)
            → allowed btc k ≤ btc.brp_max
            → setting clock_hz bitrate sample_point btc k ≡ some c'
            → is_better d (best_of (allowed btc i) c) c' ≡ false)
        → Preferred clock_hz bitrate sample_point btc (solved r)

  module _ (clock_hz bitrate : ℕ) (sample_point : F) (btc : BittimingConst) where
    finish-Preferred :
        (n : ℕ) (best : Best F)
        → IsBounded clock_hz bitrate btc
        → btc.brp_max < allowed btc n
        → Chosen clock_hz bitrate sample_point btc n best
        → Preferred clock_hz bitrate sample_point btc (finish btc best)
    unfolding finish
    finish-Preferred n best bounds past (nothing b none_yet before) = rw none_yet (
        no_setting λ k le.
          before k (allowed-lt d clock_hz bitrate sample_point btc bounds k n (omega arith)))
    finish-Preferred n best bounds past (chosen i c le e before) =
        setting_of i c _ le e (refl, refl, refl)
          (λ k c' le' e'.
            before k c' (allowed-lt d clock_hz bitrate sample_point btc bounds k n (omega arith))
              e')

  -- Where the two comparisons of the search, that of the bitrate errors with its tolerance of 1e-12 and
  -- that of the sample point errors, order the settings of the allowed prescalers, the calculator ends
  -- with the answer that no allowed prescaler has a setting, or with the registers of a setting to which
  -- the comparison prefers that of no allowed prescaler; the settings are those for the sample point
  -- asked for, or for the default of the bitrate if that is not between 0 and 1. This is for 32-bit
  -- arguments that are not refused, and for enough fuel.
  pub calc_bittiming-Preferred :
      (fuel clock_hz bitrate : ℕ) (sample_point : F) (btc : BittimingConst)
      → clock_hz ≢ 0
      → bitrate ≢ 0
      → btc.brp_min ≢ 0
      → btc.brp_min ≤ btc.brp_max
      → IsBounded clock_hz bitrate btc
      → btc.brp_max + 1 - btc.brp_min < fuel
      → IsOrder
          (IsOption clock_hz bitrate (effective_sample_point d bitrate sample_point) btc)
          closer
      → IsOrder
          (IsOption clock_hz bitrate (effective_sample_point d bitrate sample_point) btc)
          earlier
      → (answer : Answer) × (calc_bittiming d fuel clock_hz bitrate sample_point btc ≡ some answer)
        × Preferred clock_hz bitrate (effective_sample_point d bitrate sample_point) btc answer
  unfolding calc_bittiming
  calc_bittiming-Preferred fuel clock_hz bitrate sample_point btc hc hb hmin hmax bounds enough o1
        o2 =
      let at = effective_sample_point d bitrate sample_point in
      let (best, n, e, p, past) =
        search-ends d clock_hz bitrate at btc bounds (Chosen clock_hz bitrate at btc)
          (visit-Chosen clock_hz bitrate at btc o1 o2) fuel 0 btc.brp_min (start_best d)
          (omega arith) enough (nothing (start_best d) refl (λ k lt. absurd (omega arith))) in
      (
        finish btc best,
        ground (arith, e),
        finish-Preferred clock_hz bitrate at btc n best bounds past p,
      )
