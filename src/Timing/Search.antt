-- ===== src/Timing/Search.antt =====
-- The loop over the prescalers ends, and holds a timing setting exactly when one of the prescalers
-- that the device allows has one. This holds for every `double`.
use native.Mathlib.Nat.{mul-le-mul_right}
use gs_usb_user.Base.{
  ℕ, zero, suc, ◌+◌, ◌-◌, ◌*◌, ◌^◌, ◌≤◌, ◌<◌, ◌≡◌, refl, sym, ◌∙◌, ◌⊎◌, inl, inr, true, false, some,
  arith, u32, Bool-cases, dec_lt, ℕ_discrete,
}
use gs_usb_user.Device.{BittimingConst}
use gs_usb_user.Timing.{Double, Candidate, Best, increment, is_better, consider, visit, search}
use gs_usb_user.Timing.Solution.{IsSetting, evaluate_cases}

-- The arguments are 32-bit numbers, and `brp += brp_inc` does not wrap before the loop ends.
pub record IsBounded (clock_hz bitrate : ℕ) (btc : BittimingConst) : Type 0 where
  pub clock_in : clock_hz < 2 ^ 32
  pub bitrate_in : bitrate < 2 ^ 32
  pub tseg1_in : btc.tseg1_max < 2 ^ 32
  pub tseg2_in : btc.tseg2_max < 2 ^ 32
  pub no_wrap : btc.brp_max + increment btc < 2 ^ 32

-- The `k`-th prescaler that the device allows.
abbrev pub allowed : BittimingConst → ℕ → ℕ
allowed btc k = btc.brp_min + k * increment btc

-- A prescaler has no timing setting.
abbrev pub HasNone : ℕ → ℕ → BittimingConst → ℕ → Type 0
HasNone clock_hz bitrate btc brp = (a b : ℕ) → ¬ IsSetting clock_hz bitrate btc brp a b

module _ {F : Type 0} (clock_hz bitrate : ℕ) (btc : BittimingConst) where
  -- The best so far is a setting of an allowed prescaler.
  abbrev pub Hit : Best F → Type 0
  Hit best =
      (best.have_best ≡ true)
      × ((k : ℕ) × (best.best_brp ≡ allowed btc k))
      × (best.best_brp ≤ btc.brp_max)
      × IsSetting clock_hz bitrate btc best.best_brp best.best_tseg1 best.best_tseg2

  abbrev pub Progress : ℕ → Best F → Type 0
  Progress j best =
      Hit best
      ⊎ ((best.have_best ≡ false)
          × ((k : ℕ) → k < j → HasNone clock_hz bitrate btc (allowed btc k)))

  abbrev pub Final : Best F → Type 0
  Final best =
      Hit best
      ⊎ ((best.have_best ≡ false)
          × ((k : ℕ) → allowed btc k ≤ btc.brp_max → HasNone clock_hz bitrate btc (allowed btc k)))

better-first :
    {F : Type 0} (d : Double F) (best : Best F) (c : Candidate F)
    → is_better d best c ≡ false
    → best.have_best ≡ true
unfolding is_better
better-first d best c e = elim (Bool-cases best.have_best) [ inl h ↦ h | inr h ↦ ground arith ]

-- `consider` takes the candidate, or keeps a best that is there.
abbrev Considered : {F : Type 0} → ℕ → Best F → Candidate F → Best F → Type 0
Considered brp best c after =
    ((after.have_best ≡ true)
      × (after.best_brp ≡ brp)
      × (after.best_tseg1 ≡ c.tseg1)
      × (after.best_tseg2 ≡ c.tseg2))
    ⊎ ((after ≡ best) × (best.have_best ≡ true))

consider_cases :
    {F : Type 0} (d : Double F) (brp : ℕ) (best : Best F) (c : Candidate F)
    → Considered brp best c (consider d brp best c)
unfolding consider
consider_cases d brp best c = elim (Bool-cases (is_better d best c)) [
  | inl h ↦ inl (rw h (refl, refl, refl, refl))
  | inr h ↦ inr (rw h refl, better-first d best c h)
]

module _ {F : Type 0} (d : Double F) (clock_hz bitrate : ℕ) (sample_point : F)
    (btc : BittimingConst) (bounds : IsBounded clock_hz bitrate btc) where
  consider-Hit :
      (j brp : ℕ) (best : Best F) (c : Candidate F)
      → brp ≡ allowed btc j
      → brp ≤ btc.brp_max
      → IsSetting clock_hz bitrate btc brp c.tseg1 c.tseg2
      → Progress clock_hz bitrate btc j best
      → Hit clock_hz bitrate btc (consider d brp best c)
  consider-Hit j brp best c at le s p = elim (consider_cases d brp best c) [
    | inl (h, e, e1, e2) ↦ (h, (j, e ∙ at), rw e le, rw (e, e1, e2) s)
    | inr (e, h) ↦ rw e (elim p [ inl q ↦ q | inr (no_best, _) ↦ absurd (ground arith) ])
  ]

  visit-Progress :
      (j : ℕ) (brp : ℕ) (best : Best F)
      → brp ≡ allowed btc j
      → brp ≤ btc.brp_max
      → Progress clock_hz bitrate btc j best
      → Progress clock_hz bitrate btc (suc j) (visit d clock_hz bitrate sample_point btc brp best)
  unfolding visit
  visit-Progress j brp best at le p =
      let small : brp < 2 ^ 32 = omega (arith, bounds.no_wrap) in
      elim (evaluate_cases d clock_hz bitrate sample_point btc brp bounds.clock_in bounds.bitrate_in
        small bounds.tseg1_in bounds.tseg2_in) [
          | inl (c, e, s) ↦ rw (e, visit) (inl (consider-Hit j brp best c at le s p))
          | inr (e, misfit) ↦
              rw (e, visit)
                (elim p [
                  | inl h ↦ inl h
                  | inr (no_best, before) ↦ inr (
                    no_best,
                    λ k lt. elim (ℕ_discrete k j) [
                      | yes same ↦ rw (same, sym at) misfit
                      | no other ↦ before k (omega arith)
                    ],
                  )
                ])
        ]

  -- The loop returns once the fuel exceeds the prescalers that are left, with what each turn keeps.
  pub search-ends :
      (I : ℕ → Best F → Type 0)
      → ((j brp : ℕ) (best : Best F)
          → brp ≡ allowed btc j
          → brp ≤ btc.brp_max
          → I j best
          → I (suc j) (visit d clock_hz bitrate sample_point btc brp best))
      → (fuel j brp : ℕ) (best : Best F) → brp ≡ allowed btc j
      → btc.brp_max + 1 - brp < fuel
      → I j best
      → (b : Best F) × (n : ℕ) × (search d fuel clock_hz bitrate sample_point btc
            (increment btc)
            brp
            best
          ≡ some b)
        × I n b
        × (btc.brp_max < allowed btc n)
  unfolding search
  search-ends I turn zero j brp best at enough p = elim enough [ ]
  search-ends I turn (suc fuel) j brp best at enough p = elim (dec_lt btc.brp_max brp) [
    | yes past ↦ (best, j, ground arith, p, omega arith)
    | no here ↦
        let step : u32 (brp + increment btc) ≡ brp + increment btc =
          omega (arith, bounds.no_wrap) in
        let pos_inc : 0 < increment btc = ground arith in
        let (b, n, e, q, past) =
          search-ends I turn fuel (suc j) (u32 (brp + increment btc))
            (visit d clock_hz bitrate sample_point btc brp best) (omega arith) (omega arith)
            (turn j brp best at (omega arith) p) in
        (b, n, ground (arith, e), q, past)
  ]

  pub allowed-lt : (k m : ℕ) → allowed btc k < allowed btc m → k < m
  allowed-lt k m lt = elim (dec_lt k m) [
    | yes h ↦ h
    | no h ↦ omega (arith, mul-le-mul_right {m = m} {n = k} (increment btc) (omega arith))
  ]

  -- Then it holds a setting, or no allowed prescaler has one.
  pub search-Final :
      (fuel j brp : ℕ) (best : Best F)
      → brp ≡ allowed btc j
      → btc.brp_max + 1 - brp < fuel
      → Progress clock_hz bitrate btc j best
      → (b : Best F) × (search d fuel clock_hz bitrate sample_point btc (increment btc) brp best
          ≡ some b)
        × Final clock_hz bitrate btc b
  search-Final fuel j brp best at enough p =
      let (b, n, e, q, past) =
        search-ends (Progress clock_hz bitrate btc) visit-Progress fuel j brp best at enough p in
      (
        b,
        e,
        elim q [
          | inl h ↦ inl h
          | inr (no_best, before) ↦ inr (no_best, λ k le. before k (allowed-lt k n (omega arith)))
        ],
      )
