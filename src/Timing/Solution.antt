-- ===== src/Timing/Solution.antt =====
-- What a timing setting is, written from the CAN bit time and not from the code, and that `evaluate`
-- finds one for a prescaler exactly when there is one.
use native.Mathlib.Nat.{div-eq_of_lt-le, div-mul-le_self, lt-div-mul-add, mul-le-mul_right}
use gs_usb_user.Base.{
  ℕ, ◌+◌, ◌-◌, ◌*◌, ◌/◌, ◌^◌, ◌≤◌, ◌<◌, ◌≡◌, ◌≢◌, ◌⊎◌, inl, inr, Option, none, some, arith, u32,
  u64, ap, ◌∙◌, dec_lt, ℕ_discrete, ◌>>=◌,
}
use gs_usb_user.Base.Int.{ℤ, pos, ◌-ℤ◌}
use gs_usb_user.Device.{BittimingConst}
use gs_usb_user.Timing.{Double, Candidate, quanta, split, candidate, of_nat, evaluate}
use gs_usb_user.Timing.Split.{Fits, split_cases}

-- With prescaler `brp`, segments of `tseg1` and `tseg2` quanta and one quantum of synchronisation
-- make up a bit whose number of quanta is nearest to `clock_hz / (brp * bitrate)`.
pub record IsSetting (clock_hz bitrate : ℕ) (btc : BittimingConst) (brp tseg1 tseg2 : ℕ)
    : Type 0 where
  pub fits : Fits btc (tseg1 + tseg2) tseg1 tseg2
  pub three : 3 ≤ tseg1 + tseg2 + 1
  pub not_above : 2 * ((tseg1 + tseg2 + 1) * (brp * bitrate)) ≤ 2 * clock_hz + brp * bitrate
  pub not_below :
      2 * clock_hz + brp * bitrate
      < 2 * ((tseg1 + tseg2 + 1) * (brp * bitrate)) + 2 * (brp * bitrate)

product-lt : (a b : ℕ) → a < 2 ^ 32 → b < 2 ^ 32 → a * b < 2 ^ 64
product-lt a b h k = grind arith

-- The rounded quotient is the only number of quanta that is nearest.
quanta-eq :
    (clock_hz d tq : ℕ)
    → clock_hz < 2 ^ 32
    → d < 2 ^ 64
    → 2 * (tq * d) ≤ 2 * clock_hz + d
    → 2 * clock_hz + d < 2 * (tq * d) + 2 * d
    → quanta clock_hz d ≡ tq
unfolding quanta
quanta-eq clock_hz d tq hc hd lo hi =
    let m : u64 (clock_hz + d / 2) ≡ clock_hz + d / 2 = omega arith in
    ap (λ (t : ℕ). t / d) m ∙ div-eq_of_lt-le d (omega arith) (omega arith)

quanta-nearest :
    (clock_hz d : ℕ)
    → clock_hz < 2 ^ 32
    → d < 2 ^ 64
    → 0 < d
    → (2 * (quanta clock_hz d * d) ≤ 2 * clock_hz + d)
      × (2 * clock_hz + d < 2 * (quanta clock_hz d * d) + 2 * d)
unfolding quanta
quanta-nearest clock_hz d hc hd pos_d =
    let m : u64 (clock_hz + d / 2) ≡ clock_hz + d / 2 = omega arith in
    let x = clock_hz + d / 2 in
    rw m (omega (arith, div-mul-le_self x d, lt-div-mul-add {a = x} {b = d} pos_d))

-- No quotient passes 32 bits, so the guard on `tq64` never fires.
quanta-le :
    (clock_hz d : ℕ) → clock_hz < 2 ^ 32 → d < 2 ^ 64 → 0 < d → quanta clock_hz d ≤ 0xffff_ffff
quanta-le clock_hz d hc hd pos_d = elim (dec_lt 0xffff_ffff (quanta clock_hz d)) [
  | no k ↦ omega arith
  | yes k ↦
      let near = quanta-nearest clock_hz d hc hd pos_d in
      absurd (far (quanta clock_hz d) d pos_d k (omega (arith, near)))
]
  where
    far : (q e : ℕ) → 0 < e → 0xffff_ffff < q → ¬ (2 * (q * e) + 2 ≤ 2 ^ 33 + e)
    far q e h k l = omega (arith, mul-le-mul_right {m = 2 ^ 32} {n = q} e k)

module _ {F : Type 0} (d : Double F) (clock_hz bitrate : ℕ) (sample_point : F)
    (btc : BittimingConst) where
  -- What the loop body finds for one prescaler.
  abbrev pub Finding : ℕ → Option (Candidate F) → Type 0
  Finding brp r =
      ((c : Candidate F) × (r ≡ some c) × IsSetting clock_hz bitrate btc brp c.tseg1 c.tseg2)
      ⊎ ((r ≡ none) × ((a b : ℕ) → ¬ IsSetting clock_hz bitrate btc brp a b))

  -- For a clock, a bit rate, a prescaler and upper limits of the segments that are 32-bit numbers,
  -- `evaluate` gives a timing setting of the prescaler if there is any, and skips the prescaler only
  -- if there is none.
  pub evaluate_cases :
      (brp : ℕ)
      → clock_hz < 2 ^ 32
      → bitrate < 2 ^ 32
      → brp < 2 ^ 32
      → btc.tseg1_max < 2 ^ 32
      → btc.tseg2_max < 2 ^ 32
      → Finding brp (evaluate d clock_hz bitrate sample_point btc brp)
  unfolding evaluate
  evaluate_cases brp hc hb hp h1 h2 = elim (ℕ_discrete p 0) [
    | yes z ↦ inr (ground (arith, m), λ a b s. omega (arith, (rw z at s.not_below)))
    | no nz ↦ elim (dec_lt tq 3) [
      | yes few ↦ inr (ground (arith, m), λ a b s. omega (arith, counted a b s, s.three))
      | no enough ↦ elim (dec_lt (tq - 1) (u32 (btc.tseg1_min + btc.tseg2_min))) [
        | yes small ↦ inr (ground (arith, m), λ a b s. omega (arith, counted a b s, s.fits))
        | no room ↦
            elim (split_cases btc (tq - 1) (d.lround (d.mul sample_point (of_nat d tq)) -ℤ pos 1)) [
              | inl (a, b, e, fits) ↦ inl (
                candidate d clock_hz bitrate sample_point brp tq (pos a, pos b),
                enter nz enough room ∙ ap after_split e,
                setting a b fits nz enough,
              )
              | inr (e, misfit) ↦ inr (
                enter nz enough room ∙ ap after_split e,
                λ a b s. absurd (none_fits a b s misfit),
              )
            ]
      ]
    ]
  ]
    where
      p : ℕ
      p = brp * bitrate

      tq : ℕ
      tq = quanta clock_hz p

      m : u64 p ≡ p
      m = omega (arith, product-lt brp bitrate hp hb)

      counted : (a b : ℕ) → IsSetting clock_hz bitrate btc brp a b → tq ≡ a + b + 1
      counted a b s =
          quanta-eq clock_hz p (a + b + 1) hc (product-lt brp bitrate hp hb) s.not_above s.not_below

      wanted : ℤ
      wanted = d.lround (d.mul sample_point (of_nat d tq)) -ℤ pos 1

      after_split : Option (ℤ × ℤ) → Option (Candidate F)
      after_split o =
          o >>= λ segments. some (candidate d clock_hz bitrate sample_point brp tq segments)

      enter :
          p ≢ 0
          → ¬ (tq < 3)
          → ¬ (tq - 1 < u32 (btc.tseg1_min + btc.tseg2_min))
          → evaluate d clock_hz bitrate sample_point btc brp
            ≡ after_split (split btc (tq - 1) wanted)
      enter nz enough room =
          let not_zero : brp ≢ 0 = λ z. nz (omega (arith, ap (λ (t : ℕ). t * bitrate) z)) in
          ground (
            arith,
            m,
            not_zero,
            quanta-le clock_hz p hc (product-lt brp bitrate hp hb) (omega arith),
          )

      setting :
          (a b : ℕ)
          → Fits btc (tq - 1) a b
          → p ≢ 0
          → ¬ (tq < 3)
          → IsSetting clock_hz bitrate btc brp
              (candidate d clock_hz bitrate sample_point brp tq (pos a, pos b)).tseg1
              (candidate d clock_hz bitrate sample_point brp tq (pos a, pos b)).tseg2
      setting a b fits nz enough =
          let near = quanta-nearest clock_hz p hc (product-lt brp bitrate hp hb) (omega arith) in
          let sum : a + b + 1 ≡ tq = omega arith in
          let ea : u32 a ≡ a = omega arith in
          let eb : u32 b ≡ b = omega arith in
          unfold candidate in
          rw (ea, eb)
            (record {
              fits = omega arith;
              three = omega arith;
              not_above = rw sum near.0;
              not_below = rw sum near.1;
            })

      none_fits :
          (a b : ℕ)
          → IsSetting clock_hz bitrate btc brp a b
          → ((x y : ℕ) → ¬ Fits btc (tq - 1) x y)
          → ⊥
      none_fits a b s misfit = misfit a b (omega (arith, counted a b s, s.fits))
