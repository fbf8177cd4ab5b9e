-- ===== src/Timing/Split.antt =====
-- Splitting a bit into its two segments: the result lies in the ranges, and one is found whenever
-- there is one.
use gs_usb_user.Base.{
  ℕ, ◌+◌, ◌-◌, min, max, ◌≤◌, ◌<◌, ◌≡◌, ◌⊎◌, inl, inr, Bool, Option, none, some, arith,
  if◌then◌else◌,
}
use gs_usb_user.Base.Int.{ℤ, pos, negsuc, ◌-ℤ◌}
use gs_usb_user.Device.{BittimingConst}
use gs_usb_user.Timing.{clamp_tseg1, balance, outside, split}
use gs_usb_user.Base.{dec_lt, ap, ◌∙◌, Bool-cases, leb, ◌&&◌, ◌==◌}

-- The two segments of a bit, of `total` quanta after the synchronisation segment.
abbrev pub Fits : BittimingConst → ℕ → ℕ → ℕ → Type 0
Fits btc total tseg1 tseg2 =
    (btc.tseg1_min ≤ tseg1)
    × (tseg1 ≤ btc.tseg1_max)
    × (btc.tseg2_min ≤ tseg2)
    × (tseg2 ≤ btc.tseg2_max)
    × (tseg1 + tseg2 ≡ total)

clamp_tseg1_cases :
    (btc : BittimingConst) (wanted : ℤ)
    → (c : ℕ) × (clamp_tseg1 btc wanted ≡ pos c)
      × (c ≤ btc.tseg1_max)
      × (btc.tseg1_min ≤ btc.tseg1_max → btc.tseg1_min ≤ c)
unfolding clamp_tseg1
clamp_tseg1_cases btc (pos n) =
    (min btc.tseg1_max (max btc.tseg1_min n), ground arith, omega arith, λ h. omega arith)
clamp_tseg1_cases btc (negsuc n) =
    (min btc.tseg1_max btc.tseg1_min, ground arith, omega arith, λ h. omega arith)

sub_pos : (a b : ℕ) → b ≤ a → pos a -ℤ pos b ≡ pos (a - b)
unfolding ◌-ℤ◌
sub_pos a b h = ground arith

sub_neg : (a b : ℕ) → a < b → pos a -ℤ pos b ≡ negsuc (b - a - 1)
unfolding ◌-ℤ◌
sub_neg a b h = ground arith

-- The choice for a clamped `tseg1`.
abbrev choose : BittimingConst → ℤ × ℤ → Option (ℤ × ℤ)
choose btc (tseg1, tseg2) =
    if outside tseg1 btc.tseg1_min btc.tseg1_max
    then none
    else if outside tseg2 btc.tseg2_min btc.tseg2_max
    then none
    else some (tseg1, tseg2)

choose-Fits :
    (btc : BittimingConst) (total a b : ℕ)
    → Fits btc total a b
    → choose btc (pos a, pos b) ≡ some (pos a, pos b)
choose-Fits btc total a b h = ground arith

choose-misfit :
    (btc : BittimingConst) (a b : ℕ) → ¬ Fits btc (a + b) a b → choose btc (pos a, pos b) ≡ none
choose-misfit btc a b h = ground arith

-- Whether any pair fits.
abbrev Feasible : BittimingConst → ℕ → Type 0
Feasible btc total =
    (btc.tseg1_min ≤ btc.tseg1_max)
    × (btc.tseg2_min ≤ btc.tseg2_max)
    × (btc.tseg1_min + btc.tseg2_min ≤ total)
    × (total ≤ btc.tseg1_max + btc.tseg2_max)

-- What `balance` makes of a clamped `tseg1`.
data Balanced (btc : BittimingConst) (total : ℕ) (r : ℤ × ℤ) : Type 0 where
  negative : (n b : ℕ) → r ≡ (negsuc n, pos b) → total < btc.tseg2_min → Balanced btc total r
  pair :
      (a b : ℕ)
      → r ≡ (pos a, pos b)
      → a + b ≡ total
      → (Feasible btc total → Fits btc total a b)
      → Balanced btc total r

balance-Balanced :
    (btc : BittimingConst) (total c : ℕ)
    → c ≤ btc.tseg1_max
    → (btc.tseg1_min ≤ btc.tseg1_max → btc.tseg1_min ≤ c)
    → Balanced btc total (balance btc total (pos c))
unfolding balance
balance-Balanced btc total c hi lo = elim (dec_lt total btc.tseg2_min) [
  | yes p ↦
      negative (btc.tseg2_min - total - 1) btc.tseg2_min
        (ground (arith, sub_neg total btc.tseg2_min p, sub_pos total c, sub_neg total c)) p
  | no p ↦ elim (dec_lt total (c + btc.tseg2_min)) [
    | yes q ↦
        pair (total - btc.tseg2_min) btc.tseg2_min
          (ground (arith, sub_pos total btc.tseg2_min, sub_pos total c, sub_neg total c))
          (omega arith) (λ f. omega arith)
    | no q ↦ elim (dec_lt (c + btc.tseg2_max) total) [
      | yes r ↦
          pair (total - btc.tseg2_max) btc.tseg2_max
            (ground (arith, sub_pos total btc.tseg2_max, sub_pos total c, sub_neg total c))
            (omega arith) (λ f. omega arith)
      | no r ↦
          pair c (total - c) (ground (arith, sub_pos total c, sub_neg total c)) (omega arith)
            (λ f. omega arith)
    ]
  ]
]

choose-negative : (btc : BittimingConst) (n b : ℕ) → choose btc (negsuc n, pos b) ≡ none
choose-negative btc n b = ground arith

dec_fits : (btc : BittimingConst) (total a b : ℕ) → Dec (Fits btc total a b)
dec_fits btc total a b = elim (Bool-cases fits) [
  | inl e ↦ yes (ground arith)
  | inr e ↦ no (λ h. ground arith)
]
  where
    fits : Bool
    fits =
        leb btc.tseg1_min a
        && (leb a btc.tseg1_max
            && (leb btc.tseg2_min b && (leb b btc.tseg2_max && (a + b == total))))

Feasible-of_Fits : (btc : BittimingConst) (total a b : ℕ) → Fits btc total a b → Feasible btc total
Feasible-of_Fits btc total a b h = omega arith

-- Whatever `tseg1` is wanted, either a fitting pair is chosen, or there is none.
abbrev pub SplitOutcome : BittimingConst → ℕ → Option (ℤ × ℤ) → Type 0
SplitOutcome btc total r =
    ((a : ℕ) × (b : ℕ) × (r ≡ some (pos a, pos b)) × Fits btc total a b)
    ⊎ ((r ≡ none) × ((a b : ℕ) → ¬ Fits btc total a b))

choose-outcome :
    (btc : BittimingConst) (total : ℕ) (r : ℤ × ℤ)
    → Balanced btc total r
    → SplitOutcome btc total (choose btc r)
choose-outcome btc total r (negative n b e less) =
    inr (ap (choose btc) e ∙ choose-negative btc n b, λ x y h. omega arith)
choose-outcome btc total r (pair a b e sum fits) = elim (dec_fits btc total a b) [
  | yes h ↦ inl (a, b, ap (choose btc) e ∙ choose-Fits btc total a b h, h)
  | no ne ↦ inr (
    ap (choose btc) e ∙ choose-misfit btc a b (λ h. ne (ground (arith, h))),
    λ x y h. ne (fits (Feasible-of_Fits btc total x y h)),
  )
]

-- For every wanted `tseg1`, `split` gives two segments that fill the bit within the limits, or none if
-- no two segments do.
pub split_cases :
    (btc : BittimingConst) (total : ℕ) (wanted : ℤ)
    → SplitOutcome btc total (split btc total wanted)
unfolding split
split_cases btc total wanted =
    let (c, e, hi, lo) = clamp_tseg1_cases btc wanted in
    rw (e, split)
      (choose-outcome btc total (balance btc total (pos c)) (balance-Balanced btc total c hi lo))
