-- ===== src/Tools/Args/Selection.antt =====
-- What the loops over the options choose.
use gs_usb_user.Base.{
  ℕ, ◌≤◌, ◌≡◌, refl, ap, ◌⊎◌, Bool, true, false, Option, none, some, List, [], ◌∷◌, ◌++◌, arith,
  ◌==◌, Option-cases, inl, inr, if◌then◌else◌,
}
use gs_usb_user.Tools.Args.{Given, Chosen, chosen, usage, usage_code, choose}

-- An exit code behind the usage text is 0 or 1.
abbrev pub IsUsage : {O : Type 0} → Chosen O → Type 0
IsUsage (chosen o) = Unit
IsUsage (usage code) = code ≤ 1

pub choose-IsUsage :
    {O : Type 0} (apply : O → Given → Option O) (o : O) (gs : List Given)
    → IsUsage (choose apply o gs)
unfolding choose
choose-IsUsage apply o [] = tt
choose-IsUsage apply o (g ∷ gs) = elim (Option-cases (apply o g)) [
  | inl e ↦ rw (e, choose) (ground arith)
  | inr (o', e) ↦ rw (e, choose) (choose-IsUsage apply o' gs)
]

-- the argument of the last option with a letter
abbrev pub last_given : ℕ → List Given → Option (List ℕ)
last_given c [] = none
last_given c (g ∷ gs) = elim (last_given c gs) [
  | some s ↦ some s
  | none ↦ if g.letter == c then some g.optarg else none
]

-- the value of an option: that of the last one given, or the default
abbrev pub chosen_value : {A : Type 0} → ℕ → (List ℕ → A) → A → List Given → A
chosen_value c read default gs = elim (last_given c gs) [ none ↦ default | some s ↦ read s ]

-- An option with the letter writes the field, and no other option does.
abbrev pub Sets : {O A : Type 0} → (O → Given → Option O) → (O → A) → ℕ → (List ℕ → A) → Type 0
Sets {O} apply field c read =
    (o : O) (g : Given) (o' : O)
    → apply o g ≡ some o'
    → field o' ≡ (if g.letter == c then read g.optarg else field o)

pub choose-chosen_value :
    {O A : Type 0} (apply : O → Given → Option O) (field : O → A) (c : ℕ) (read : List ℕ → A)
    → Sets apply field c read
    → (o : O) (gs : List Given) (o' : O) → choose apply o gs ≡ chosen o'
    → field o' ≡ chosen_value c read (field o) gs
unfolding choose
choose-chosen_value apply field c read sets o [] o' e = ground arith
choose-chosen_value apply field c read sets o (g ∷ gs) o' e = elim (Option-cases (apply o g)) [
  | inl f ↦ ground arith
  | inr (o1, f) ↦
      let rest = choose-chosen_value apply field c read sets o1 gs o' (ground arith) in
      elim (Option-cases (last_given c gs)) [
        | inr (s, l) ↦ ground arith
        | inl l ↦ ground (arith, sets o g o1 f)
      ]
]

-- Every option is one of those that the tool has.
abbrev pub AllKnown : (ℕ → Bool) → List Given → Type 0
AllKnown known [] = Unit
AllKnown known (g ∷ gs) = (known g.letter ≡ true) × AllKnown known gs

-- How the loop ends: with every option known, or at the first that is not.
pub data Stops {O : Type 0} (known : ℕ → Bool) (gs : List Given) : Chosen O → Type 0 where
  to_the_end : (o : O) → AllKnown known gs → Stops known gs (chosen o)
  at_usage :
      (before : List Given) (g : Given) (after : List Given)
      → gs ≡ before ++ (g ∷ after)
      → AllKnown known before
      → known g.letter ≡ false
      → Stops known gs (usage (usage_code g.letter))

-- The tool has the options with the known letters.
abbrev pub Takes : {O : Type 0} → (O → Given → Option O) → (ℕ → Bool) → Type 0
Takes {O} apply known =
    (o : O) (g : Given)
    → ((known g.letter ≡ false) × (apply o g ≡ none))
      ⊎ ((known g.letter ≡ true) × (o' : O) × (apply o g ≡ some o'))

later :
    {O : Type 0} (known : ℕ → Bool) (g : Given) (gs : List Given) (c : Chosen O)
    → known g.letter ≡ true
    → Stops known gs c
    → Stops known (g ∷ gs) c
later known g gs c k (to_the_end o a) = to_the_end o (k, a)
later known g gs c k (at_usage before x after e a u) =
    at_usage (g ∷ before) x after (ap (◌∷◌ g) e) (k, a) u

pub choose-Stops :
    {O : Type 0} (apply : O → Given → Option O) (known : ℕ → Bool)
    → Takes apply known
    → (o : O) (gs : List Given) → Stops known gs (choose apply o gs)
unfolding choose
choose-Stops apply known takes o [] = to_the_end o tt
choose-Stops apply known takes o (g ∷ gs) = elim (takes o g) [
  | inl (u, e) ↦ rw (e, choose) (at_usage [] g gs refl tt u)
  | inr (k, o', e) ↦
      rw (e, choose)
        (later known g gs (choose apply o' gs) k (choose-Stops apply known takes o' gs))
]
