-- ===== src/Tools/Send/Rounds.antt =====
-- The rounds of gsusb_send.c as one list of steps.
use gs_usb_user.Base.{
  ℕ, zero, suc, ◌≡◌, refl, ap, ◌∙◌, sym, Bool, true, false, Option, some, List, [], ◌∷◌, arith,
  ◌==◌, ◌&&◌, not, ◌>>=◌, if◌then◌else◌, Bool-cases, inl, inr, Option-cases, >>=-ext,
}
use gs_usb_user.Frame.{Frame}
use gs_usb_user.Device.{Channel, Dev}
use gs_usb_user.Status.{is_error}
use gs_usb_user.Usb.{Usb}
use gs_usb_user.Tx.{send}
use gs_usb_user.Tools.Send.{send_frames, send_rounds}

-- what the tool does to the bus, in order
pub data Step : Type 0 where
  transmit : Frame → Step
  pause : Step

abbrev pub round : List Frame → List Step → List Step
round [] rest = rest
round (f ∷ fs) rest = transmit f ∷ round fs rest

-- a pause between two rounds, if there is an interval
abbrev pub behind : Bool → ℕ → List Step → List Step
behind pauses left steps = if pauses && not (left == 0) then pause ∷ steps else steps

abbrev pub schedule : List Frame → Bool → ℕ → List Step
schedule frames pauses zero = []
schedule frames pauses (suc left) = round frames (behind pauses left (schedule frames pauses left))

abbrev pub pauses_left : List Step → Bool
pauses_left [] = false
pauses_left (transmit f ∷ steps) = pauses_left steps
pauses_left (pause ∷ steps) = true

module _ {W : Type 0} (usb : Usb W) (sleep : ℕ → W → W) (dev : Dev) (ch : Channel)
    (interval_ms : ℕ) where
  -- the steps up to the first frame that is not sent, and then one pause if any is left
  unfoldable pub run_steps : List Step → W → Option (Bool × W)
  run_steps [] w = some (true, w)
  run_steps (pause ∷ steps) w = run_steps steps (sleep interval_ms w)
  run_steps (transmit f ∷ steps) w = do
    (rc, w') ← send usb dev ch f 1000 w
    if is_error rc
        then some (false, if pauses_left steps then sleep interval_ms w' else w')
        else run_steps steps w'

  -- what follows a round
  after_round : List Step → Bool × W → Option (Bool × W)
  after_round rest (good, w) =
      if good
      then run_steps rest w
      else some (false, if pauses_left rest then sleep interval_ms w else w)

  pauses_left-round :
      (fs : List Frame) (rest : List Step) → pauses_left (round fs rest) ≡ pauses_left rest
  pauses_left-round [] rest = refl
  pauses_left-round (f ∷ fs) rest = pauses_left-round fs rest

  run_steps-round :
      (fs : List Frame) (rest : List Step) (w : W)
      → run_steps (round fs rest) w ≡ (send_frames usb sleep dev ch fs w >>= after_round rest)
  unfolding run_steps after_round send_frames
  run_steps-round [] rest w = refl
  run_steps-round (f ∷ fs) rest w = elim (Option-cases (send usb dev ch f 1000 w)) [
    | inl e ↦ rw e refl
    | inr ((rc, w'), e) ↦ elim (Bool-cases (is_error rc)) [
      | inl bad ↦ rw (e, bad, pauses_left-round fs rest) refl
      | inr good ↦ rw (e, good) (run_steps-round fs rest w')
    ]
  ]

  -- Without an interval nothing pauses.
  pauses_left-schedule :
      (frames : List Frame) (left : ℕ) → pauses_left (schedule frames false left) ≡ false
  pauses_left-schedule frames zero = refl
  pauses_left-schedule frames (suc left) =
      pauses_left-round frames (schedule frames false left) ∙ pauses_left-schedule frames left

  no_pause :
      (frames : List Frame) (pauses : Bool) (left : ℕ)
      → (pauses && not (left == 0)) ≡ false
      → pauses_left (schedule frames pauses left) ≡ false
  no_pause frames pauses zero h = refl
  no_pause frames true (suc left) h = ground arith
  no_pause frames false (suc left) h = pauses_left-schedule frames (suc left)

  after_round-behind :
      (frames : List Frame) (pauses : Bool) (left : ℕ) (r : Bool × W)
      → after_round (behind pauses left (schedule frames pauses left)) r ≡ (
          let w2 = if pauses && not (left == 0) then sleep interval_ms r.1 else r.1 in
          if r.0 then run_steps (schedule frames pauses left) w2 else some (false, w2))
  unfolding after_round run_steps
  after_round-behind frames pauses left (good, w) = elim (Bool-cases (pauses && not (left == 0))) [
    | inl e ↦ rw e refl
    | inr e ↦ rw (e, no_pause frames pauses left e) refl
  ]

  -- The tool's rounds do what the schedule says, step by step, to whatever end: the frames of all the
  -- rounds in order with one pause between two rounds if the interval is not 0, up to the first frame
  -- that is not sent, behind which there is one more pause if another round was left.
  pub send_rounds-schedule :
      (frames : List Frame) (left : ℕ) (w : W)
      → send_rounds usb sleep dev ch frames interval_ms left w
        ≡ run_steps (schedule frames (not (interval_ms == 0)) left) w
  unfolding send_rounds run_steps
  send_rounds-schedule frames zero w = refl
  send_rounds-schedule frames (suc left) w =
      let pauses = not (interval_ms == 0) in
      >>=-ext (send_frames usb sleep dev ch frames w) (λ r.
        let w2 = if pauses && not (left == 0) then sleep interval_ms r.1 else r.1 in
        ap (λ t. if r.0 then t else some (false, w2)) (send_rounds-schedule frames left w2)
        ∙ sym (after_round-behind frames pauses left r))
      ∙ sym (run_steps-round frames (behind pauses left (schedule frames pauses left)) w)
