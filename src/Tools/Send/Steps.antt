-- ===== src/Tools/Send/Steps.antt =====
-- The steps of the rounds of gsusb_send.c, each done in turn.
use gs_usb_user.Base.{
  ℕ, ◌≡◌, true, false, some, List, [], ◌∷◌, arith, Bool-cases, inl, inr, subst, >>=-eq-some,
}
use gs_usb_user.Frame.{Frame}
use gs_usb_user.Device.{Channel, Dev}
use gs_usb_user.Status.{Status, is_error}
use gs_usb_user.Usb.{Usb}
use gs_usb_user.Tx.{send}
use gs_usb_user.Tools.Send.Rounds.{Step, transmit, pause, run_steps}

-- Every step was done: each frame was handed over without an error, at the world the step before left.
pub data Done {W : Type 0} (usb : Usb W) (sleep : ℕ → W → W) (dev : Dev) (ch : Channel)
    (interval_ms : ℕ) : List Step → W → W → Type 0 where
  nothing : (w : W) → Done usb sleep dev ch interval_ms [] w w
  sent :
      (f : Frame) (steps : List Step) (rc : Status) (w w1 w2 : W)
      → send usb dev ch f 1000 w ≡ some (rc, w1)
      → is_error rc ≡ false
      → Done usb sleep dev ch interval_ms steps w1 w2
      → Done usb sleep dev ch interval_ms (transmit f ∷ steps) w w2
  slept :
      (steps : List Step) (w w2 : W)
      → Done usb sleep dev ch interval_ms steps (sleep interval_ms w) w2
      → Done usb sleep dev ch interval_ms (pause ∷ steps) w w2

module _ {W : Type 0} (usb : Usb W) (sleep : ℕ → W → W) (dev : Dev) (ch : Channel)
    (interval_ms : ℕ) where
  pub run_steps-Done :
      (steps : List Step) (w w2 : W)
      → run_steps usb sleep dev ch interval_ms steps w ≡ some (true, w2)
      → Done usb sleep dev ch interval_ms steps w w2
  unfolding run_steps
  run_steps-Done [] w w2 h =
      let same : w ≡ w2 = cc in subst (Done usb sleep dev ch interval_ms [] w) same (nothing w)
  run_steps-Done (pause ∷ steps) w w2 h = slept steps w w2 (run_steps-Done steps _ w2 h)
  run_steps-Done (transmit f ∷ steps) w w2 h =
      let ((rc, w1), e, rest) = >>=-eq-some (send usb dev ch f 1000 w) _ h in
      elim (Bool-cases (is_error rc)) [
        | inl bad ↦ absurd (ground (arith, bad, rest))
        | inr good ↦
            let left : run_steps usb sleep dev ch interval_ms steps w1 ≡ some (true, w2) =
              ground (arith, good, rest) in
            sent f steps rc w w1 w2 e good (run_steps-Done steps w1 w2 left)
      ]
