-- ===== src/Tools/Session/Steady.antt =====
-- What the loops of gsusb_dump.c and gsusb_react.c take from a channel that stays started.
use gs_usb_user.Base.{
  ℕ, ◌≡◌, ◌≤◌, ◌≢◌, subst, Bool, true, false, List, [], ◌∷◌, arith, ◌⊎◌, inl, inr, ℕ_discrete,
  Bool-cases, ◌||◌,
}
use gs_usb_user.Frame.{Frame}
use gs_usb_user.Device.{Channel}
use gs_usb_user.Rxq.Invariant.{IsValid}
use gs_usb_user.Rxq.Refine.{contents, contents-pop}
use gs_usb_user.Recv.{Wait, Recv, received, nothing, take_frame, recv}
use gs_usb_user.Recv.Outcome.{recv-now}
use gs_usb_user.Tools.Session.{Ended, exits, goes_on}
use gs_usb_user.Tools.React.{Turn}

abbrev pub AllOf {ℓ} : {A : Type ℓ} → (A → Type 0) → List A → Type 0
AllOf P [] = Unit
AllOf P (x ∷ xs) = P x × AllOf P xs

-- Channel `k`, started, with a valid queue of frames with `P`.
pub record IsSteady (P : Frame → Type 0) (k : ℕ) (ch : Channel) : Type 0 where
  pub indexed : ch.index ≡ k
  pub started : ch.started ≡ true
  pub queued : IsValid ch.queue
  pub frames : AllOf P (contents ch.queue)

-- The time of a wait runs out.
abbrev pub WaitsEnd : List Wait → Type 0
WaitsEnd [] = ⊥
WaitsEnd (wait ∷ waits) = (wait.timed_out ≡ true) ⊎ WaitsEnd waits

-- In a turn the other threads leave such a channel, and the wait ends.
pub record KeepsSteady (P : Frame → Type 0) (k : ℕ) (turn : Turn) : Type 0 where
  pub kept : (ch : Channel) → IsSteady P k ch → IsSteady P k (turn.meanwhile ch)
  pub found : AllOf (λ wait. IsSteady P k wait.found) turn.waits
  pub ends : WaitsEnd turn.waits

-- A frame with `P`, or nothing.
pub data Heard (P : Frame → Type 0) (k : ℕ) : Recv → Type 0 where
  frame : (f : Frame) (ch : Channel) → P f → IsSteady P k ch → Heard P k (received f ch)
  silence : (ch : Channel) → IsSteady P k ch → Heard P k (nothing ch)

-- whether the signal is seen in a turn
abbrev pub any_stop : List Turn → Bool
any_stop [] = false
any_stop (turn ∷ turns) = turn.stop || any_stop turns

-- An exit with code 0 or 1, or a loop that goes on because no signal was seen.
pub data EndsBySignal {A : Type 0} (signal : Bool) : Ended A → Type 0 where
  exited : (code : ℕ) (a : A) → code ≤ 1 → EndsBySignal signal (exits code a)
  unsignalled : signal ≡ false → EndsBySignal signal goes_on

module _ (P : Frame → Type 0) (k : ℕ) where
  take_frame-Heard : (ch : Channel) → IsSteady P k ch → ch.queue.len ≢ 0 → Heard P k (take_frame ch)
  unfolding take_frame
  take_frame-Heard ch s ne =
      let (f, q, e, v, c) = contents-pop s.queued ne in
      let all : AllOf P (f ∷ contents q) = subst (AllOf P) c s.frames in
      rw (e, take_frame)
        (frame f (record ch { queue = q }) all.0
          (record { indexed = s.indexed; started = s.started; queued = v; frames = all.1 }))

  pub recv-Heard :
      (timeout_ms : ℕ) (waits : List Wait) (ch : Channel)
      → IsSteady P k ch
      → AllOf (λ wait. IsSteady P k wait.found) waits
      → WaitsEnd waits
      → Heard P k (recv timeout_ms waits ch)
  unfolding recv
  recv-Heard timeout_ms [] ch s all e = absurd e
  recv-Heard timeout_ms (wait ∷ waits) ch s all e = elim (ℕ_discrete ch.queue.len 0) [
    | no ne ↦ rw (recv-now timeout_ms (wait ∷ waits) ch ne) (take_frame-Heard ch s ne)
    | yes z ↦ elim (ℕ_discrete timeout_ms 0) [
      | yes poll ↦ subst (Heard P k) (ground (arith, s.started)) (silence ch s)
      | no long ↦ elim (Bool-cases wait.timed_out) [
        | inl up ↦ subst (Heard P k) (ground (arith, s.started)) (silence wait.found all.0)
        | inr more ↦
            subst (Heard P k) (ground (arith, s.started))
              (recv-Heard timeout_ms waits wait.found all.0 all.1 (ground arith))
      ]
    ]
  ]
