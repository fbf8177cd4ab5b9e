-- ===== src/Recv/Outcome.antt =====
-- What `gsusb_channel_recv` returns, whatever the other threads do while it waits.
use gs_usb_user.Base.{
  ℕ, ◌+◌, ◌*◌, ◌<◌, ◌≡◌, ◌≢◌, refl, subst, ◌∙◌, length, true, false, List, [], ◌∷◌, arith,
  Bool-cases, ℕ_discrete, inl, inr,
}
use gs_usb_user.Frame.{Frame}
use gs_usb_user.Rxq.Invariant.{IsValid}
use gs_usb_user.Rxq.Refine.{contents, length-contents, contents-pop}
use gs_usb_user.Rxq.{Rxq}
use gs_usb_user.Device.{Channel}
use gs_usb_user.Recv.{
  Timespec, deadline, Wait, Recv, received, nothing, not_started, waiting, take_frame, recv,
}

-- From a normalised time, the deadline is a normalised time, exactly `timeout_ms` later.
pub deadline_exact :
    (now : Timespec) (timeout_ms : ℕ)
    → now.tv_nsec < 1_000_000_000
    → ((deadline now timeout_ms).tv_nsec < 1_000_000_000)
      × ((deadline now timeout_ms).tv_sec * 1_000_000_000 + (deadline now timeout_ms).tv_nsec
          ≡ now.tv_sec * 1_000_000_000 + now.tv_nsec + timeout_ms * 1_000_000)
unfolding deadline
deadline_exact now timeout_ms h = ground arith

-- Every channel that a wait finds has a valid queue.
pub data AllValid : List Wait → Type 0 where
  end : AllValid []
  next :
      {wait : Wait} {waits : List Wait}
      → IsValid wait.found.queue
      → AllValid waits
      → AllValid (wait ∷ waits)

-- What a call of `recv` comes to, from the channel that it finds and the waits that follow.
pub data Outcome (timeout_ms : ℕ) : List Wait → Channel → Recv → Type 0 where
  -- The oldest frame is given at once, whatever the timeout and also on a stopped channel; the others
  -- stay in the queue, and nothing else of the channel changes.
  got :
      (waits : List Wait) (ch after : Channel) (f : Frame)
      → contents ch.queue ≡ f ∷ contents after.queue
      → IsValid after.queue
      → after ≡ record ch { queue = after.queue }
      → Outcome timeout_ms waits ch (received f after)
  closed :
      (waits : List Wait) (ch : Channel)
      → contents ch.queue ≡ []
      → ch.started ≡ false
      → Outcome timeout_ms waits ch (not_started ch)
  polled :
      (waits : List Wait) (ch : Channel)
      → contents ch.queue ≡ []
      → ch.started ≡ true
      → timeout_ms ≡ 0
      → Outcome timeout_ms waits ch (nothing ch)
  expired :
      (wait : Wait) (waits : List Wait) (ch : Channel)
      → contents ch.queue ≡ []
      → ch.started ≡ true
      → timeout_ms ≢ 0
      → wait.timed_out ≡ true
      → Outcome timeout_ms (wait ∷ waits) ch (nothing wait.found)
  -- A wait that did not time out leads to the same questions on the channel as it is then.
  woken :
      (wait : Wait) (waits : List Wait) (ch : Channel) (r : Recv)
      → contents ch.queue ≡ []
      → ch.started ≡ true
      → timeout_ms ≢ 0
      → wait.timed_out ≡ false
      → Outcome timeout_ms waits wait.found r
      → Outcome timeout_ms (wait ∷ waits) ch r
  still :
      (ch : Channel)
      → contents ch.queue ≡ []
      → ch.started ≡ true
      → timeout_ms ≢ 0
      → Outcome timeout_ms [] ch waiting

contents-empty : (q : Rxq) → q.len ≡ 0 → contents q ≡ []
contents-empty q z = nil (contents q) (length-contents q ∙ z)
  where
    nil : (fs : List Frame) → length fs ≡ 0 → fs ≡ []
    nil [] e = refl
    nil (f ∷ fs) e = absurd (omega arith)

take_frame-Outcome :
    (timeout_ms : ℕ) (waits : List Wait) (ch : Channel)
    → IsValid ch.queue
    → ch.queue.len ≢ 0
    → Outcome timeout_ms waits ch (take_frame ch)
unfolding take_frame
take_frame-Outcome timeout_ms waits ch v ne =
    let (f, q, e, v', c) = contents-pop v ne in
    rw (e, take_frame) (got waits ch (record ch { queue = q }) f c v' refl)

-- A frame that is queued is given at once, whatever the timeout and also on a stopped channel.
pub recv-now :
    (timeout_ms : ℕ) (waits : List Wait) (ch : Channel)
    → ch.queue.len ≢ 0
    → recv timeout_ms waits ch ≡ take_frame ch
unfolding recv
recv-now timeout_ms [] ch ne = ground arith
recv-now timeout_ms (wait ∷ waits) ch ne = ground arith

-- Whatever the other threads do while it waits, on valid queues `recv` reads nothing out of bounds. A
-- queue that holds a frame when `recv` looks at it gives its oldest frame, which leaves it, whether the
-- channel is started or not. On an empty queue `recv` says that the channel is stopped if it is, else
-- that there is nothing if the timeout is 0 or the wait timed out, and else it looks again after the
-- wait; it still waits only if no wait that timed out or found a frame or a stopped channel has come.
pub recv-Outcome :
    (timeout_ms : ℕ) (waits : List Wait) (ch : Channel)
    → IsValid ch.queue
    → AllValid waits
    → Outcome timeout_ms waits ch (recv timeout_ms waits ch)
unfolding recv
recv-Outcome timeout_ms [] ch v all = elim (ℕ_discrete ch.queue.len 0) [
  | no ne ↦ rw (recv-now timeout_ms [] ch ne) (take_frame-Outcome timeout_ms [] ch v ne)
  | yes z ↦
      let none = contents-empty ch.queue z in
      elim (Bool-cases ch.started) [
        | inr s ↦ subst (Outcome timeout_ms [] ch) (ground arith) (closed [] ch none s)
        | inl s ↦ elim (ℕ_discrete timeout_ms 0) [
          | yes poll ↦ subst (Outcome timeout_ms [] ch) (ground arith) (polled [] ch none s poll)
          | no long ↦ subst (Outcome timeout_ms [] ch) (ground arith) (still ch none s long)
        ]
      ]
]
recv-Outcome timeout_ms (wait ∷ waits) ch v (next found all) =
    let P = Outcome timeout_ms (wait ∷ waits) ch in
    elim (ℕ_discrete ch.queue.len 0) [
      | no ne ↦
          rw (recv-now timeout_ms (wait ∷ waits) ch ne)
            (take_frame-Outcome timeout_ms (wait ∷ waits) ch v ne)
      | yes z ↦
          let none = contents-empty ch.queue z in
          elim (Bool-cases ch.started) [
            | inr s ↦ subst P (ground arith) (closed (wait ∷ waits) ch none s)
            | inl s ↦ elim (ℕ_discrete timeout_ms 0) [
              | yes poll ↦ subst P (ground arith) (polled (wait ∷ waits) ch none s poll)
              | no long ↦ elim (Bool-cases wait.timed_out) [
                | inl up ↦ subst P (ground arith) (expired wait waits ch none s long up)
                | inr more ↦
                    let rest = recv-Outcome timeout_ms waits wait.found found all in
                    subst P (ground arith)
                      (woken wait waits ch (recv timeout_ms waits wait.found) none s long more rest)
              ]
            ]
          ]
    ]

-- The channel that a call leaves has a valid queue, and no call faults.
abbrev pub Leaves : Recv → Type 0
Leaves (received f after) = IsValid after.queue
Leaves (nothing ch) = IsValid ch.queue
Leaves (not_started ch) = Unit
Leaves waiting = Unit
Leaves Recv.fault = ⊥

pub Outcome-Leaves :
    (timeout_ms : ℕ) (waits : List Wait) (ch : Channel) (r : Recv)
    → IsValid ch.queue
    → AllValid waits
    → Outcome timeout_ms waits ch r
    → Leaves r
Outcome-Leaves timeout_ms waits ch r v all (got ws c after f e v' k) = v'
Outcome-Leaves timeout_ms waits ch r v all (closed ws c e s) = tt
Outcome-Leaves timeout_ms waits ch r v all (polled ws c e s p) = v
Outcome-Leaves timeout_ms waits ch r v (next found all) (expired wait ws c e s l up) = found
Outcome-Leaves timeout_ms waits ch r v (next found all) (woken wait ws c r' e s l more o) =
    Outcome-Leaves timeout_ms ws wait.found r found all o
Outcome-Leaves timeout_ms waits ch r v all (still c e s l) = tt
