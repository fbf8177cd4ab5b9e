-- ===== src/Lifecycle/Calls.antt =====
-- Starts and stops, one after the other, from one thread.
use gs_usb_user.Base.{
  ℕ, ◌≡◌, refl, Option, none, some, List, [], ◌∷◌, arith, get_elem?, Option-cases, ◌>>=◌, inl, inr,
}
use gs_usb_user.Device.{Channel, Dev}
use gs_usb_user.Status.{Status}
use gs_usb_user.Usb.{Usb}
use gs_usb_user.Lifecycle.{start, stop}
use gs_usb_user.Lifecycle.Started.{IsQuiescent}
use gs_usb_user.Lifecycle.Start.{Started, unchanged, running, unread, start-Started}
use gs_usb_user.Lifecycle.Stop.{Stopped, already, stopped, stop-Stopped}

pub data Call : Type 0 where
  start_call : ℕ → ℕ → Call
  stop_call : ℕ → Call

-- the channel that a call is made on
abbrev pub target : Call → ℕ
target (start_call k mode_flags) = k
target (stop_call k) = k

pub after_start : {W : Type 0} → (Status × Dev) × W → Option (Dev × W)
after_start ((status, d), w) = some (d, w)

-- A call on a channel that the device does not have cannot be made, and is left out.
pub perform : {W : Type 0} → Usb W → Call → Dev → W → Option (Dev × W)
perform usb call dev w = elim (get_elem? dev.channels (target call)) [
  | none ↦ some (dev, w)
  | some ch ↦ elim call [
    | start_call k mode_flags ↦ start usb dev k mode_flags w >>= after_start
    | stop_call k ↦ stop usb dev k w
  ]
]

pub perform_all : {W : Type 0} → Usb W → List Call → Dev → W → Option (Dev × W)
perform_all usb [] dev w = some (dev, w)
perform_all usb (call ∷ calls) dev w = elim (perform usb call dev w) [
  | none ↦ none
  | some (d, w') ↦ perform_all usb calls d w'
]

Started-IsQuiescent :
    {dev : Dev} {k : ℕ} {ch : Channel} (r : Status × Dev)
    → IsQuiescent dev
    → Started dev k ch r
    → IsQuiescent r.1
Started-IsQuiescent r q (unchanged s e) = q
Started-IsQuiescent r q (running d v at n reader) = v
Started-IsQuiescent r q (unread d v at n reader) = v

Stopped-IsQuiescent :
    {dev : Dev} {k : ℕ} {ch : Channel} (d : Dev)
    → IsQuiescent dev
    → Stopped dev k ch d
    → IsQuiescent d
Stopped-IsQuiescent d q (already s e) = rw e q
Stopped-IsQuiescent d q (stopped v s at n) = v

perform-IsQuiescent :
    {W : Type 0} (usb : Usb W) (call : Call) (dev : Dev) (w : W)
    → IsQuiescent dev
    → (d : Dev) × (w' : W) × (perform usb call dev w ≡ some (d, w')) × IsQuiescent d
unfolding perform after_start
perform-IsQuiescent usb (start_call k mode_flags) dev w q =
    elim (Option-cases (get_elem? dev.channels k)) [
      | inl missing ↦ (dev, w, ground (arith, missing), q)
      | inr (ch, at) ↦
          let (r, w', e, s) = start-Started usb dev k ch mode_flags w q at in
          (r.1, w', ground (arith, at, e), Started-IsQuiescent r q s)
    ]
perform-IsQuiescent usb (stop_call k) dev w q = elim (Option-cases (get_elem? dev.channels k)) [
  | inl missing ↦ (dev, w, ground (arith, missing), q)
  | inr (ch, at) ↦
      let (d, w', e, s) = stop-Stopped usb dev k ch w q at in
      (d, w', ground (arith, at, e), Stopped-IsQuiescent d q s)
]

-- From a device that satisfies the invariant, any sequence of starts and stops runs to its end,
-- whatever libusb and pthreads answer, and keeps the invariant: at every end `active_channels` is
-- the number of started channels, and the flag `reader_running` is set, with `stop_flag` unset, exactly
-- while one is started. The flag does not say that the thread is still there: it may have ended after
-- an error of the device.
pub perform_all-IsQuiescent :
    {W : Type 0} (usb : Usb W) (calls : List Call) (dev : Dev) (w : W)
    → IsQuiescent dev
    → (d : Dev) × (w' : W) × (perform_all usb calls dev w ≡ some (d, w')) × IsQuiescent d
unfolding perform_all
perform_all-IsQuiescent usb [] dev w q = (dev, w, refl, q)
perform_all-IsQuiescent usb (call ∷ calls) dev w q =
    let (d, w1, e, q1) = perform-IsQuiescent usb call dev w q in
    let (d2, w2, e2, q2) = perform_all-IsQuiescent usb calls d w1 q1 in
    (d2, w2, ground (arith, e, e2), q2)
