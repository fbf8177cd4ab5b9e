-- ===== src/Reader/Outcome.antt =====
-- What the reader thread comes to.
use gs_usb_user.Base.{
  ℕ, ◌≡◌, refl, sym, subst, Bool, true, false, List, [], ◌∷◌, arith, length, Bool-cases, ℕ_discrete,
  ◌⊎◌, inl, inr,
}
use gs_usb_user.Device.{Dev}
use gs_usb_user.Device.Invariant.{IsValid}
use gs_usb_user.Status.{LibusbCode, LibusbError, success, error}
use gs_usb_user.Rx.Effect.{handle_rx_packet-IsValid}
use gs_usb_user.Reader.{
  Turn, Next, continue, break, crash, Reading, running, told_to_stop, device_lost, out_of_memory,
  fault, after_transfer, read_loop, reader_thread,
}

-- The other threads keep the device well formed.
pub data AllKeep : List Turn → Type 0 where
  end : AllKeep []
  next :
      {turn : Turn} {turns : List Turn}
      → ((dev : Dev) → IsValid dev → IsValid (turn.meanwhile dev))
      → AllKeep turns
      → AllKeep (turn ∷ turns)

-- Where the thread may be; it is never at a read out of bounds.
pub data ReaderOutcome : Reading → Type 0 where
  runs : (d : Dev) → IsValid d → ReaderOutcome (running d)
  stopped : (d : Dev) → IsValid d → d.stop_flag ≡ true → ReaderOutcome (told_to_stop d)
  lost :
      (e : LibusbError) (d : Dev)
      → IsValid d
      → (e ≡ LibusbError.no_device) ⊎ (e ≡ LibusbError.io)
      → ReaderOutcome (device_lost e d)
  unread : (d : Dev) → IsValid d → ReaderOutcome (out_of_memory d)

data Follows : Next → Type 0 where
  goes_on : (d : Dev) → IsValid d → Follows (continue d)
  ends : (e : LibusbError) → (e ≡ LibusbError.no_device) ⊎ (e ≡ LibusbError.io) → Follows (break e)

after_transfer-Follows :
    (rc : LibusbCode) (bytes : List ℕ) (dev : Dev)
    → IsValid dev
    → Follows (after_transfer rc bytes dev)
unfolding after_transfer
after_transfer-Follows success bytes dev v =
    let (d, e, w) = handle_rx_packet-IsValid dev bytes v in
    elim (ℕ_discrete (length bytes) 0) [
      | yes z ↦ subst Follows (ground arith) (goes_on dev v)
      | no ne ↦ subst Follows (ground (arith, e)) (goes_on d w)
    ]
after_transfer-Follows (error LibusbError.timeout) bytes dev v = goes_on dev v
after_transfer-Follows (error LibusbError.access) bytes dev v = goes_on dev v
after_transfer-Follows (error LibusbError.no_device) bytes dev v = ends _ (inl refl)
after_transfer-Follows (error LibusbError.not_found) bytes dev v = goes_on dev v
after_transfer-Follows (error LibusbError.busy) bytes dev v = goes_on dev v
after_transfer-Follows (error LibusbError.no_mem) bytes dev v = goes_on dev v
after_transfer-Follows (error LibusbError.invalid_param) bytes dev v = goes_on dev v
after_transfer-Follows (error LibusbError.io) bytes dev v = ends _ (inr refl)
after_transfer-Follows (error (LibusbError.other n)) bytes dev v = goes_on dev v

-- The arms of the loop, for what the transfer leads to.
abbrev resume : List Turn → Dev → Next → Reading
resume turns found (continue d) = read_loop turns d
resume turns found (break e) = device_lost e found
resume turns found crash = fault

read_loop-step :
    (turn : Turn) (turns : List Turn) (dev : Dev)
    → (turn.meanwhile dev).stop_flag ≡ false
    → read_loop (turn ∷ turns) dev
      ≡ resume turns
          (turn.meanwhile dev)
          (after_transfer turn.result turn.bytes (turn.meanwhile dev))
unfolding read_loop
read_loop-step turn turns dev s = ground (arith, s)

resume-ReaderOutcome :
    (turns : List Turn) (found : Dev) (n : Next)
    → IsValid found
    → ((d : Dev) → IsValid d → ReaderOutcome (read_loop turns d))
    → Follows n
    → ReaderOutcome (resume turns found n)
resume-ReaderOutcome turns found n v rest (goes_on d w) = rest d w
resume-ReaderOutcome turns found n v rest (ends e g) = lost e found v g

read_loop-ReaderOutcome :
    (turns : List Turn) (dev : Dev)
    → IsValid dev
    → AllKeep turns
    → ReaderOutcome (read_loop turns dev)
unfolding read_loop
read_loop-ReaderOutcome [] dev v keep = runs dev v
read_loop-ReaderOutcome (turn ∷ turns) dev v (next k keep) =
    let found = turn.meanwhile dev in
    elim (Bool-cases found.stop_flag) [
      | inl s ↦ subst ReaderOutcome (ground (arith, s)) (stopped found (k dev v) s)
      | inr s ↦ subst ReaderOutcome (sym (read_loop-step turn turns dev s)) (
          resume-ReaderOutcome turns found _ (k dev v)
            (λ d w. read_loop-ReaderOutcome turns d w keep)
            (after_transfer-Follows turn.result turn.bytes found (k dev v)))
    ]

-- While the other threads keep the device well formed, the reader, whatever libusb answers, reads
-- nothing out of bounds and keeps the device well formed, and it ends only for want of memory, on
-- the request to stop, or when libusb reports the device gone or an I/O error.
pub reader_thread-ReaderOutcome :
    (allocated : Bool) (turns : List Turn) (dev : Dev)
    → IsValid dev
    → AllKeep turns
    → ReaderOutcome (reader_thread allocated turns dev)
unfolding reader_thread
reader_thread-ReaderOutcome true turns dev v keep = read_loop-ReaderOutcome turns dev v keep
reader_thread-ReaderOutcome false turns dev v keep = unread dev v
