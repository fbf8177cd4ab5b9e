-- ===== src/Examples/Opening.antt =====
-- Runs of opening a device and of the reader thread.
use gs_usb_user.Base.{ℕ, true, List, [], ◌∷◌, length-replicate, replicate}
use gs_usb_user.Status.{LibusbCode}
use gs_usb_user.Reader.{Turn, reader_thread}
use gs_usb_user.Reader.Outcome.{AllKeep, ReaderOutcome, reader_thread-ReaderOutcome}
use gs_usb_user.Open.{configure}
use gs_usb_user.Open.Outcome.{configure-Ends}
use gs_usb_user.Open.Fresh.{IsOpened}
use gs_usb_user.Open.Ends.{Ends}
use gs_usb_user.Examples.{at_rest, at_rest-IsValid, counting}

configure-Ends_example : Ends IsOpened (configure counting true true (λ i. true) 0x81 2 0)
configure-Ends_example =
    configure-Ends counting (λ s n w. length-replicate {A = ℕ} n 0) true true (λ i. true) 0x81 2 0

-- a packet, and a poll that ends without one
abbrev turns : List Turn
turns =
    record { meanwhile = λ dev. dev; result = LibusbCode.success; bytes = replicate 14 255 }
    ∷ record { meanwhile = λ dev. dev; result = LibusbCode.success; bytes = [] }
    ∷ []

reader_thread-ReaderOutcome_example : ReaderOutcome (reader_thread true turns at_rest)
reader_thread-ReaderOutcome_example =
    reader_thread-ReaderOutcome true turns at_rest at_rest-IsValid
      (AllKeep.next (λ dev v. v) (AllKeep.next (λ dev v. v) AllKeep.end))
