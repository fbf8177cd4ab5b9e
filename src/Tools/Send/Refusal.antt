-- ===== src/Tools/Send/Refusal.antt =====
-- gsusb_send.c on words that are no frames.
use gs_usb_user.Base.{ℕ, ◌≡◌, refl, Bool, true, false, some, List, [], ◌∷◌, ◌++◌, ◌||◌, has}
use gs_usb_user.Frame.{Frame, frame_fd}
use gs_usb_user.Usb.{Usb}
use gs_usb_user.Timing.{Double}
use gs_usb_user.Open.Device.{Libusb, Memory}
use gs_usb_user.Tools.Parse.{Parsed, parsed, refused, overrun, parse_frame}
use gs_usb_user.Tools.Parse.Safety.{ParseOutcome, parse_frame-ParseOutcome}
use gs_usb_user.Tools.Send.{Options, parse_words, gsusb_send}

-- The words before one that is no frame do not matter, nor do those behind it.
parse_words-refused :
    (before : List (List ℕ)) (word : List ℕ) (after : List (List ℕ)) (fd_mode : Bool)
    → parse_frame word ≡ refused
    → parse_words (before ++ (word ∷ after)) fd_mode ≡ refused
unfolding parse_words
parse_words-refused [] word after fd_mode e = rw (e, parse_words) refl
parse_words-refused (s ∷ before) word after fd_mode e =
    first (parse_frame s) (parse_frame-ParseOutcome s)
      (λ fd. parse_words-refused before word after fd e)
  where
    first :
        (r : Parsed Frame)
        → ParseOutcome r
        → ((fd : Bool) → parse_words (before ++ (word ∷ after)) fd ≡ refused)
        → elim r as (λ x. Parsed (List Frame × Bool)) [
          | refused ↦ refused
          | overrun ↦ overrun
          | parsed f ↦
              elim (parse_words (before ++ (word ∷ after)) (fd_mode || has f.flags frame_fd)) [
                | refused ↦ refused
                | overrun ↦ overrun
                | parsed (frames, fd) ↦ parsed (f ∷ frames, fd)
              ]
        ]
          ≡ refused
    first r ParseOutcome.rejects rest = refl
    first r (ParseOutcome.accepts f w g t) rest = rw (rest (fd_mode || has f.flags frame_fd)) refl

module _ {W F : Type 0} (usb : Usb W) (lib : Libusb W) (mem : Memory) (d : Double F) (fuel : ℕ)
    (sleep : ℕ → W → W) where
  -- Once its options are read and none of them has ended it, `gsusb_send` ends with exit code 1 before it
  -- touches libusb or any device if any word behind them is no frame, whatever the other words are and
  -- whatever the options have chosen.
  pub gsusb_send-refused :
      (o : Options) (allocated : Bool) (before : List (List ℕ)) (word : List ℕ)
      (after : List (List ℕ)) (w : W)
      → parse_frame word ≡ refused
      → gsusb_send usb lib mem d fuel sleep o allocated (before ++ (word ∷ after)) w ≡ some (1, w)
  unfolding gsusb_send
  gsusb_send-refused o false [] word after w e = refl
  gsusb_send-refused o false (s ∷ before) word after w e = refl
  gsusb_send-refused o true [] word after w e =
      rw (parse_words-refused [] word after o.fd_mode e) refl
  gsusb_send-refused o true (s ∷ before) word after w e =
      rw (parse_words-refused (s ∷ before) word after o.fd_mode e) refl
