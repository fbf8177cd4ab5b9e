-- ===== src/Tools/Send/Termination.antt =====
-- gsusb_send.c ends, on any command line and whatever libusb and pthreads answer.
use gs_usb_user.Base.{
  ℕ, zero, suc, ◌≤◌, ◌≡◌, refl, Bool, true, false, Option, none, some, List, [], ◌∷◌, arith, ◌||◌,
  ◌==◌, ◌&&◌, not, has, length, get_elem?, Bool-cases, inl, inr, if◌then◌else◌,
}
use gs_usb_user.Frame.{Frame, frame_fd}
use gs_usb_user.Device.{Channel, Dev}
use gs_usb_user.Status.{Status, is_error}
use gs_usb_user.Usb.{Usb}
use gs_usb_user.Timing.{Double}
use gs_usb_user.Timing.Halts.{HasRoom}
use gs_usb_user.Tx.{send}
use gs_usb_user.Tx.Send.{send_cases}
use gs_usb_user.Lifecycle.Started.{IsQuiescent}
use gs_usb_user.Open.Device.{Libusb, Memory, Opened, opened, null, fault}
use gs_usb_user.Open.Fresh.{IsOpened}
use gs_usb_user.Open.Limits.{Reports, AllLimits}
use gs_usb_user.Open.Gives.{Gives}
use gs_usb_user.Tools.Args.{Chosen, chosen, usage, choose, GetoptLong}
use gs_usb_user.Tools.Args.Selection.{IsUsage, choose-IsUsage}
use gs_usb_user.Tools.Parse.{Parsed, parsed, refused, overrun, parse_frame}
use gs_usb_user.Tools.Parse.Safety.{ParseOutcome, parse_frame-ParseOutcome}
use gs_usb_user.Tools.Common.{gsusb_init, tool_open}
use gs_usb_user.Tools.Common.Gives.{tool_open-AtRest}
use gs_usb_user.Tools.Session.{Ready, ready, give_up}
use gs_usb_user.Tools.Session.Outcome.{
  Returns, IsReady, with_channel, without, bring_up-IsReady, shut_down_total,
}
use gs_usb_user.Tools.Send.{
  Options, parse_words, mode_of, send_frames, send_rounds, run_session, with_device, with_frames,
  gsusb_send,
}
use gs_usb_user.Tools.Send.Main.{defaults, apply_option, send_main}

-- the frames of a command line have their array of 64 bytes
abbrev AllFull : List Frame → Type 0
AllFull [] = Unit
AllFull (f ∷ fs) = (length f.payload ≡ 64) × AllFull fs

-- the words are refused, or give such frames
data Words : Parsed (List Frame × Bool) → Type 0 where
  bad : Words refused
  good : (frames : List Frame) (fd : Bool) → AllFull frames → Words (parsed (frames, fd))

parse_words-Words : (words : List (List ℕ)) (fd_mode : Bool) → Words (parse_words words fd_mode)
unfolding parse_words
parse_words-Words [] fd_mode = good [] fd_mode tt
parse_words-Words (word ∷ words) fd_mode =
    first (parse_frame word) (parse_frame-ParseOutcome word) (parse_words words)
      (λ fd. parse_words-Words words fd)
  where
    rest :
        (f : Frame) (r : Parsed (List Frame × Bool))
        → length f.payload ≡ 64
        → Words r
        → Words (elim r as (λ x. Parsed (List Frame × Bool)) [
          | refused ↦ refused
          | overrun ↦ overrun
          | parsed (frames, fd) ↦ parsed (f ∷ frames, fd)
        ])
    rest f r l bad = bad
    rest f r l (good frames fd a) = good (f ∷ frames) fd (l, a)

    first :
        (r : Parsed Frame)
        → ParseOutcome r
        → (next : Bool → Parsed (List Frame × Bool)) → ((fd : Bool) → Words (next fd))
        → Words (elim r as (λ x. Parsed (List Frame × Bool)) [
          | refused ↦ refused
          | overrun ↦ overrun
          | parsed f ↦ elim (next (fd_mode || has f.flags frame_fd)) [
            | refused ↦ refused
            | overrun ↦ overrun
            | parsed (frames, fd) ↦ parsed (f ∷ frames, fd)
          ]
        ])
    first r ParseOutcome.rejects next k = bad
    first r (ParseOutcome.accepts f w g t) next k =
        rest f (next (fd_mode || has f.flags frame_fd)) w.array (k _)

module _ {W : Type 0} (usb : Usb W) (sleep : ℕ → W → W) (dev : Dev) (ch : Channel) where
  send_total :
      (f : Frame) (timeout_ms : ℕ) (w : W)
      → length f.payload ≡ 64
      → (r : Status × W) × (send usb dev ch f timeout_ms w ≡ some r)
  send_total f timeout_ms w l = elim (send_cases usb dev ch f timeout_ms w l) [
    | inl (refusal, e) ↦ (_, e)
    | inr (allowed, s, e, i) ↦ (_, e)
  ]

  send_frames_total :
      (fs : List Frame) (w : W)
      → AllFull fs
      → (r : Bool × W) × (send_frames usb sleep dev ch fs w ≡ some r)
  unfolding send_frames
  send_frames_total [] w a = (_, refl)
  send_frames_total (f ∷ fs) w a =
      let ((rc, w'), e) = send_total f 1000 w a.0 in
      elim (Bool-cases (is_error rc)) [
        | inl x ↦ ((false, w'), rw (e, x) refl)
        | inr x ↦ rw (e, x) (send_frames_total fs w' a.1)
      ]

  send_rounds_total :
      (fs : List Frame) (interval_ms left : ℕ) (w : W)
      → AllFull fs
      → (r : Bool × W) × (send_rounds usb sleep dev ch fs interval_ms left w ≡ some r)
  unfolding send_rounds
  send_rounds_total fs interval_ms zero w a = (_, refl)
  send_rounds_total fs interval_ms (suc left) w a =
      let ((sent, w1), e) = send_frames_total fs w a in
      let w2 = if not (interval_ms == 0) && not (left == 0) then sleep interval_ms w1 else w1 in
      let (r, next) = send_rounds_total fs interval_ms left w2 a in
      elim (Bool-cases sent) [ inl x ↦ (r, rw (e, x) next) | inr x ↦ ((false, w2), rw (e, x) refl) ]

-- The exit code of `main` is 0 or 1.
abbrev pub IsExit : {W : Type 0} → ℕ × W → Type 0
IsExit r = r.0 ≤ 1

module _ {W F : Type 0} (usb : Usb W) (lib : Libusb W) (mem : Memory) (d : Double F) (fuel : ℕ)
    (sleep : ℕ → W → W) (limits : Reports usb (HasRoom fuel)) where
  run_session-Returns :
      (o : Options) (frames : List Frame) (dev : Dev) (w : W) (ch : Channel)
      → AllFull frames
      → IsQuiescent dev
      → get_elem? dev.channels o.channel ≡ some ch
      → Returns IsExit (run_session usb lib mem d fuel sleep o frames dev w)
  unfolding run_session
  run_session-Returns o frames dev w ch a q at =
      let ((sent, w1), e) = send_rounds_total usb sleep dev ch frames o.interval_ms o.repeat w a in
      let (w2, f) = shut_down_total usb lib dev o.channel ch w1 q at in
      ((if sent then 0 else 1, w2), rw (at, e, f) refl, ground arith)

  with_device-Returns :
      (o : Options) (frames : List Frame) (fd_mode : Bool) (dev : Dev) (w : W)
      → AllFull frames
      → IsQuiescent dev
      → AllLimits (HasRoom fuel) dev.channels
      → Returns IsExit (with_device usb lib mem d fuel sleep o frames fd_mode dev w)
  unfolding with_device
  with_device-Returns o frames fd_mode dev w a q l =
      let (r, e, k) =
        bring_up-IsReady usb d fuel dev o.channel fd_mode o.bitrate o.data_bitrate
          (mode_of fd_mode o.loopback) w q l in
      rw e (after r k)
    where
      after :
          (r : Ready W)
          → IsReady dev o.channel r
          → Returns IsExit (elim r as (λ x. Option (ℕ × W)) [
            | give_up w' ↦ some (1, w')
            | ready dev' w' ↦ run_session usb lib mem d fuel sleep o frames dev' w'
          ])
      after r (with_channel dev' w' old ch q' at at' s) =
          run_session-Returns o frames dev' w' ch a q' at'
      after r (without w') = ((1, w'), refl, omega arith)

  with_frames-Returns :
      (o : Options) (frames : List Frame) (fd_mode : Bool) (w : W)
      → AllFull frames
      → Returns IsExit (with_frames usb lib mem d fuel sleep o frames fd_mode w)
  unfolding with_frames
  with_frames-Returns o frames fd_mode w a =
      let (rc, w1) = gsusb_init lib w in
      elim (Bool-cases (is_error rc)) [
        | inl e ↦ ((1, w1), rw e refl, omega arith)
        | inr e ↦ rw e (
            after (tool_open usb lib mem o.vid o.pid o.bus o.addr w1)
              (tool_open-AtRest usb lib mem (HasRoom fuel) limits o.vid o.pid o.bus o.addr w1))
      ]
    where
      after :
          (r : Opened W)
          → Gives (λ dev. IsOpened dev × AllLimits (HasRoom fuel) dev.channels) r
          → Returns IsExit (elim r as (λ x. Option (ℕ × W)) [
            | opened dev w2 ↦ with_device usb lib mem d fuel sleep o frames fd_mode dev w2
            | null w2 ↦ some (1, w2)
            | fault ↦ none
          ])
      after (opened dev w2) g = with_device-Returns o frames fd_mode dev w2 a g.0.quiescent g.1
      after (null w2) g = ((1, w2), refl, omega arith)
      after fault g = absurd g

  pub gsusb_send-Returns :
      (o : Options) (allocated : Bool) (words : List (List ℕ)) (w : W)
      → Returns IsExit (gsusb_send usb lib mem d fuel sleep o allocated words w)
  unfolding gsusb_send
  gsusb_send-Returns o allocated [] w = ((1, w), refl, omega arith)
  gsusb_send-Returns o false (word ∷ words) w = ((1, w), refl, omega arith)
  gsusb_send-Returns o true (word ∷ words) w =
      after (parse_words (word ∷ words) o.fd_mode) (parse_words-Words (word ∷ words) o.fd_mode)
    where
      after :
          (r : Parsed (List Frame × Bool))
          → Words r
          → Returns IsExit (elim r as (λ x. Option (ℕ × W)) [
            | refused ↦ some (1, w)
            | overrun ↦ none
            | parsed (frames, fd_mode) ↦ with_frames usb lib mem d fuel sleep o frames fd_mode w
          ])
      after r bad = ((1, w), refl, omega arith)
      after r (good frames fd a) = with_frames-Returns o frames fd w a

  -- When libusb fills the buffers it is asked to fill, and the limits that the devices report leave room
  -- for one more step of the prescaler below 2^32 and are less than the fuel, `gsusb_send` ends with
  -- exit code 0 or 1 on every command line, whatever libusb and pthreads answer and whatever memory is
  -- left: no search goes on and nothing is read or written out of bounds.
  pub send_main-Returns :
      (getopt : GetoptLong) (argv : List (List ℕ)) (allocated : Bool) (w : W)
      → Returns IsExit (send_main getopt usb lib mem d fuel sleep argv allocated w)
  unfolding send_main
  send_main-Returns getopt argv allocated w =
      after (choose apply_option defaults (getopt argv).0)
        (choose-IsUsage apply_option defaults (getopt argv).0)
    where
      after :
          (c : Chosen Options)
          → IsUsage c
          → Returns IsExit (elim c as (λ x. Option (ℕ × W)) [
            | usage code ↦ some (code, w)
            | chosen o ↦ gsusb_send usb lib mem d fuel sleep o allocated (getopt argv).1 w
          ])
      after (usage code) u = ((code, w), refl, u)
      after (chosen o) u = gsusb_send-Returns o allocated (getopt argv).1 w
