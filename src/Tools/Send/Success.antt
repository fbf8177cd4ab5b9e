-- ===== src/Tools/Send/Success.antt =====
-- gsusb_send.c: what its exit code 0 promises.
use gs_usb_user.Base.{
  ℕ, ◌≡◌, ◌≤◌, suc, zero, refl, sym, ℕ_discrete, ap, ◌∙◌, Bool, true, false, Option, none, some,
  List, [], ◌∷◌, arith, ◌==◌, not, get_elem?, Bool-cases, inl, inr, >>=-eq-some,
}
use gs_usb_user.Frame.{Frame}
use gs_usb_user.Device.{Channel, Dev}
use gs_usb_user.Status.{is_error}
use gs_usb_user.Usb.{Usb}
use gs_usb_user.Timing.{Double}
use gs_usb_user.Open.Device.{Libusb, Memory, Opened, opened, null, fault}
use gs_usb_user.Tools.Common.{gsusb_init, tool_open}
use gs_usb_user.Tools.Parse.{Parsed, parsed, refused, overrun}
use gs_usb_user.Tools.Session.{Ready, ready, give_up, bring_up, shut_down}
use gs_usb_user.Tools.Send.{
  Options, parse_words, mode_of, send_rounds, run_session, with_device, with_frames, gsusb_send,
}
use gs_usb_user.Tools.Session.Outcome.{Returns}
use gs_usb_user.Timing.Halts.{HasRoom}
use gs_usb_user.Open.Limits.{Reports}
use gs_usb_user.Tools.Send.Termination.{gsusb_send-Returns}
use gs_usb_user.Tools.Args.{Given, Chosen, chosen, usage, choose, GetoptLong}
use gs_usb_user.Tools.Args.Selection.{IsUsage, choose-IsUsage}
use gs_usb_user.Tools.Send.Main.{defaults, apply_option, send_main}
use gs_usb_user.Tools.Session.Calls.{Started, Ended, bring_up-Started, shut_down-Ended}
use gs_usb_user.Tools.Send.Rounds.{schedule, send_rounds-schedule}
use gs_usb_user.Tools.Send.Steps.{Done, run_steps-Done}

module _ {W F : Type 0} (usb : Usb W) (lib : Libusb W) (mem : Memory) (d : Double F) (fuel : ℕ)
    (sleep : ℕ → W → W) where
  -- What lies behind an exit with 0: the words were read as frames, the channel was started on the
  -- device that was opened, every step of all rounds was done on it, and then it was stopped, the
  -- device closed and libusb left.
  pub record Delivered (o : Options) (words : List (List ℕ)) (w w' : W) : Type 0 where
    pub frames : List Frame
    pub fd_mode : Bool
    pub read : parse_words words o.fd_mode ≡ parsed (frames, fd_mode)
    pub found : Dev
    pub dev : Dev
    pub ch : Channel
    pub opening : W
    pub begin : W
    pub end : W
    pub begun : is_error (gsusb_init lib w).0 ≡ false
    pub open_ok :
        tool_open usb lib mem o.vid o.pid o.bus o.addr (gsusb_init lib w).1 ≡ opened found opening
    pub started :
        Started usb d fuel found o.channel fd_mode o.bitrate o.data_bitrate
          (mode_of fd_mode o.loopback)
          opening
          dev
          begin
    pub at : get_elem? dev.channels o.channel ≡ some ch
    pub done :
        Done usb sleep dev ch o.interval_ms
          (schedule frames (not (o.interval_ms == 0)) o.repeat)
          begin
          end
    pub ended : Ended usb lib dev o.channel end w'

  -- what the exit code of a command line says
  pub data IsTold (argv : List Given × List (List ℕ)) (w : W) : ℕ × W → Type 0 where
    failed : (w' : W) → IsTold argv w (1, w')
    -- `-h`, before anything else is done
    helped : choose apply_option defaults argv.0 ≡ usage 0 → IsTold argv w (0, w)
    sent_all :
        (o : Options) (w' : W)
        → choose apply_option defaults argv.0 ≡ chosen o
        → Delivered o argv.1 w w'
        → IsTold argv w (0, w')

  run_session-Delivered :
      (o : Options) (words : List (List ℕ)) (frames : List Frame) (fd_mode : Bool) (found dev : Dev)
      (w opening begin w' : W)
      → parse_words words o.fd_mode ≡ parsed (frames, fd_mode)
      → is_error (gsusb_init lib w).0 ≡ false
      → tool_open usb lib mem o.vid o.pid o.bus o.addr (gsusb_init lib w).1 ≡ opened found opening
      → bring_up usb d fuel found o.channel fd_mode o.bitrate o.data_bitrate
          (mode_of fd_mode o.loopback)
          opening
        ≡ some (ready dev begin)
      → run_session usb lib mem d fuel sleep o frames dev begin ≡ some (0, w')
      → Delivered o words w w'
  unfolding run_session
  run_session-Delivered o words frames fd_mode found dev w opening begin w' read begun open_ok
        started h =
      let (ch, at, h1) = >>=-eq-some (get_elem? dev.channels o.channel) _ h in
      let ((good, end), e, h2) =
        >>=-eq-some (send_rounds usb sleep dev ch frames o.interval_ms o.repeat begin) _ h1 in
      let (w2, closed, h3) = >>=-eq-some (shut_down usb lib dev o.channel end) _ h2 in
      let all : good ≡ true = ground (arith, h3) in
      let last : w2 ≡ w' = cc in
      record {
        frames = frames;
        fd_mode = fd_mode;
        read = read;
        found = found;
        dev = dev;
        ch = ch;
        opening = opening;
        begin = begin;
        end = end;
        begun = begun;
        open_ok = open_ok;
        started =
            bring_up-Started usb d fuel found o.channel fd_mode o.bitrate o.data_bitrate
              (mode_of fd_mode o.loopback) opening dev begin started;
        at = at;
        done =
            run_steps-Done usb sleep dev ch o.interval_ms
              (schedule frames (not (o.interval_ms == 0)) o.repeat) begin end
              (sym (send_rounds-schedule usb sleep dev ch o.interval_ms frames o.repeat begin)
                ∙ e
                ∙ ap (λ g. some (g, end)) all);
        ended = shut_down-Ended usb lib dev o.channel end w' (closed ∙ ap some last);
      }

  with_device-Delivered :
      (o : Options) (words : List (List ℕ)) (frames : List Frame) (fd_mode : Bool) (found : Dev)
      (w opening w' : W)
      → parse_words words o.fd_mode ≡ parsed (frames, fd_mode)
      → is_error (gsusb_init lib w).0 ≡ false
      → tool_open usb lib mem o.vid o.pid o.bus o.addr (gsusb_init lib w).1 ≡ opened found opening
      → with_device usb lib mem d fuel sleep o frames fd_mode found opening ≡ some (0, w')
      → Delivered o words w w'
  unfolding with_device
  with_device-Delivered o words frames fd_mode found w opening w' read begun open_ok h =
      let (r, started, h1) =
        >>=-eq-some
          (bring_up usb d fuel found o.channel fd_mode o.bitrate o.data_bitrate
            (mode_of fd_mode o.loopback) opening)
          _ h in
      after r started h1
    where
      after :
          (r : Ready W)
          → bring_up usb d fuel found o.channel fd_mode o.bitrate o.data_bitrate
              (mode_of fd_mode o.loopback)
              opening
            ≡ some r
          → (elim r as (λ x. Option (ℕ × W)) [
            | give_up w2 ↦ some (1, w2)
            | ready dev w2 ↦ run_session usb lib mem d fuel sleep o frames dev w2
          ])
            ≡ some (0, w')
          → Delivered o words w w'
      after (ready dev begin) started h1 =
          run_session-Delivered o words frames fd_mode found dev w opening begin w' read begun
            open_ok started h1
      after (give_up w2) started h1 = absurd (ground (arith, h1))

  with_frames-Delivered :
      (o : Options) (words : List (List ℕ)) (frames : List Frame) (fd_mode : Bool) (w w' : W)
      → parse_words words o.fd_mode ≡ parsed (frames, fd_mode)
      → with_frames usb lib mem d fuel sleep o frames fd_mode w ≡ some (0, w')
      → Delivered o words w w'
  unfolding with_frames
  with_frames-Delivered o words frames fd_mode w w' read h =
      let w1 = (gsusb_init lib w).1 in
      elim (Bool-cases (is_error (gsusb_init lib w).0)) [
        | inl bad ↦ absurd (ground (arith, bad, h))
        | inr good ↦
            after good (tool_open usb lib mem o.vid o.pid o.bus o.addr w1) refl
              (ground (arith, good, h))
      ]
    where
      after :
          is_error (gsusb_init lib w).0 ≡ false
          → (r : Opened W) → tool_open usb lib mem o.vid o.pid o.bus o.addr (gsusb_init lib w).1 ≡ r
          → (elim r as (λ x. Option (ℕ × W)) [
            | opened dev w2 ↦ with_device usb lib mem d fuel sleep o frames fd_mode dev w2
            | null w2 ↦ some (1, w2)
            | fault ↦ none
          ])
            ≡ some (0, w')
          → Delivered o words w w'
      after begun (opened found w2) open_ok h1 =
          with_device-Delivered o words frames fd_mode found w w2 w' read begun open_ok h1
      after begun (null w2) open_ok h1 = absurd (ground (arith, h1))
      after begun fault open_ok h1 = absurd (ground (arith, h1))

  gsusb_send-Delivered :
      (o : Options) (allocated : Bool) (words : List (List ℕ)) (w w' : W)
      → gsusb_send usb lib mem d fuel sleep o allocated words w ≡ some (0, w')
      → Delivered o words w w'
  unfolding gsusb_send
  gsusb_send-Delivered o allocated [] w w' h = absurd (ground (arith, h))
  gsusb_send-Delivered o false (word ∷ words) w w' h = absurd (ground (arith, h))
  gsusb_send-Delivered o true (word ∷ words) w w' h =
      after (parse_words (word ∷ words) o.fd_mode) refl h
    where
      after :
          (r : Parsed (List Frame × Bool))
          → parse_words (word ∷ words) o.fd_mode ≡ r
          → (elim r as (λ x. Option (ℕ × W)) [
            | refused ↦ some (1, w)
            | overrun ↦ none
            | parsed (frames, fd_mode) ↦ with_frames usb lib mem d fuel sleep o frames fd_mode w
          ])
            ≡ some (0, w')
          → Delivered o (word ∷ words) w w'
      after refused read h1 = absurd (ground (arith, h1))
      after overrun read h1 = absurd (ground (arith, h1))
      after (parsed (frames, fd_mode)) read h1 =
          with_frames-Delivered o (word ∷ words) frames fd_mode w w' read h1

  gsusb_send-IsTold :
      (argv : List Given × List (List ℕ)) (o : Options) (allocated : Bool) (w : W)
      → Reports usb (HasRoom fuel)
      → choose apply_option defaults argv.0 ≡ chosen o
      → Returns (IsTold argv w) (gsusb_send usb lib mem d fuel sleep o allocated argv.1 w)
  gsusb_send-IsTold argv o allocated w limits e =
      let ((code, w'), back, l) =
        gsusb_send-Returns usb lib mem d fuel sleep limits o allocated argv.1 w in
      elim (ℕ_discrete code 0) [
        | yes z ↦
            let ended : gsusb_send usb lib mem d fuel sleep o allocated argv.1 w ≡ some (0, w') =
              back ∙ ap (λ (c : ℕ). some (c, w')) z in
            ((0, w'), ended, sent_all o w' e (gsusb_send-Delivered o allocated argv.1 w w' ended))
        | no nz ↦
            let one : code ≡ 1 = omega arith in
            ((1, w'), back ∙ ap (λ (c : ℕ). some (c, w')) one, failed w')
      ]

  -- When libusb fills the buffers it is asked to fill, and the limits that the devices report leave room
  -- for one more step of the prescaler below 2^32 and are less than the fuel, `gsusb_send` ends on
  -- every command line, and its exit code tells how. It is 1; or it is 0 after the usage text that was
  -- asked for, nothing else having been done; or it is 0 and every message of the command line was
  -- read as a frame, libusb was initialised and a device opened, its channel was given the bitrate asked
  -- for, the data bitrate too for CAN-FD, and was started, each without an error, every frame of every
  -- round was handed over without an error and every pause between two rounds was made, in the order
  -- of the schedule, and then `gsusb_channel_stop`, `gsusb_close` and `gsusb_exit` were called, in this
  -- order, and returned.
  pub send_main-IsTold :
      Reports usb (HasRoom fuel)
      → (getopt : GetoptLong) (words : List (List ℕ)) (allocated : Bool) (w : W)
      → Returns
          (IsTold (getopt words) w)
          (send_main getopt usb lib mem d fuel sleep words allocated w)
  unfolding send_main
  send_main-IsTold limits getopt words allocated w =
      after (choose apply_option defaults (getopt words).0) refl
        (choose-IsUsage apply_option defaults (getopt words).0)
    where
      help :
          (code : ℕ)
          → code ≤ 1
          → choose apply_option defaults (getopt words).0 ≡ usage code
          → Returns (IsTold (getopt words) w) (some (code, w))
      help zero l e = ((0, w), refl, helped e)
      help (suc zero) l e = ((1, w), refl, failed w)
      help (suc (suc n)) l e = absurd (omega arith)

      after :
          (c : Chosen Options)
          → choose apply_option defaults (getopt words).0 ≡ c
          → IsUsage c
          → Returns (IsTold (getopt words) w) (elim c as (λ x. Option (ℕ × W)) [
            | usage code ↦ some (code, w)
            | chosen o ↦ gsusb_send usb lib mem d fuel sleep o allocated (getopt words).1 w
          ])
      after (usage code) e u = help code u e
      after (chosen o) e u = gsusb_send-IsTold (getopt words) o allocated w limits e
