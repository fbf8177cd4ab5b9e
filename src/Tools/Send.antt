-- ===== src/Tools/Send.antt =====
-- driver/tools/gsusb_send.c: `main` behind the parsing of its options.
pub mod Rounds
pub mod Refusal
pub mod Main
pub mod Termination
pub mod Selection
pub mod Success
pub mod Steps
use gs_usb_user.Base.{
  ℕ, zero, suc, Bool, true, false, Option, none, some, List, [], ◌∷◌, ◌==◌, ◌&&◌, ◌||◌, not, has,
  or_if, get_elem?, ◌>>=◌, if◌then◌else◌,
}
use gs_usb_user.Base.Int.{ℤ}
use gs_usb_user.Frame.{Frame, frame_fd}
use gs_usb_user.Device.{Channel, Dev}
use gs_usb_user.Status.{Status, is_error}
use gs_usb_user.Usb.{Usb}
use gs_usb_user.Timing.{Double}
use gs_usb_user.Tx.{send}
use gs_usb_user.Lifecycle.ModeFlag
use gs_usb_user.Open.Device.{Libusb, Memory, Opened, opened, null, fault}
use gs_usb_user.Tools.Parse.{Parsed, parsed, refused, overrun, parse_frame}
use gs_usb_user.Tools.Common.{gsusb_init, tool_open}
use gs_usb_user.Tools.Session.{Ready, ready, give_up, bring_up, shut_down}

-- the options, as `main` keeps them
pub record Options : Type 0 where
  pub vid : ℤ
  pub pid : ℤ
  pub bus : ℤ
  pub addr : ℤ
  pub channel : ℕ
  pub bitrate : ℕ
  pub data_bitrate : ℕ
  pub fd_mode : Bool
  pub loopback : Bool
  pub repeat : ℕ
  pub interval_ms : ℕ

-- the loop over the words: `frames`, and `fd_mode` after it
unfoldable pub parse_words : List (List ℕ) → Bool → Parsed (List Frame × Bool)
parse_words [] fd_mode = parsed ([], fd_mode)
parse_words (word ∷ words) fd_mode = elim (parse_frame word) [
  | refused ↦ refused
  | overrun ↦ overrun
  | parsed f ↦ elim (parse_words words (fd_mode || has f.flags frame_fd)) [
    | refused ↦ refused
    | overrun ↦ overrun
    | parsed (frames, fd) ↦ parsed (f ∷ frames, fd)
  ]
]

-- `mode`
abbrev pub mode_of : Bool → Bool → ℕ
mode_of fd_mode loopback = or_if loopback ModeFlag.loopback (or_if fd_mode ModeFlag.fd 0)

module _ {W : Type 0} (usb : Usb W) (sleep : ℕ → W → W) where
  -- the inner loop: whether every frame was sent
  unfoldable pub send_frames : Dev → Channel → List Frame → W → Option (Bool × W)
  send_frames dev ch [] w = some (true, w)
  send_frames dev ch (f ∷ fs) w = do
    (rc, w') ← send usb dev ch f 1000 w
    if is_error rc then some (false, w') else send_frames dev ch fs w'

  -- the outer loop, with the rounds that are left; the pause stands behind the inner loop, whether
  -- that failed or not
  unfoldable pub send_rounds : Dev → Channel → List Frame → ℕ → ℕ → W → Option (Bool × W)
  send_rounds dev ch frames interval_ms zero w = some (true, w)
  send_rounds dev ch frames interval_ms (suc left) w = do
    (good, w1) ← send_frames dev ch frames w
    let w2 = if not (interval_ms == 0) && not (left == 0) then sleep interval_ms w1 else w1 in
        if good then send_rounds dev ch frames interval_ms left w2 else some (false, w2)

module _ {W F : Type 0} (usb : Usb W) (lib : Libusb W) (mem : Memory) (d : Double F) (fuel : ℕ)
    (sleep : ℕ → W → W) where
  -- the rounds, and what follows them
  unfoldable pub run_session : Options → List Frame → Dev → W → Option (ℕ × W)
  run_session o frames dev w = do
    ch ← get_elem? dev.channels o.channel
    (good, w1) ← send_rounds usb sleep dev ch frames o.interval_ms o.repeat w
    w2 ← shut_down usb lib dev o.channel w1
    some (if good then 0 else 1, w2)

  -- what `main` does with the device
  unfoldable pub with_device : Options → List Frame → Bool → Dev → W → Option (ℕ × W)
  with_device o frames fd_mode dev w = do
    r ←
        bring_up usb d fuel dev o.channel fd_mode o.bitrate o.data_bitrate
          (mode_of fd_mode o.loopback) w
    elim r [ give_up w' ↦ some (1, w') | ready dev' w' ↦ run_session o frames dev' w' ]

  -- from `gsusb_init` on
  unfoldable pub with_frames : Options → List Frame → Bool → W → Option (ℕ × W)
  with_frames o frames fd_mode w =
      let (rc, w1) = gsusb_init lib w in
      if is_error rc
      then some (1, w1)
      else elim (tool_open usb lib mem o.vid o.pid o.bus o.addr w1) [
        | opened dev w2 ↦ with_device o frames fd_mode dev w2
        | null w2 ↦ some (1, w2)
        | fault ↦ none
      ]

  -- the exit code; `allocated` is whether `calloc` gave the frames, and `none` is a bit-timing search
  -- that goes on or an access out of bounds
  unfoldable pub gsusb_send : Options → Bool → List (List ℕ) → W → Option (ℕ × W)
  gsusb_send o allocated [] w = some (1, w)
  gsusb_send o allocated (word ∷ words) w =
      if not allocated then some (1, w) else elim (parse_words (word ∷ words) o.fd_mode) [
        | refused ↦ some (1, w)
        | overrun ↦ none
        | parsed (frames, fd_mode) ↦ with_frames o frames fd_mode w
      ]
