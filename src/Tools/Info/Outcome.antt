-- ===== src/Tools/Info/Outcome.antt =====
-- gsusb_info.c ends, on any command line and whatever libusb answers.
use gs_usb_user.Base.{
  ℕ, zero, suc, ◌+◌, ◌≤◌, ◌≡◌, refl, Bool, true, false, Option, none, some, List, arith, has, leb,
  u16, length, get_elem?_total, ◌==◌, [], ◌++◌, Option-cases, Bool-cases, inl, inr, if◌then◌else◌,
}
use gs_usb_user.Device.{Channel, Dev, channel_get}
use gs_usb_user.Status.{Status, is_error}
use gs_usb_user.Rx.Safety.{get_le32_total}
use gs_usb_user.Usb.{Usb, Setup, ctrl_in}
use gs_usb_user.Wire.{Breq, termination_state_size, termination_state_on}
use gs_usb_user.Wire.Feature
use gs_usb_user.Control.{get_termination}
use gs_usb_user.Open.Device.{Libusb, Memory, Opened, opened, null, fault}
use gs_usb_user.Open.Outcome.{configure-Ends}
use gs_usb_user.Open.Fresh.{IsOpened}
use gs_usb_user.Open.Gives.{Gives, open_device-Gives}
use gs_usb_user.Tools.Args.{Chosen, chosen, usage, choose, GetoptLong}
use gs_usb_user.Tools.Args.Selection.{IsUsage, choose-IsUsage}
use gs_usb_user.Tools.Common.{gsusb_init, gsusb_exit, tool_open}
use gs_usb_user.Tools.Common.Gives.{tool_open-Gives}
use gs_usb_user.Tools.Session.Outcome.{Returns, mapped_total, gsusb_close_total}
use gs_usb_user.Tools.Info.{print_config, print_termination, print_channel, termination_text}
use gs_usb_user.Tools.Info.Scan.{Strings, do_scan}
use gs_usb_user.Tools.Info.Main.{
  Options, defaults, apply_option, print_channels, print_device, scan_with, info_with, info_main,
}

-- The exit code is 0 or 1.
abbrev pub IsExit : {W : Type 0} → ℕ × List ℕ × W → Type 0
IsExit r = r.0 ≤ 1

module _ {W : Type 0} (usb : Usb W) (lib : Libusb W) (mem : Memory) (strings : Strings W)
    (full : (s : Setup) (n : ℕ) (w : W) → length (usb.control_in s n w).1 ≡ n) where
  get_termination_total :
      (ch : Channel) (w : W) → (r : Status × Option Bool × W) × (get_termination usb ch w ≡ some r)
  unfolding get_termination ctrl_in
  get_termination_total ch w =
      let (rc, raw, w') =
        ctrl_in usb Breq.get_termination (u16 ch.index) 0 termination_state_size w in
      let (v, e) = get_le32_total raw 0 (omega (arith, full _ termination_state_size w)) in
      elim (Bool-cases (is_error rc)) [
        | inl x ↦ ((rc, none, w'), rw x refl)
        | inr x ↦ ((Status.ok, some (v == termination_state_on), w'), rw (x, e) refl)
      ]

  print_termination_total :
      (ch : Channel) (w : W) → (r : List ℕ × W) × (print_termination usb ch w ≡ some r)
  unfolding print_termination
  print_termination_total ch w =
      let ((rc, on, w'), e) = get_termination_total ch w in
      elim (Bool-cases (has ch.feature Feature.termination)) [
        | inl x ↦ ((termination_text rc on, w'), rw (x, e) refl)
        | inr x ↦ (([], w), rw x refl)
      ]

  print_channel_total :
      (i : ℕ) (ch : Channel) (w : W) → (r : List ℕ × W) × (print_channel usb i ch w ≡ some r)
  unfolding print_channel
  print_channel_total i ch w =
      let (r, e) = print_termination_total ch w in mapped_total (print_termination usb ch w) r _ e

  print_channels_total :
      (left i : ℕ) (dev : Dev) (w : W)
      → dev.channel_count ≡ length dev.channels
      → i + left ≤ dev.channel_count
      → (r : List ℕ × W) × (print_channels usb lib mem strings left i dev w ≡ some r)
  unfolding print_channels channel_get
  print_channels_total zero i dev w v h = (([], w), refl)
  print_channels_total (suc left) i dev w v h =
      let (ch, at) = get_elem?_total dev.channels i (omega arith) in
      let inside : leb dev.channel_count i ≡ false = ground arith in
      let ((text, w1), e) = print_channel_total i ch w in
      let ((rest, w2), f) = print_channels_total left (i + 1) dev w1 v (omega arith) in
      ((text ++ rest, w2), rw (inside, at, e, f) refl)

  print_device-Returns :
      (dev : Dev) (w : W) → IsOpened dev → Returns IsExit (print_device usb lib mem strings dev w)
  unfolding print_device
  print_device-Returns dev w v =
      let q = v.quiescent in
      let ((text, w1), e) =
        print_channels_total dev.channel_count 0 dev w q.valid.counted (omega arith) in
      let (w2, f) = gsusb_close_total usb lib dev w1 q in
      ((0, print_config dev.devconf ++ text, gsusb_exit lib w2), rw (e, f) refl, omega arith)

  info_with-Returns : (o : Options) (w : W) → Returns IsExit (info_with usb lib mem strings o w)
  unfolding info_with
  info_with-Returns o w =
      let (rc, w1) = gsusb_init lib w in
      elim (Bool-cases (is_error rc)) [
        | inl e ↦ ((1, [], w1), rw e refl, omega arith)
        | inr e ↦ rw e (
            after (tool_open usb lib mem o.vid o.pid o.bus o.addr w1) (
              tool_open-Gives usb lib mem IsOpened
                (open_device-Gives usb lib mem IsOpened (
                  configure-Ends usb full mem.dev_allocated mem.channels_allocated
                    mem.queue_allocated))
                o.vid o.pid o.bus o.addr w1))
      ]
    where
      after :
          (r : Opened W)
          → Gives IsOpened r
          → Returns IsExit (elim r as (λ x. Option (ℕ × List ℕ × W)) [
            | opened dev w2 ↦ print_device usb lib mem strings dev w2
            | null w2 ↦ some (1, [], w2)
            | fault ↦ none
          ])
      after (opened dev w2) g = print_device-Returns dev w2 g
      after (null w2) g = ((1, [], w2), refl, omega arith)
      after fault g = absurd g

  scan_with-IsExit : (o : Options) (w : W) → IsExit (scan_with usb lib mem strings o w)
  unfolding scan_with
  scan_with-IsExit o w = elim (Option-cases (do_scan lib strings o.vid o.pid o.bus o.addr w).0) [
    | inl e ↦ rw (e, scan_with) (omega arith)
    | inr (text, e) ↦ rw (e, scan_with) (omega arith)
  ]

  -- When libusb fills the buffers it is asked to fill, `gsusb_info` ends with exit code 0 or 1 on every
  -- command line, whatever else libusb answers, and reads nothing out of bounds: every channel up to the
  -- count that the device reports is there.
  pub info_main-Returns :
      (getopt : GetoptLong) (argv : List (List ℕ)) (w : W)
      → Returns IsExit (info_main usb lib mem strings getopt argv w)
  unfolding info_main
  info_main-Returns getopt argv w =
      after (choose apply_option defaults (getopt argv).0)
        (choose-IsUsage apply_option defaults (getopt argv).0)
    where
      act :
          (o : Options) (b : Bool)
          → Returns IsExit (
              if b
              then some (scan_with usb lib mem strings o w)
              else info_with usb lib mem strings o w)
      act o true = (scan_with usb lib mem strings o w, refl, scan_with-IsExit o w)
      act o false = info_with-Returns o w

      after :
          (c : Chosen Options)
          → IsUsage c
          → Returns IsExit (elim c as (λ x. Option (ℕ × List ℕ × W)) [
            | usage code ↦ some (code, [], w)
            | chosen o ↦
                if o.scan
                then some (scan_with usb lib mem strings o w)
                else info_with usb lib mem strings o w
          ])
      after (usage code) u = ((code, [], w), refl, u)
      after (chosen o) u = act o o.scan
