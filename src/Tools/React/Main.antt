-- ===== src/Tools/React/Main.antt =====
-- driver/tools/gsusb_react.c: the options of `main`, and what stands before and behind its loop.
use gs_usb_user.Base.{
  ℕ, Bool, true, false, Option, none, some, List, ◌==◌, get_elem?, if◌then◌else◌,
}
use gs_usb_user.Base.Int.{ℤ, pos, negsuc}
use gs_usb_user.Device.{Dev}
use gs_usb_user.Status.{is_error}
use gs_usb_user.Usb.{Usb}
use gs_usb_user.Timing.{Double}
use gs_usb_user.Lifecycle.ModeFlag
use gs_usb_user.Open.Device.{Libusb, Memory, opened, null}
use gs_usb_user.Tools.Text.Numbers.{atoi, atou, decimal_u32, hex_u32, hex_int}
use gs_usb_user.Tools.Args.{Given, chosen, usage, choose, GetoptLong}
use gs_usb_user.Tools.Common.{gsusb_init, tool_open}
use gs_usb_user.Tools.Session.{ready, give_up, Ended, exits, goes_on, fault, bring_up, finish_tool}
use gs_usb_user.Tools.React.{Turn, Watch, left, running, blocked, crash, watch}

pub record Options : Type 0 where
  pub vid : ℤ
  pub pid : ℤ
  pub bus : ℤ
  pub addr : ℤ
  pub channel : ℕ
  pub bitrate : ℕ
  pub loopback : Bool
  pub key_id : ℕ
  pub resp_id : ℕ

abbrev pub defaults : Options
defaults = record {
  vid = pos 0;
  pid = pos 0;
  bus = negsuc 0;
  addr = negsuc 0;
  channel = 0;
  bitrate = 500_000;
  loopback = false;
  key_id = 0x100;
  resp_id = 0x200;
}

unfoldable pub apply_option : Options → Given → Option Options
apply_option o g =
    let s = g.optarg in
    let c = g.letter in
    if c == b'v'
    then some (record o { vid = hex_int s })
    else if c == b'p'
    then some (record o { pid = hex_int s })
    else if c == b'b'
    then some (record o { bus = atoi s })
    else if c == b'a'
    then some (record o { addr = atoi s })
    else if c == b'c'
    then some (record o { channel = atou s })
    else if c == b'r'
    then some (record o { bitrate = decimal_u32 s })
    else if c == b'k'
    then some (record o { key_id = hex_u32 s })
    else if c == b'R'
    then some (record o { resp_id = hex_u32 s })
    else if c == b'L'
    then some (record o { loopback = true })
    else none

module _ {W F : Type 0} (usb : Usb W) (lib : Libusb W) (mem : Memory) (d : Double F)
    (fuel : ℕ) where
  -- behind the loop
  unfoldable pub after_watch : Dev → ℕ → Watch W → Ended W
  after_watch dev channel (left st) = elim (finish_tool usb lib dev channel st.channel st.world) [
    | none ↦ fault
    | some w ↦ exits 0 w
  ]
  after_watch dev channel (running st) = goes_on
  after_watch dev channel (blocked st) = goes_on
  after_watch dev channel crash = fault

  -- the loop, and what follows it
  unfoldable pub react_loop : Options → List Turn → Dev → W → Ended W
  react_loop o turns dev w = elim (get_elem? dev.channels o.channel) [
    | none ↦ fault
    | some ch ↦ after_watch dev o.channel (
        watch usb dev o.key_id o.resp_id turns
          (record { channel = ch; seen = 0; reacted = 0; world = w }))
  ]

  -- what `main` does with the device
  unfoldable pub react_device : Options → List Turn → Dev → W → Ended W
  react_device o turns dev w =
      let mode = if o.loopback then ModeFlag.loopback else 0 in
      elim (bring_up usb d fuel dev o.channel false o.bitrate 0 mode w) [
        | none ↦ fault
        | some r ↦ elim r [ give_up w' ↦ exits 1 w' | ready dev' w' ↦ react_loop o turns dev' w' ]
      ]

  -- from `gsusb_init` on
  unfoldable pub react_with : Options → List Turn → W → Ended W
  react_with o turns w =
      let (rc, w1) = gsusb_init lib w in
      if is_error rc then exits 1 w1 else elim (tool_open usb lib mem o.vid o.pid o.bus o.addr w1) [
        | opened dev w2 ↦ react_device o turns dev w2
        | null w2 ↦ exits 1 w2
        | gs_usb_user.Open.Device.Opened.fault ↦ fault
      ]

  unfoldable pub react_main : GetoptLong → List (List ℕ) → List Turn → W → Ended W
  react_main getopt argv turns w = elim (choose apply_option defaults (getopt argv).0) [
    | usage code ↦ exits code w
    | chosen o ↦ react_with o turns w
  ]
