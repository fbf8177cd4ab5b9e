-- ===== src/Tools/Dump/Main.antt =====
-- driver/tools/gsusb_dump.c: the options of `main`, and what stands before and behind its loop.
use gs_usb_user.Base.{
  ℕ, Bool, true, false, Option, none, some, List, [], ◌==◌, get_elem?, or_if, if◌then◌else◌,
}
use gs_usb_user.Base.Int.{ℤ, pos, negsuc}
use gs_usb_user.Device.{Dev}
use gs_usb_user.Status.{is_error}
use gs_usb_user.Usb.{Usb}
use gs_usb_user.Timing.{Double}
use gs_usb_user.Lifecycle.ModeFlag
use gs_usb_user.Open.Device.{Libusb, Memory, opened, null}
use gs_usb_user.Tools.Text.Numbers.{atoi, atou, decimal_u32, hex_int}
use gs_usb_user.Tools.Args.{Given, chosen, usage, choose, GetoptLong}
use gs_usb_user.Tools.Common.{gsusb_init, tool_open}
use gs_usb_user.Tools.Session.{ready, give_up, Ended, exits, goes_on, fault, bring_up, finish_tool}
use gs_usb_user.Tools.React.{Turn}
use gs_usb_user.Tools.Dump.{Listening, left, running, blocked, crash, listen}

pub record Options : Type 0 where
  pub vid : ℤ
  pub pid : ℤ
  pub bus : ℤ
  pub addr : ℤ
  pub channel : ℕ
  pub bitrate : ℕ
  pub data_bitrate : ℕ
  pub fd_mode : Bool
  pub loopback : Bool
  pub listen_only : Bool

abbrev pub defaults : Options
defaults = record {
  vid = pos 0;
  pid = pos 0;
  bus = negsuc 0;
  addr = negsuc 0;
  channel = 0;
  bitrate = 500_000;
  data_bitrate = 2_000_000;
  fd_mode = false;
  loopback = false;
  listen_only = false;
}

unfoldable pub apply_option : Options → Given → Option Options
apply_option o g =
    let s = g.optarg in
    let c = g.letter in
    if c == b'v'
    then some (record o { vid = hex_int s })
    else if c == b'p'
    then some (record o { pid = hex_int s })
    else if c == b'b'
    then some (record o { bus = atoi s })
    else if c == b'a'
    then some (record o { addr = atoi s })
    else if c == b'c'
    then some (record o { channel = atou s })
    else if c == b'r'
    then some (record o { bitrate = decimal_u32 s })
    else if c == b'd'
    then some (record o { data_bitrate = decimal_u32 s })
    else if c == b'f'
    then some (record o { fd_mode = true })
    else if c == b'L'
    then some (record o { loopback = true })
    else if c == b'l'
    then some (record o { listen_only = true })
    else none

-- `mode`
abbrev pub mode_of : Options → ℕ
mode_of o =
    or_if o.listen_only ModeFlag.listen_only
      (or_if o.loopback ModeFlag.loopback (or_if o.fd_mode ModeFlag.fd 0))

-- what `main` has printed, and the other side
abbrev pub Printed : Type 0 → Type 0
Printed W = List (List ℕ) × W

module _ {W F : Type 0} (stamp : ℕ → List ℕ) (usb : Usb W) (lib : Libusb W) (mem : Memory)
    (d : Double F) (fuel : ℕ) where
  -- behind the loop
  unfoldable pub after_listen : Dev → ℕ → Listening → W → Ended (Printed W)
  after_listen dev channel (left lines ch) w = elim (finish_tool usb lib dev channel ch w) [
    | none ↦ fault
    | some w' ↦ exits 0 (lines, w')
  ]
  after_listen dev channel (running lines ch) w = goes_on
  after_listen dev channel (blocked lines ch) w = goes_on
  after_listen dev channel crash w = fault

  -- the loop, and what follows it
  unfoldable pub dump_loop : Options → List Turn → Dev → W → Ended (Printed W)
  dump_loop o turns dev w = elim (get_elem? dev.channels o.channel) [
    | none ↦ fault
    | some ch ↦ after_listen dev o.channel (listen stamp o.channel turns ch []) w
  ]

  -- what `main` does with the device
  unfoldable pub dump_device : Options → List Turn → Dev → W → Ended (Printed W)
  dump_device o turns dev w =
      elim (bring_up usb d fuel dev o.channel o.fd_mode o.bitrate o.data_bitrate (mode_of o) w) [
        | none ↦ fault
        | some r ↦ elim r [
          | give_up w' ↦ exits 1 ([], w')
          | ready dev' w' ↦ dump_loop o turns dev' w'
        ]
      ]

  -- from `gsusb_init` on
  unfoldable pub dump_with : Options → List Turn → W → Ended (Printed W)
  dump_with o turns w =
      let (rc, w1) = gsusb_init lib w in
      if is_error rc
      then exits 1 ([], w1)
      else elim (tool_open usb lib mem o.vid o.pid o.bus o.addr w1) [
        | opened dev w2 ↦ dump_device o turns dev w2
        | null w2 ↦ exits 1 ([], w2)
        | gs_usb_user.Open.Device.Opened.fault ↦ fault
      ]

  unfoldable pub dump_main : GetoptLong → List (List ℕ) → List Turn → W → Ended (Printed W)
  dump_main getopt argv turns w = elim (choose apply_option defaults (getopt argv).0) [
    | usage code ↦ exits code ([], w)
    | chosen o ↦ dump_with o turns w
  ]
