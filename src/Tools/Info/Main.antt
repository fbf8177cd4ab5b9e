-- ===== src/Tools/Info/Main.antt =====
-- driver/tools/gsusb_info.c: the options of `main`, and the whole of it.
use gs_usb_user.Base.{
  ℕ, zero, suc, ◌+◌, Bool, true, false, Option, none, some, List, [], ◌++◌, ◌==◌, ◌>>=◌,
  if◌then◌else◌,
}
use gs_usb_user.Base.Int.{ℤ, pos, negsuc}
use gs_usb_user.Device.{Dev, channel_get}
use gs_usb_user.Status.{is_error}
use gs_usb_user.Usb.{Usb}
use gs_usb_user.Open.Device.{Libusb, Memory, opened, null, fault}
use gs_usb_user.Tools.Text.Numbers.{atoi, hex_int}
use gs_usb_user.Tools.Args.{Given, chosen, usage, choose, GetoptLong}
use gs_usb_user.Tools.Common.{gsusb_init, gsusb_exit, tool_open}
use gs_usb_user.Close.{gsusb_close}
use gs_usb_user.Tools.Info.{print_config, print_channel}
use gs_usb_user.Tools.Info.Scan.{Strings, do_scan}

pub record Options : Type 0 where
  pub vid : ℤ
  pub pid : ℤ
  pub bus : ℤ
  pub addr : ℤ
  pub scan : Bool

abbrev pub defaults : Options
defaults = record { vid = pos 0; pid = pos 0; bus = negsuc 0; addr = negsuc 0; scan = false }

unfoldable pub apply_option : Options → Given → Option Options
apply_option o g =
    let s = g.optarg in
    let c = g.letter in
    if c == b'v'
    then some (record o { vid = hex_int s })
    else if c == b'p'
    then some (record o { pid = hex_int s })
    else if c == b'b'
    then some (record o { bus = atoi s })
    else if c == b'a'
    then some (record o { addr = atoi s })
    else if c == b's'
    then some (record o { scan = true })
    else none

module _ {W : Type 0} (usb : Usb W) (lib : Libusb W) (mem : Memory) (strings : Strings W) where
  -- the loop over the channels, with those that are left, from channel `i` on
  unfoldable pub print_channels : ℕ → ℕ → Dev → W → Option (List ℕ × W)
  print_channels zero i dev w = some ([], w)
  print_channels (suc left) i dev w = do
    ch ← channel_get dev i
    (text, w1) ← print_channel usb i ch w
    (rest, w2) ← print_channels left (i + 1) dev w1
    some (text ++ rest, w2)

  -- what `main` does with the device
  unfoldable pub print_device : Dev → W → Option (ℕ × List ℕ × W)
  print_device dev w = do
    (text, w1) ← print_channels dev.channel_count 0 dev w
    w2 ← gsusb_close usb lib dev w1
    some (0, print_config dev.devconf ++ text, gsusb_exit lib w2)

  -- from `gsusb_init` on
  unfoldable pub info_with : Options → W → Option (ℕ × List ℕ × W)
  info_with o w =
      let (rc, w1) = gsusb_init lib w in
      if is_error rc
      then some (1, [], w1)
      else elim (tool_open usb lib mem o.vid o.pid o.bus o.addr w1) [
        | opened dev w2 ↦ print_device dev w2
        | null w2 ↦ some (1, [], w2)
        | fault ↦ none
      ]

  -- `do_scan`, whose `exit(1)` ends the program
  unfoldable pub scan_with : Options → W → ℕ × List ℕ × W
  scan_with o w =
      let (text, w1) = do_scan lib strings o.vid o.pid o.bus o.addr w in
      elim text [ none ↦ (1, [], w1) | some printed ↦ (0, printed, w1) ]

  -- the exit code and the text; `none` is an access out of bounds
  unfoldable pub info_main : GetoptLong → List (List ℕ) → W → Option (ℕ × List ℕ × W)
  info_main getopt argv w = elim (choose apply_option defaults (getopt argv).0) [
    | usage code ↦ some (code, [], w)
    | chosen o ↦ if o.scan then some (scan_with o w) else info_with o w
  ]
