-- ===== src/Tools/Send/Main.antt =====
-- driver/tools/gsusb_send.c: the options of `main`, and the whole of it.
use gs_usb_user.Base.{ℕ, Bool, true, false, Option, none, some, List, ◌==◌, if◌then◌else◌}
use gs_usb_user.Base.Int.{pos, negsuc}
use gs_usb_user.Usb.{Usb}
use gs_usb_user.Timing.{Double}
use gs_usb_user.Open.Device.{Libusb, Memory}
use gs_usb_user.Tools.Text.Numbers.{atoi, atou, decimal_u32, hex_int}
use gs_usb_user.Tools.Args.{Given, chosen, usage, choose, GetoptLong}
use gs_usb_user.Tools.Send.{Options, gsusb_send}

abbrev pub defaults : Options
defaults = record {
  vid = pos 0;
  pid = pos 0;
  bus = negsuc 0;
  addr = negsuc 0;
  channel = 0;
  bitrate = 500_000;
  data_bitrate = 2_000_000;
  fd_mode = false;
  loopback = false;
  repeat = 1;
  interval_ms = 0;
}

unfoldable pub apply_option : Options → Given → Option Options
apply_option o g =
    let s = g.optarg in
    let c = g.letter in
    if c == b'v'
    then some (record o { vid = hex_int s })
    else if c == b'p'
    then some (record o { pid = hex_int s })
    else if c == b'b'
    then some (record o { bus = atoi s })
    else if c == b'a'
    then some (record o { addr = atoi s })
    else if c == b'c'
    then some (record o { channel = atou s })
    else if c == b'r'
    then some (record o { bitrate = decimal_u32 s })
    else if c == b'd'
    then some (record o { data_bitrate = decimal_u32 s })
    else if c == b'f'
    then some (record o { fd_mode = true })
    else if c == b'L'
    then some (record o { loopback = true })
    else if c == b'R'
    then some (record o { repeat = atou s })
    else if c == b'i'
    then some (record o { interval_ms = atou s })
    else none

module _ {W F : Type 0} (getopt : GetoptLong) (usb : Usb W) (lib : Libusb W) (mem : Memory)
    (d : Double F) (fuel : ℕ) (sleep : ℕ → W → W) where
  -- the exit code; `none` as in `gsusb_send`
  unfoldable pub send_main : List (List ℕ) → Bool → W → Option (ℕ × W)
  send_main argv allocated w =
      let (options, words) = getopt argv in
      elim (choose apply_option defaults options) [
        | usage code ↦ some (code, w)
        | chosen o ↦ gsusb_send usb lib mem d fuel sleep o allocated words w
      ]
