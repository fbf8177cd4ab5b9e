-- ===== src/Examples/Commands.antt =====
-- Whole runs of the tools.
use gs_usb_user.Base.{
  Bool, true, false, inl, ℕ, ◌+◌, ◌≡◌, ◌↔◌, refl, some, List, [], ◌∷◌, arith, ◌==◌, length,
  replicate, length-replicate, true, ℕ_discrete, if◌then◌else◌,
}
use gs_usb_user.Base.Int.{pos, negsuc}
use gs_usb_user.Usb.{Usb, Setup, moved}
use gs_usb_user.Wire.{get_le32}
use gs_usb_user.Timing.Halts.{HasRoom}
use gs_usb_user.Open.Find.{UsbDevice, is_match}
use gs_usb_user.Open.Limits.{Reports}
use gs_usb_user.Tools.Text.Numbers.{atoi, hex_int}
use gs_usb_user.Tools.Args.{Given, choose, chosen, GetoptLong}
use gs_usb_user.Tools.Session.Outcome.{Returns}
use gs_usb_user.Tools.Send.{Options}
use gs_usb_user.Tools.Send.Success.{IsTold, send_main-IsTold}
use gs_usb_user.Tools.Send.Main.{defaults, apply_option, send_main}
use gs_usb_user.Tools.Send.Selection.{is_known, IsSelected, choose-IsSelected}
use gs_usb_user.Tools.Args.Selection.{Stops}
use gs_usb_user.Tools.Send.Termination.{IsExit, send_main-Returns}
use gs_usb_user.Tools.Info.Scan.{Strings, decimal_fixed, hex_lower, scan_list}
use gs_usb_user.Tools.Info.Scan.Agreement.{tried, AllNone, scan_list-AllNone}
use gs_usb_user.Tools.Info.Scan.Reopening.{reopening}
use gs_usb_user.Tools.Info.Main.{info_main}
use gs_usb_user.Tools.Info.Outcome.{IsExit as IsInfoExit, info_main-Returns}
use gs_usb_user.Frame.{Frame}
use gs_usb_user.Rx.Effect.{IsWellFormed}
use gs_usb_user.Tools.Session.Steady.{AllOf, IsSteady, KeepsSteady, EndsBySignal}
use gs_usb_user.Tools.React
use gs_usb_user.Tools.React.{Turn}
use gs_usb_user.Tools.React.Main.{react_main}
use gs_usb_user.Tools.React.Termination.{AnyFrame, react_main-EndsBySignal}
use gs_usb_user.Tools.Dump
use gs_usb_user.Tools.Dump.Main.{dump_main}
use gs_usb_user.Tools.Dump.Termination.{dump_main-EndsBySignal}
use gs_usb_user.Examples.{counting, thousandths, live_bus, three_slots-IsQueue}
use gs_usb_user.Examples.Tools.{libusb, enough, two_devices}

-- a clock of 16 Hz, tseg1 1 to 4, tseg2 1 to 3, sjw 2, prescalers 1 and 2
abbrev limits_bytes : List ℕ
limits_bytes =
    0 ∷ 0 ∷ 0 ∷ 0 ∷ 16 ∷ 0 ∷ 0 ∷ 0 ∷ 1 ∷ 0 ∷ 0 ∷ 0 ∷ 4 ∷ 0 ∷ 0 ∷ 0 ∷ 1 ∷ 0 ∷ 0 ∷ 0 ∷ 3 ∷ 0 ∷ 0 ∷ 0
    ∷ 2 ∷ 0 ∷ 0 ∷ 0 ∷ 1 ∷ 0 ∷ 0 ∷ 0 ∷ 2 ∷ 0 ∷ 0 ∷ 0 ∷ 1 ∷ 0 ∷ 0 ∷ 0 ∷ []

-- A device with one channel of these limits.
abbrev answering : Usb ℕ
answering = record counting {
  control_in = λ s n w. (moved n, if n == 40 then limits_bytes else replicate n 0, w + 1);
}

answering-full : (s : Setup) (n w : ℕ) → length (answering.control_in s n w).1 ≡ n
answering-full s n w = elim (ℕ_discrete n 40) [
  | yes e ↦ ground (arith, e)
  | no e ↦ ground (arith, length-replicate {A = ℕ} n 0)
]

answering-Reports : Reports answering (HasRoom 3)
unfolding get_le32
answering-Reports = record {
  full = answering-full;
  nominal =
      λ i w b h. record { no_wrap = ground (arith, h.0, h.1); enough = ground (arith, h.0, h.1) };
  extended =
      λ i w b h. record { no_wrap = ground (arith, h.0, h.1); enough = ground (arith, h.0, h.1) };
}

-- `-r 2`
abbrev two_bits : Given
two_bits = record { letter = b'r'; optarg = b'2' ∷ [] }

-- what is behind the options is left as it is
abbrev getopt : GetoptLong
getopt words = (two_bits ∷ [], words)

-- "123#1122"
abbrev short_message : List ℕ
short_message = b'1' ∷ b'2' ∷ b'3' ∷ b'#' ∷ b'1' ∷ b'1' ∷ b'2' ∷ b'2' ∷ []

send_main-Returns_example : Returns IsExit (
    send_main getopt answering libusb enough thousandths 3
      (λ ms w. w + 1)
      (short_message ∷ [])
      true
      0)
send_main-Returns_example =
    send_main-Returns answering libusb enough thousandths 3 (λ ms w. w + 1) answering-Reports getopt
      (short_message ∷ []) true 0

-- `-r 2 -R 3 -i 5`: three rounds of one frame, with pauses
abbrev three_rounds : GetoptLong
three_rounds words = (
  two_bits
      ∷ record { letter = b'R'; optarg = b'3' ∷ [] }
      ∷ record { letter = b'i'; optarg = b'5' ∷ [] }
      ∷ [],
  words,
)

send_main-IsTold_example :
    Returns
      (IsTold answering libusb enough thousandths 3
        (λ ms w. w + 1)
        (three_rounds (short_message ∷ []))
        0)
      (send_main three_rounds answering libusb enough thousandths 3
        (λ ms w. w + 1)
        (short_message ∷ [])
        true
        0)
send_main-IsTold_example =
    send_main-IsTold answering libusb enough thousandths 3 (λ ms w. w + 1) answering-Reports
      three_rounds (short_message ∷ []) true 0

-- devices without texts
abbrev no_strings : Strings ℕ
no_strings = record { manufacturer = λ d. 0; product = λ d. 0; text = λ d i w. ([], w + 1) }

abbrev no_options : GetoptLong
no_options words = ([], words)

info_main-Returns_example :
    Returns IsInfoExit (info_main answering libusb enough no_strings no_options [] 0)
info_main-Returns_example =
    info_main-Returns answering libusb enough no_strings answering-full no_options [] 0

choose-IsSelected_example :
    Stops is_known (two_bits ∷ []) (choose apply_option defaults (two_bits ∷ []))
    × ((o : Options)
        → choose apply_option defaults (two_bits ∷ []) ≡ chosen o
        → IsSelected (two_bits ∷ []) o)
choose-IsSelected_example = choose-IsSelected (two_bits ∷ [])

scan_list-AllNone_example :
    ((scan_list libusb no_strings (pos 0) (pos 0) (negsuc 0) (pos 4) two_devices 0).0 ≡ 0)
    ↔ AllNone (tried (pos 0) (pos 0)) (negsuc 0) (pos 4) two_devices
scan_list-AllNone_example =
    scan_list-AllNone libusb no_strings (pos 0) (pos 0) (negsuc 0) (pos 4) two_devices 0
      (omega arith) (omega arith)

abbrev adapter : UsbDevice
adapter = record { ids = some (0x1209, 0x2323); bus = 1; address = 4 }

reopening_example :
    (tried (hex_int (hex_lower 4 0x1209)) (hex_int (hex_lower 4 0x2323)) ≡ (0x1209, 0x2323) ∷ [])
    × (is_match 0x1209 0x2323 (atoi (decimal_fixed 3 1)) (atoi (decimal_fixed 3 4)) adapter ≡ true)
reopening_example =
    reopening adapter 0x1209 0x2323 refl (omega arith) (omega arith) (omega arith) (omega arith)
      (omega arith) (omega arith)

live_bus-IsSteady : (P : Frame → Type 0) → IsSteady P 0 live_bus
live_bus-IsSteady P = record {
  indexed = refl;
  started = refl;
  queued = three_slots-IsQueue;
  frames = tt;
}

-- an idle turn, and the signal
abbrev idle : Bool → Turn
idle signal = record {
  stop = signal;
  meanwhile = λ ch. ch;
  waits = record { timed_out = true; found = live_bus } ∷ [];
}

idle-KeepsSteady : (P : Frame → Type 0) (signal : Bool) → KeepsSteady P 0 (idle signal)
idle-KeepsSteady P signal = record {
  kept = λ ch s. s;
  found = (live_bus-IsSteady P, tt);
  ends = inl refl;
}

abbrev idle_turns : List Turn
idle_turns = idle false ∷ idle true ∷ []

idle_turns-KeepsSteady : (P : Frame → Type 0) → AllOf (KeepsSteady P 0) idle_turns
idle_turns-KeepsSteady P = (idle-KeepsSteady P false, (idle-KeepsSteady P true, tt))

-- Without `-c` the channel is the first one.
react_channel :
    (o : React.Main.Options)
    → choose React.Main.apply_option React.Main.defaults (two_bits ∷ []) ≡ chosen o
    → o.channel ≡ 0
unfolding choose React.Main.apply_option
react_channel o e = ground arith

dump_channel :
    (o : Dump.Main.Options)
    → choose Dump.Main.apply_option Dump.Main.defaults (two_bits ∷ []) ≡ chosen o
    → o.channel ≡ 0
unfolding choose Dump.Main.apply_option
dump_channel o e = ground arith

react_main-EndsBySignal_example :
    EndsBySignal true (react_main answering libusb enough thousandths 3 getopt [] idle_turns 0)
react_main-EndsBySignal_example =
    react_main-EndsBySignal answering libusb enough thousandths 3 answering-Reports idle_turns
      getopt [] 0 0 react_channel (idle_turns-KeepsSteady AnyFrame)

dump_main-EndsBySignal_example :
    EndsBySignal true
      (dump_main (λ t. []) answering libusb enough thousandths 3 getopt [] idle_turns 0)
dump_main-EndsBySignal_example =
    dump_main-EndsBySignal (λ t. []) answering libusb enough thousandths 3 answering-Reports
      idle_turns getopt [] 0 0 dump_channel (idle_turns-KeepsSteady IsWellFormed)
