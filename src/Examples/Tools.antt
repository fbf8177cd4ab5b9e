-- ===== src/Examples/Tools.antt =====
-- Runs of opening a device and of the command-line tools.
use gs_usb_user.Base.{ℕ, ◌+◌, ◌≡◌, refl, true, false, some, List, [], ◌∷◌, arith, length-replicate}
use gs_usb_user.Base.Int.{pos, negsuc}
use gs_usb_user.Status.{LibusbCode}
use gs_usb_user.Open.Find.{UsbDevice, Interface}
use gs_usb_user.Open.Device.{Libusb, Memory, open_device}
use gs_usb_user.Open.Ledger.{nothing_held, tracked_usb, tracked}
use gs_usb_user.Open.Resources.{OpenReturn, open_device-OpenReturn}
use gs_usb_user.Frame.Id.{CanId, packed}
use gs_usb_user.Tools.Dump.{id_text}
use gs_usb_user.Tools.Dump.Ids.{plain_id, parse_id-id_text}
use gs_usb_user.Tools.Parse.{parse_id, refused, parse_frame}
use gs_usb_user.Tools.Parse.Message.{Message, flexible}
use gs_usb_user.Tools.Parse.Safety.{ParseOutcome, parse_frame-ParseOutcome}
use gs_usb_user.Tools.Common.{known_ids, tool_open}
use gs_usb_user.Tools.Common.FirstKnown.{FirstOf, tool_open-FirstOf}
use gs_usb_user.Tools.Send.{Options, send_rounds, gsusb_send}
use gs_usb_user.Tools.Send.Rounds.{schedule, run_steps, send_rounds-schedule}
use gs_usb_user.Tools.Send.Refusal.{gsusb_send-refused}
use gs_usb_user.Tools.React.{Turn, Loop, watch}
use gs_usb_user.Tools.React.Responses.{AllKeep, Responded, heard, matching, watch-Responded}
use gs_usb_user.Recv.Outcome.{AllValid}
use gs_usb_user.Examples.{
  two_bytes, one_held, one_held-IsQueue, live_bus, in_use, counting, thousandths,
}

-- "abcde##3dead", an extended FD frame with both flags
abbrev flexible_two : Message
flexible_two = record {
  width = 5;
  id = 0xabcde;
  upper = false;
  body = flexible true true (0xde ∷ 0xad ∷ []);
}

-- "123#1G"
abbrev not_hex : List ℕ
not_hex = b'1' ∷ b'2' ∷ b'3' ∷ b'#' ∷ b'1' ∷ b'G' ∷ []

parse_frame-ParseOutcome_example : ParseOutcome (parse_frame not_hex)
parse_frame-ParseOutcome_example = parse_frame-ParseOutcome not_hex

-- two devices, of which the second is a candleLight
abbrev pub two_devices : List UsbDevice
two_devices =
    record { ids = some (0x46d, 0xc077); bus = 1; address = 3 }
    ∷ record { ids = some (0x1209, 0x2323); bus = 1; address = 4 }
    ∷ []

abbrev bulk_pair : Interface
bulk_pair = record {
  number = 0;
  endpoints =
      record { attributes = 2; address = 0x81 } ∷ record { attributes = 2; address = 2 } ∷ [];
}

-- Every call succeeds and is counted.
abbrev pub libusb : Libusb ℕ
libusb = record {
  init_context = λ w. (LibusbCode.success, w + 1);
  exit_context = λ w. w + 1;
  get_device_list = λ w. (some two_devices, w + 1);
  free_device_list = λ w. w + 1;
  open_handle = λ d w. (LibusbCode.success, w + 1);
  set_auto_detach = λ w. w + 1;
  claim_interface = λ w. (LibusbCode.success, w + 1);
  get_active_config = λ w. (some (bulk_pair ∷ []), w + 1);
  free_config = λ w. w + 1;
  release_interface = λ w. w + 1;
  close_handle = λ w. w + 1;
}

abbrev pub enough : Memory
enough = record { dev_allocated = true; channels_allocated = true; queue_allocated = λ i. true }

open_device-OpenReturn_example : OpenReturn (
    open_device
      (tracked_usb counting)
      (tracked libusb)
      enough
      0x1209
      0x2323
      (pos 1)
      (negsuc 0)
      (0, nothing_held))
open_device-OpenReturn_example =
    open_device-OpenReturn counting libusb enough (λ s n w. length-replicate {A = ℕ} n 0) 0x1209
      0x2323 (pos 1) (negsuc 0) 0

tool_open-FirstOf_example : FirstOf counting libusb enough (negsuc 0) (negsuc 0) known_ids 0 (
    tool_open
      (tracked_usb counting)
      (tracked libusb)
      enough
      (pos 0)
      (pos 0)
      (negsuc 0)
      (negsuc 0)
      (0, nothing_held))
tool_open-FirstOf_example =
    tool_open-FirstOf counting libusb enough (negsuc 0) (negsuc 0)
      (λ s n w. length-replicate {A = ℕ} n 0) (pos 0) (pos 0) 0

-- three rounds of two frames
send_rounds-schedule_example :
    send_rounds counting (λ ms w. w + 1) in_use live_bus (two_bytes ∷ two_bytes ∷ []) 5 3 0
    ≡ run_steps counting
        (λ ms w. w + 1)
        in_use
        live_bus
        5
        (schedule (two_bytes ∷ two_bytes ∷ []) true 3)
        0
send_rounds-schedule_example =
    send_rounds-schedule counting (λ ms w. w + 1) in_use live_bus 5 (two_bytes ∷ two_bytes ∷ []) 3 0

abbrev pub options : Options
options = record {
  vid = pos 0;
  pid = pos 0;
  bus = negsuc 0;
  addr = negsuc 0;
  channel = 0;
  bitrate = 2;
  data_bitrate = 2;
  fd_mode = false;
  loopback = false;
  repeat = 1;
  interval_ms = 0;
}

-- "123"
abbrev no_hash : List ℕ
no_hash = b'1' ∷ b'2' ∷ b'3' ∷ []

no_hash_refused : parse_frame no_hash ≡ refused
unfolding parse_frame gs_usb_user.Tools.Parse.split_hash
no_hash_refused = refl

gsusb_send-refused_example :
    gsusb_send counting libusb enough thousandths 3
      (λ ms w. w + 1)
      options
      true
      (not_hex ∷ no_hash ∷ [])
      0
    ≡ some (1, 0)
gsusb_send-refused_example =
    gsusb_send-refused counting libusb enough thousandths 3 (λ ms w. w + 1) options true
      (not_hex ∷ []) no_hash [] 0 no_hash_refused

-- the key frame, an idle turn, and the end
abbrev turns : List Turn
turns =
    record { stop = false; meanwhile = λ ch. record ch { queue = one_held }; waits = [] }
    ∷ record { stop = true; meanwhile = λ ch. ch; waits = [] }
    ∷ []

abbrev begun : Loop ℕ
begun = record { channel = record live_bus { queue = one_held }; seen = 0; reacted = 0; world = 0 }

watch-Responded_example :
    Responded counting in_use 0x123 0x200
      (matching 0x123 (heard turns begun.channel))
      begun
      (watch counting in_use 0x123 0x200 turns begun)
watch-Responded_example =
    watch-Responded counting in_use 0x123 0x200 turns begun one_held-IsQueue
      (AllKeep.next (λ ch v. one_held-IsQueue) AllValid.end
        (AllKeep.next (λ ch v. v) AllValid.end AllKeep.end))
      (omega arith) (omega arith)

-- an error frame with an extended id
abbrev extended_error : CanId
extended_error = record { number = 0x123; is_extended = true; is_remote = false; is_error = true }

parse_id-id_text_example :
    parse_id (id_text (packed extended_error)) ≡ some (packed (plain_id extended_error))
parse_id-id_text_example = parse_id-id_text extended_error (omega arith)
