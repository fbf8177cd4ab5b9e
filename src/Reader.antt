-- ===== src/Reader.antt =====
-- driver/src/gsusb.c: `reader_thread_fn`. A turn of its loop is what the other threads did to the
-- device since the last one, and the result of the bulk IN transfer with the bytes received.
pub mod Outcome
use gs_usb_user.Base.{
  ℕ, Bool, true, false, Option, none, some, List, [], ◌∷◌, length, ◌==◌, if◌then◌else◌,
}
use gs_usb_user.Device.{Dev}
use gs_usb_user.Status.{LibusbCode, LibusbError, success, error}
use gs_usb_user.Rx.{handle_rx_packet}

pub record Turn : Type 0 where
  pub meanwhile : Dev → Dev
  pub result : LibusbCode
  pub bytes : List ℕ

-- what one transfer leads to: the next turn, the end of the thread, or a read out of bounds
pub data Next : Type 0 where
  continue : Dev → Next
  break : LibusbError → Next
  crash : Next

-- where the thread is after some turns
pub data Reading : Type 0 where
  running : Dev → Reading
  told_to_stop : Dev → Reading
  device_lost : LibusbError → Dev → Reading
  out_of_memory : Dev → Reading
  fault : Reading

-- the tests on `rc` and `transferred`
unfoldable pub after_transfer : LibusbCode → List ℕ → Dev → Next
after_transfer success bytes dev =
    if length bytes == 0
    then continue dev
    else elim (handle_rx_packet dev bytes) [ none ↦ crash | some d ↦ continue d ]
after_transfer (error LibusbError.timeout) bytes dev = continue dev
after_transfer (error LibusbError.no_device) bytes dev = break LibusbError.no_device
after_transfer (error LibusbError.io) bytes dev = break LibusbError.io
after_transfer (error _) bytes dev = continue dev

-- `for (;;)`
unfoldable pub read_loop : List Turn → Dev → Reading
read_loop [] dev = running dev
read_loop (turn ∷ turns) dev =
    let found = turn.meanwhile dev in
    if found.stop_flag
    then told_to_stop found
    else elim (after_transfer turn.result turn.bytes found) [
      | continue d ↦ read_loop turns d
      | break e ↦ device_lost e found
      | crash ↦ fault
    ]

-- the thread, from whether `malloc` gave the buffer
unfoldable pub reader_thread : Bool → List Turn → Dev → Reading
reader_thread allocated turns dev = if allocated then read_loop turns dev else out_of_memory dev
