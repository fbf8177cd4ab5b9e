-- ===== src/Close.antt =====
-- driver/src/gsusb.c: `gsusb_close` on a device that is not NULL. Locks are left out, and so is the
-- memory that it frees.
pub mod Resets
use gs_usb_user.Base.{ℕ, Bool, Option, none, some, List, [], ◌∷◌, u16, ◌>>=◌, true, if◌then◌else◌}
use gs_usb_user.Device.{Channel, Dev}
use gs_usb_user.Usb.{Usb, ctrl_out}
use gs_usb_user.Open.Device.{Libusb}
use gs_usb_user.Wire.{Breq, mode_reset}
use gs_usb_user.Lifecycle.{mode_bytes}

module _ {W : Type 0} (usb : Usb W) where
  -- a turn of the loop over the channels; the result of the transfer is ignored
  unfoldable pub reset_channel : Channel → W → Option W
  reset_channel ch w = do
    buf ← mode_bytes mode_reset 0
    let (rc, w1) = ctrl_out usb Breq.mode (u16 ch.index) 0 buf w in
        if ch.started then some w1 else some w

  unfoldable pub reset_channels : List Channel → W → Option W
  reset_channels [] w = some w
  reset_channels (ch ∷ chs) w = do w1 ← reset_channel ch w; reset_channels chs w1

  -- the statements under `start_lock`
  unfoldable pub signal_stop : Dev → Dev
  signal_stop dev = record dev { stop_flag = true }

  -- `pthread_join` of a reader that runs. The reader looks at `stop_flag` on every turn; `none` is a join
  -- with the flag unset, which has no reason to return.
  unfoldable pub wait_for_reader : Dev → Bool → W → Option W
  wait_for_reader dev was_running w =
      if was_running then if dev.stop_flag then some (usb.join_reader w) else none else some w

  unfoldable pub gsusb_close : Libusb W → Dev → W → Option W
  gsusb_close lib dev w = do
    w1 ← wait_for_reader (signal_stop dev) dev.reader_running w
    w2 ← reset_channels dev.channels w1
    some (lib.close_handle (lib.release_interface w2))
