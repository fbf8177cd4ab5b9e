-- ===== src/Tools/Session.antt =====
-- driver/tools: what gsusb_send.c, gsusb_dump.c and gsusb_react.c do between opening the device and
-- their loops, and behind them.
pub mod Outcome
pub mod Steady
pub mod Calls
use gs_usb_user.Base.{ℕ, List, Bool, Option, none, some, has, not, ◌&&◌, ◌>>=◌, if◌then◌else◌}
use gs_usb_user.Base.Int.{pos}
use gs_usb_user.Device.{Channel, Dev, channel_get, put_channel}
use gs_usb_user.Status.{Status, is_error}
use gs_usb_user.Usb.{Usb}
use gs_usb_user.Wire.Feature
use gs_usb_user.Timing.{Double}
use gs_usb_user.Control.{set_bitrate, set_data_bitrate}
use gs_usb_user.Lifecycle.{start, stop}
use gs_usb_user.Open.Device.{Libusb}
use gs_usb_user.Tools.Common.{gsusb_exit}
use gs_usb_user.Close.{gsusb_close}

-- the device with its channel started, or the `return 1` of `main`
pub data Ready (W : Type 0) : Type 0 where
  ready : Dev → W → Ready W
  give_up : W → Ready W

-- How a tool that loops until a signal ends: it exits, or its loop still runs or waits. `fault` is a
-- bit-timing search that goes on or an access out of bounds.
pub data Ended (A : Type 0) : Type 0 where
  exits : ℕ → A → Ended A
  goes_on fault : Ended A

module _ {W F : Type 0} (usb : Usb W) (d : Double F) (fuel : ℕ) where
  -- `gsusb_channel_set_data_bitrate`, for CAN-FD only
  unfoldable pub set_fd_bitrate : Bool → Channel → ℕ → W → Option (Status × W)
  set_fd_bitrate fd_mode ch data_bitrate w =
      if fd_mode
      then set_data_bitrate usb d fuel ch data_bitrate (d.of_int (pos 0)) w
      else some (Status.ok, w)

  -- the call of `gsusb_channel_start`
  unfoldable pub start_channel : Dev → ℕ → ℕ → W → Option (Ready W)
  start_channel dev channel mode w = do
    ((rc, dev'), w') ← start usb dev channel mode w
    if is_error rc then some (give_up w') else some (ready dev' w')

  -- from `gsusb_channel_set_bitrate` on
  unfoldable pub set_up : Dev → ℕ → Channel → Bool → ℕ → ℕ → ℕ → W → Option (Ready W)
  set_up dev channel ch fd_mode bitrate data_bitrate mode w = do
    (rc, w1) ← set_bitrate usb d fuel ch bitrate (d.of_int (pos 0)) w
    if is_error rc then some (give_up w1) else do
      (rc', w2) ← set_fd_bitrate fd_mode ch data_bitrate w1
      if is_error rc' then some (give_up w2) else start_channel dev channel mode w2

  -- from `gsusb_channel_get` to `gsusb_channel_start`; `none` is a bit-timing search that goes on or an
  -- access out of bounds. gsusb_react.c is the case without CAN-FD.
  unfoldable pub bring_up : Dev → ℕ → Bool → ℕ → ℕ → ℕ → W → Option (Ready W)
  bring_up dev channel fd_mode bitrate data_bitrate mode w = elim (channel_get dev channel) [
    | none ↦ some (give_up w)
    | some ch ↦
        if fd_mode && not (has ch.feature Feature.fd)
        then some (give_up w)
        else set_up dev channel ch fd_mode bitrate data_bitrate mode w
  ]

module _ {W : Type 0} (usb : Usb W) (lib : Libusb W) where
  -- `gsusb_channel_stop`, `gsusb_close`, `gsusb_exit`
  unfoldable pub shut_down : Dev → ℕ → W → Option W
  shut_down dev channel w = do
    (dev', w1) ← stop usb dev channel w
    w2 ← gsusb_close usb lib dev' w1
    some (gsusb_exit lib w2)

  -- behind the loop that leaves the channel as it is given
  unfoldable pub finish_tool : Dev → ℕ → Channel → W → Option W
  finish_tool dev channel ch w = shut_down (put_channel dev channel ch) channel w
