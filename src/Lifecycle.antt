-- ===== src/Lifecycle.antt =====
-- driver/src/gsusb.c: `gsusb_channel_start` and `gsusb_channel_stop`. Each locked section is one step
-- on the device; `start` is one section, `stop` is two with the USB transfer and the join between.
pub mod ModeFlag
pub mod Mode
pub mod Started
pub mod Stop
pub mod Start
pub mod Calls
pub mod Race
pub mod Threads
use gs_usb_user.Base.{
  ℕ, ◌+◌, ◌-◌, ◌^◌, Bool, true, false, Option, none, some, List, ltb, ◌==◌, not, ◌&&◌, u16, u32,
  has, or_if, replicate, get_elem?, ◌>>=◌, if◌then◌else◌,
}
use gs_usb_user.Device.{Channel, Dev, put_channel}
use gs_usb_user.Status.{Status, is_error}
use gs_usb_user.Usb.{Usb, ctrl_out}
use gs_usb_user.Wire.{Breq, device_mode_size, mode_reset, mode_start, put_le32}
use gs_usb_user.Wire.HwMode
use gs_usb_user.Wire.Feature
use gs_usb_user.Lifecycle.ModeFlag

-- `(ch->feature & GS_CAN_FEATURE_HW_TIMESTAMP) != 0`
abbrev pub hw_ts : Channel → Bool
hw_ts ch = has ch.feature Feature.hw_timestamp

unfoldable pub hw_flags : Channel → ℕ → ℕ
hw_flags ch mode_flags =
    let listen = or_if (has mode_flags ModeFlag.listen_only) HwMode.listen_only 0 in
    let loop = or_if (has mode_flags ModeFlag.loopback) HwMode.loop_back listen in
    let triple = or_if (has mode_flags ModeFlag.triple_sample) HwMode.triple_sample loop in
    let one_shot = or_if (has mode_flags ModeFlag.one_shot) HwMode.one_shot triple in
    let berr = or_if (has mode_flags ModeFlag.berr_reporting) HwMode.berr_reporting one_shot in
    let fd = or_if (has mode_flags ModeFlag.fd) HwMode.fd berr in
    or_if (hw_ts ch) HwMode.hw_timestamp fd

-- `modebuf`
unfoldable pub mode_bytes : ℕ → ℕ → Option (List ℕ)
mode_bytes mode flags = do
  buf ← put_le32 (replicate device_mode_size 0) 0 mode
  put_le32 buf 4 flags

-- the fields set once the device has accepted the mode
abbrev pub activate : Dev → ℕ → Channel → Dev
activate dev k ch =
    record (put_channel dev k (record ch { hw_ts_enabled = hw_ts ch; started = true })) {
      active_channels = u32 (dev.active_channels + 1);
    }

-- `ch->started = 0; dev->active_channels--;` after a failed `pthread_create`; the decrement of an
-- `unsigned int` is written out
abbrev pub deactivate : Dev → ℕ → Channel → Dev
deactivate dev k ch = record (put_channel dev k (record ch { started = false })) {
  active_channels = u32 (dev.active_channels + (2 ^ 32 - 1));
}

-- the two outcomes of the `pthread_create` branch, where `ch` is the channel as activated
abbrev pub with_reader : Dev → ℕ → Channel → Bool → Status × Dev
with_reader dev k ch created =
    if created
    then (Status.ok, record dev { stop_flag = false; reader_running = true })
    else (Status.io, deactivate (record dev { stop_flag = false }) k ch)

-- the first locked section of `stop`
abbrev pub release : Dev → ℕ → Channel → Dev
release dev k ch =
    let active =
      if ltb 0 dev.active_channels then dev.active_channels - 1 else dev.active_channels in
    record (put_channel dev k (record ch { started = false })) {
      active_channels = active;
      stop_flag = if active == 0 then true else dev.stop_flag;
    }

-- the second one
abbrev pub joined : Dev → Dev
joined dev = record dev { reader_running = false }

module _ {W : Type 0} (usb : Usb W) where
  -- from `if (!dev->reader_running)`
  unfoldable pub launch : Dev → ℕ → Channel → W → (Status × Dev) × W
  launch dev k ch w =
      if dev.reader_running
      then ((Status.ok, dev), w)
      else let (created, w') = usb.create_reader w in (with_reader dev k ch created, w')

  -- `none` is a channel that the device does not have.
  unfoldable pub start : Dev → ℕ → ℕ → W → Option ((Status × Dev) × W)
  start dev k mode_flags w = do
    ch ← get_elem? dev.channels k
    buf ← mode_bytes mode_start (hw_flags ch mode_flags)
    if ch.started
        then some ((Status.busy, dev), w)
        else if has mode_flags ModeFlag.fd && not (has ch.feature Feature.fd)
        then some ((Status.invalid, dev), w)
        else let (rc, w') = ctrl_out usb Breq.mode (u16 ch.index) 0 buf w in
          if is_error rc
          then some ((rc, dev), w')
          else some (
              launch (activate dev k ch) k (record ch { hw_ts_enabled = hw_ts ch; started = true })
                w')

  -- `stop` with nothing between its sections
  unfoldable pub stop : Dev → ℕ → W → Option (Dev × W)
  stop dev k w = do
    ch ← get_elem? dev.channels k
    buf ← mode_bytes mode_reset 0
    if not ch.started
        then some (dev, w)
        else let released = release dev k ch in
          let (rc, w') = ctrl_out usb Breq.mode (u16 ch.index) 0 buf w in
          if released.active_channels == 0
          then some (joined released, usb.join_reader w')
          else some (released, w')
