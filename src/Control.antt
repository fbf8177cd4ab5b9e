-- ===== src/Control.antt =====
-- driver/src/gsusb.c: bit timing, state, identify and termination, each one control transfer.
-- Buffers are of the size sent; a write outside one is `none`.
pub mod Bitrate
use gs_usb_user.Base.{ℕ, Bool, Option, none, some, List, ◌==◌, u16, replicate, ◌>>=◌, if◌then◌else◌}
use gs_usb_user.Device.{BittimingConst, Channel}
use gs_usb_user.Status.{Status, is_error}
use gs_usb_user.Timing.{Double, Registers, Answer, failed, solved, calc_bittiming}
use gs_usb_user.Usb.{Usb, ctrl_in, ctrl_out}
use gs_usb_user.Wire.{
  Breq, device_bittiming_size, device_state_size, identify_mode_size, identify_off, identify_on,
  termination_state_size, termination_state_off, termination_state_on, put_le32, get_le32,
}

-- the 20 bytes of `send_bittiming`
unfoldable pub bittiming_bytes : Registers → Option (List ℕ)
bittiming_bytes r = do
  buf ← put_le32 (replicate device_bittiming_size 0) 0 r.prop_seg
  buf ← put_le32 buf 4 r.phase_seg1
  buf ← put_le32 buf 8 r.phase_seg2
  buf ← put_le32 buf 12 r.sjw
  put_le32 buf 16 r.brp

-- the three numbers of `gsusb_channel_get_state`
pub record CanState : Type 0 where
  pub state : ℕ
  pub rxerr : ℕ
  pub txerr : ℕ

abbrev pub data_bt_const_of : Channel → BittimingConst
data_bt_const_of ch = if ch.has_data_bt_const then ch.data_bt_const else ch.bt_const

module _ {W : Type 0} (usb : Usb W) where
  unfoldable pub send_bittiming : Breq → ℕ → Registers → W → Option (Status × W)
  send_bittiming breq channel r w = do
    buf ← bittiming_bytes r
    some (ctrl_out usb breq (u16 channel) 0 buf w)

  abbrev pub set_bittiming_raw : Channel → Registers → W → Option (Status × W)
  set_bittiming_raw ch r w = send_bittiming Breq.bittiming ch.index r w

  abbrev pub set_data_bittiming_raw : Channel → Registers → W → Option (Status × W)
  set_data_bittiming_raw ch r w = send_bittiming Breq.data_bittiming ch.index r w

  -- The fuel is that of the calculator.
  unfoldable pub set_bitrate :
      {F : Type 0} → Double F → ℕ → Channel → ℕ → F → W → Option (Status × W)
  set_bitrate d fuel ch bitrate sample_point w = do
    answer ← calc_bittiming d fuel ch.bt_const.fclk_can bitrate sample_point ch.bt_const
    elim answer [ failed rc ↦ some (rc, w) | solved r ↦ set_bittiming_raw ch r w ]

  unfoldable pub set_data_bitrate :
      {F : Type 0} → Double F → ℕ → Channel → ℕ → F → W → Option (Status × W)
  set_data_bitrate d fuel ch bitrate sample_point w =
      let btc = data_bt_const_of ch in
      do
        answer ← calc_bittiming d fuel btc.fclk_can bitrate sample_point btc
        elim answer [ failed rc ↦ some (rc, w) | solved r ↦ set_data_bittiming_raw ch r w ]

  -- The second part is what is written through the pointers, none of them NULL.
  unfoldable pub get_state : Channel → W → Option (Status × Option CanState × W)
  get_state ch w =
      let (rc, buf, w') = ctrl_in usb Breq.get_state (u16 ch.index) 0 device_state_size w in
      if is_error rc then some (rc, none, w') else do
        state ← get_le32 buf 0
        rxerr ← get_le32 buf 4
        txerr ← get_le32 buf 8
        some (Status.ok, some (record { state = state; rxerr = rxerr; txerr = txerr }), w')

  unfoldable pub set_identify : Channel → Bool → W → Option (Status × W)
  set_identify ch on w = do
    buf ← put_le32 (replicate identify_mode_size 0) 0 (if on then identify_on else identify_off)
    some (ctrl_out usb Breq.identify (u16 ch.index) 0 buf w)

  unfoldable pub get_termination : Channel → W → Option (Status × Option Bool × W)
  get_termination ch w =
      let (rc, buf, w') =
        ctrl_in usb Breq.get_termination (u16 ch.index) 0 termination_state_size w in
      if is_error rc
      then some (rc, none, w')
      else do v ← get_le32 buf 0; some (Status.ok, some (v == termination_state_on), w')

  unfoldable pub set_termination : Channel → Bool → W → Option (Status × W)
  set_termination ch enable_120ohm w = do
    buf ←
        put_le32 (replicate termination_state_size 0) 0
          (if enable_120ohm then termination_state_on else termination_state_off)
    some (ctrl_out usb Breq.set_termination (u16 ch.index) 0 buf w)
