-- ===== src/Device.antt =====
-- driver/src/gsusb.c, driver/include/gsusb.h: `struct gsusb_channel`, `struct gsusb_dev` and the
-- structures that the device reports. The pointer `ch->dev` of a channel is the device that its
-- functions take beside the channel's index; an `int` used as a flag is a `Bool`.
pub mod Invariant
pub mod Parse
use gs_usb_user.Base.{
  ℕ, ◌+◌, Bool, Option, none, some, List, leb, get_elem?, set, ◌>>=◌, if◌then◌else◌,
}
use gs_usb_user.Rxq.{Rxq}
use gs_usb_user.Wire.{get_le32}

-- `gsusb_bittiming_const`
pub record BittimingConst : Type 0 where
  pub feature : ℕ
  pub fclk_can : ℕ
  pub tseg1_min : ℕ
  pub tseg1_max : ℕ
  pub tseg2_min : ℕ
  pub tseg2_max : ℕ
  pub sjw_max : ℕ
  pub brp_min : ℕ
  pub brp_max : ℕ
  pub brp_inc : ℕ

-- `gsusb_device_config`
pub record DeviceConfig : Type 0 where
  pub sw_version : ℕ
  pub hw_version : ℕ
  pub channel_count : ℕ

pub record Channel : Type 0 where
  pub index : ℕ
  pub bt_const : BittimingConst
  pub has_data_bt_const : Bool
  pub data_bt_const : BittimingConst
  pub feature : ℕ
  pub started : Bool
  pub hw_ts_enabled : Bool
  pub queue : Rxq

pub record Dev : Type 0 where
  pub interface_number : ℕ
  pub ep_in : ℕ
  pub ep_out : ℕ
  pub devconf : DeviceConfig
  pub channel_count : ℕ
  pub channels : List Channel
  pub hf_size_rx : ℕ
  pub active_channels : ℕ
  pub reader_running : Bool
  pub stop_flag : Bool

-- `parse_bt_const`; `none` is a read outside the buffer
unfoldable pub parse_bt_const : List ℕ → Option BittimingConst
parse_bt_const p = do
  feature ← get_le32 p 0
  fclk_can ← get_le32 p 4
  tseg1_min ← get_le32 p 8
  tseg1_max ← get_le32 p 12
  tseg2_min ← get_le32 p 16
  tseg2_max ← get_le32 p 20
  sjw_max ← get_le32 p 24
  brp_min ← get_le32 p 28
  brp_max ← get_le32 p 32
  brp_inc ← get_le32 p 36
  some (record {
    feature = feature;
    fclk_can = fclk_can;
    tseg1_min = tseg1_min;
    tseg1_max = tseg1_max;
    tseg2_min = tseg2_min;
    tseg2_max = tseg2_max;
    sjw_max = sjw_max;
    brp_min = brp_min;
    brp_max = brp_max;
    brp_inc = brp_inc;
  })

unfoldable pub parse_bt_const_ext_data_phase : List ℕ → ℕ → ℕ → Option BittimingConst
parse_bt_const_ext_data_phase p feature fclk_can = do
  tseg1_min ← get_le32 p 40
  tseg1_max ← get_le32 p 44
  tseg2_min ← get_le32 p 48
  tseg2_max ← get_le32 p 52
  sjw_max ← get_le32 p 56
  brp_min ← get_le32 p 60
  brp_max ← get_le32 p 64
  brp_inc ← get_le32 p 68
  some (record {
    feature = feature;
    fclk_can = fclk_can;
    tseg1_min = tseg1_min;
    tseg1_max = tseg1_max;
    tseg2_min = tseg2_min;
    tseg2_max = tseg2_max;
    sjw_max = sjw_max;
    brp_min = brp_min;
    brp_max = brp_max;
    brp_inc = brp_inc;
  })

-- `gsusb_channel_get`: `none` is NULL.
unfoldable pub channel_get : Dev → ℕ → Option Channel
channel_get dev channel =
    if leb dev.channel_count channel then none else get_elem? dev.channels channel

-- `gsusb_channel_data_bt_const`: `none` is NULL.
abbrev pub channel_data_bt_const : Channel → Option BittimingConst
channel_data_bt_const ch = if ch.has_data_bt_const then some ch.data_bt_const else none

-- `*ch` written back to the array
abbrev pub put_channel : Dev → ℕ → Channel → Dev
put_channel dev channel ch = record dev { channels = set dev.channels channel ch }
