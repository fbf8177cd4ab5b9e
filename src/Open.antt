-- ===== src/Open.antt =====
-- driver/src/gsusb.c: `gsusb_open` from the host configuration on: what the device is asked, and the
-- `struct gsusb_dev` that comes of it. Whether an allocation succeeds is a parameter.
pub mod Outcome
pub mod Find
pub mod Device
pub mod Resources
pub mod Limits
pub mod Gives
pub mod Ledger
pub mod Keeps
pub mod Ends
pub mod Fresh
use gs_usb_user.Base.{
  ℕ, zero, suc, ◌+◌, Bool, true, false, Option, none, some, List, [], ◌∷◌, ltb, ◌&&◌, u8, u16, has,
  bit_and, replicate, get_elem?, ◌>>=◌, if◌then◌else◌,
}
use gs_usb_user.Device.{
  BittimingConst, DeviceConfig, Channel, Dev, parse_bt_const, parse_bt_const_ext_data_phase,
}
use gs_usb_user.Rxq.{init}
use gs_usb_user.Status.{Status, is_error}
use gs_usb_user.Usb.{Usb, ctrl_in, ctrl_out}
use gs_usb_user.Wire.{
  Breq, host_config_size, device_config_size, device_bt_const_size, device_bt_const_ext_size,
  classic_dlen, fd_dlen, frame_size, put_le32, get_le32,
}
use gs_usb_user.Wire.Feature

-- what a part of `gsusb_open` comes to: a value, a failed request, memory that ran out, or an access
-- out of bounds
pub data Probe (W A : Type 0) : Type 0 where
  got : A → W → Probe W A
  refused : Status → W → Probe W A
  no_memory : W → Probe W A
  fault : Probe W A

abbrev pub and_then : {W A B : Type 0} → Probe W A → (A → W → Probe W B) → Probe W B
and_then (got a w) f = f a w
and_then (refused rc w) f = refused rc w
and_then (no_memory w) f = no_memory w
and_then fault f = fault

abbrev pub checked : {W A : Type 0} → Option A → W → Probe W A
checked none w = fault
checked (some a) w = got a w

-- `devconf`
unfoldable pub device_config : List ℕ → Option DeviceConfig
device_config raw = do
  icount ← get_elem? raw 3
  sw_version ← get_le32 raw 4
  hw_version ← get_le32 raw 8
  some
      (record { sw_version = sw_version; hw_version = hw_version; channel_count = u8 (icount + 1) })

-- the `calloc`ed limits of a channel without a data phase
abbrev pub no_limits : BittimingConst
no_limits = record {
  feature = 0;
  fclk_can = 0;
  tseg1_min = 0;
  tseg1_max = 0;
  tseg2_min = 0;
  tseg2_max = 0;
  sjw_max = 0;
  brp_min = 0;
  brp_max = 0;
  brp_inc = 0;
}

-- the largest packet of a channel
unfoldable pub packet_size : Channel → ℕ
packet_size ch =
    frame_size (if has ch.feature Feature.fd then fd_dlen else classic_dlen)
      (has ch.feature Feature.hw_timestamp)

-- `hf_size_rx` over the channels
unfoldable pub largest : ℕ → List Channel → ℕ
largest size [] = size
largest size (ch ∷ chs) = largest (if ltb size (packet_size ch) then packet_size ch else size) chs

module _ {W : Type 0} (usb : Usb W) where
  unfoldable pub request : Breq → ℕ → ℕ → ℕ → W → Probe W (List ℕ)
  request breq value index len w =
      let (rc, raw, w') = ctrl_in usb breq value index len w in
      if is_error rc then refused rc w' else got raw w'

  -- the extended limits, if the channel has FD and says that they exist
  unfoldable pub data_phase : ℕ → ℕ → BittimingConst → W → Probe W (Bool × BittimingConst)
  data_phase i feature btc w =
      if has feature Feature.fd && has feature Feature.bt_const_ext
      then and_then (request Breq.bt_const_ext (u16 i) 0 device_bt_const_ext_size w) (λ raw w1.
        and_then (checked (parse_bt_const_ext_data_phase raw btc.feature btc.fclk_can) w1)
          (λ ext w2. got (true, ext) w2))
      else got (false, no_limits) w

  -- one turn of the loop over the channels
  unfoldable pub open_channel : Bool → ℕ → W → Probe W Channel
  open_channel allocated i w =
      and_then (request Breq.bt_const (u16 i) 0 device_bt_const_size w) (λ raw w1.
        and_then (checked (parse_bt_const raw) w1) (λ btc w2.
          and_then (data_phase i (bit_and btc.feature Feature.mask) btc w2) (λ ext w3.
            elim (init allocated) [
              | none ↦ no_memory w3
              | some q ↦
                  got
                    (record {
                      index = i;
                      bt_const = btc;
                      has_data_bt_const = ext.0;
                      data_bt_const = ext.1;
                      feature = bit_and btc.feature Feature.mask;
                      started = false;
                      hw_ts_enabled = false;
                      queue = q;
                    })
                    w3
            ])))

  -- the channels from `i` on
  unfoldable pub open_channels : (ℕ → Bool) → ℕ → ℕ → W → Probe W (List Channel)
  open_channels allocated zero i w = got [] w
  open_channels allocated (suc n) i w =
      and_then (open_channel (allocated i) i w)
        (λ ch w1. and_then (open_channels allocated n (i + 1) w1) (λ chs w2. got (ch ∷ chs) w2))

  -- from the `calloc` of the channels to `return dev`
  unfoldable pub finish_open : Bool → (ℕ → Bool) → ℕ → ℕ → DeviceConfig → W → Probe W Dev
  finish_open channels_allocated allocated ep_in ep_out devconf w =
      let opened = and_then (open_channels allocated devconf.channel_count 0 w) (λ chs w1.
        got
          (record {
            interface_number = 0;
            ep_in = ep_in;
            ep_out = ep_out;
            devconf = devconf;
            channel_count = devconf.channel_count;
            channels = chs;
            hf_size_rx = largest 0 chs;
            active_channels = 0;
            reader_running = false;
            stop_flag = false;
          })
          w1) in
      if channels_allocated then opened else no_memory w

  -- the HOST_FORMAT request
  unfoldable pub send_host_format : List ℕ → W → Probe W Status
  send_host_format hostcfg w =
      let (rc, w1) = ctrl_out usb Breq.host_format 1 0 hostcfg w in
      if is_error rc then refused rc w1 else got rc w1

  -- from the HOST_FORMAT request on
  unfoldable pub ask_device : Bool → (ℕ → Bool) → ℕ → ℕ → List ℕ → W → Probe W Dev
  ask_device channels_allocated allocated ep_in ep_out hostcfg w =
      and_then (send_host_format hostcfg w) (λ rc w1.
        and_then (request Breq.device_config 1 0 device_config_size w1) (λ raw w2.
          and_then (checked (device_config raw) w2)
            (λ devconf w3. finish_open channels_allocated allocated ep_in ep_out devconf w3)))

  -- from `hostcfg` on
  unfoldable pub configure : Bool → Bool → (ℕ → Bool) → ℕ → ℕ → W → Probe W Dev
  configure dev_allocated channels_allocated allocated ep_in ep_out w =
      and_then (checked (put_le32 (replicate host_config_size 0) 0 0xbeef) w) (λ hostcfg w1.
        if dev_allocated
        then ask_device channels_allocated allocated ep_in ep_out hostcfg w1
        else no_memory w1)
