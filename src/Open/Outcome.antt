-- ===== src/Open/Outcome.antt =====
-- `gsusb_open` establishes the invariant that the other operations keep.
use gs_usb_user.Base.{
  ℕ, zero, suc, ◌+◌, ◌≡◌, refl, ap, Bool, true, false, Option, none, some, List, [], ◌∷◌, arith,
  ◌&&◌, u16, has, bit_and, length, replicate,
}
use gs_usb_user.Device.{BittimingConst, Channel}
use gs_usb_user.Rxq.{Rxq, init}
use gs_usb_user.Rxq.Invariant.{init-IsValid}
use gs_usb_user.Usb.{Usb, Setup}
use gs_usb_user.Wire.{Breq, device_bt_const_size, device_bt_const_ext_size, device_config_size}
use gs_usb_user.Wire.Feature
use gs_usb_user.Wire.RoundTrip.{put_le32-eq}
use gs_usb_user.Open.{
  Probe, got, no_memory, request, data_phase, open_channel, open_channels, no_limits,
  send_host_format, ask_device, finish_open, configure,
}
use gs_usb_user.Open.Ends.{
  Ends, well, memory, and_then-Ends, checked-Ends, if-Ends, Any, parse_bt_const_total,
  parse_ext_total, device_config_total, request-Ends, send_host_format-Ends,
}
use gs_usb_user.Open.Fresh.{IsFresh, AllFresh, end, next, IsOpened, fields-IsOpened}

-- the end of a turn of the loop over the channels
abbrev pub with_queue :
    {W : Type 0} → ℕ → BittimingConst → Bool × BittimingConst → W → Option Rxq → Probe W Channel
with_queue i btc ext w none = no_memory w
with_queue i btc ext w (some q) =
    got
      (record {
        index = i;
        bt_const = btc;
        has_data_bt_const = ext.0;
        data_bt_const = ext.1;
        feature = bit_and btc.feature Feature.mask;
        started = false;
        hw_ts_enabled = false;
        queue = q;
      })
      w

module _ {W : Type 0} (usb : Usb W)
    (full : (s : Setup) (n : ℕ) (w : W) → length (usb.control_in s n w).1 ≡ n) where
  filled-Ends :
      (breq : Breq) (value index len : ℕ) (w : W)
      → Ends (λ raw. length raw ≡ len) (request usb breq value index len w)
  filled-Ends breq value index len w =
      request-Ends usb (λ (raw : List ℕ). length raw ≡ len) breq value index len w (full _ len)

  data_phase-Ends :
      (i feature : ℕ) (btc : BittimingConst) (w : W) → Ends Any (data_phase usb i feature btc w)
  unfolding data_phase
  data_phase-Ends i feature btc w =
      if-Ends (has feature Feature.fd && has feature Feature.bt_const_ext)
        (and_then-Ends _ (filled-Ends Breq.bt_const_ext (u16 i) 0 device_bt_const_ext_size w)
          (λ raw w1 l.
            and_then-Ends _ (checked-Ends _ w1 (parse_ext_total raw btc.feature btc.fclk_can l))
              (λ ext w2 a. well (true, ext) w2 tt)))
        (well (false, no_limits) w tt)

  queue_made :
      (i : ℕ) (btc : BittimingConst) (ext : Bool × BittimingConst) (w : W) (allocated : Bool)
      → Ends (IsFresh i) (with_queue i btc ext w (init allocated))
  unfolding init
  queue_made i btc ext w true =
      let (v, z) = init-IsValid _ refl in
      well _ w (record { numbered = refl; queued = v; at_rest = refl; nothing_queued = z })
  queue_made i btc ext w false = memory w

  open_channel-Ends :
      (allocated : Bool) (i : ℕ) (w : W) → Ends (IsFresh i) (open_channel usb allocated i w)
  unfolding open_channel
  open_channel-Ends allocated i w =
      and_then-Ends _ (filled-Ends Breq.bt_const (u16 i) 0 device_bt_const_size w) (λ raw w1 l.
        and_then-Ends _ (checked-Ends _ w1 (parse_bt_const_total raw l)) (λ btc w2 a.
          and_then-Ends _ (data_phase-Ends i (bit_and btc.feature Feature.mask) btc w2)
            (λ ext w3 b. queue_made i btc ext w3 allocated)))

  open_channels-Ends :
      (allocated : ℕ → Bool) (n i : ℕ) (w : W)
      → Ends (λ chs. AllFresh i chs × (length chs ≡ n)) (open_channels usb allocated n i w)
  unfolding open_channels
  open_channels-Ends allocated zero i w = well [] w (end, refl)
  open_channels-Ends allocated (suc n) i w =
      and_then-Ends _ (open_channel-Ends (allocated i) i w) (λ ch w1 f.
        and_then-Ends _ (open_channels-Ends allocated n (i + 1) w1)
          (λ chs w2 fs. well (ch ∷ chs) w2 (next f fs.0, ap suc fs.1)))

  -- The requests of `gsusb_open` end in a device at rest, whose channels are numbered from 0 with valid
  -- queues, or in an error; provided that the buffer of a control transfer in keeps its size, none of
  -- them leads to a read or write out of bounds. The buffer of the reader has room for the largest
  -- packet of every channel.
  pub configure-Ends :
      (dev_allocated channels_allocated : Bool) (allocated : ℕ → Bool) (ep_in ep_out : ℕ) (w : W)
      → Ends IsOpened (configure usb dev_allocated channels_allocated allocated ep_in ep_out w)
  unfolding configure ask_device finish_open send_host_format
  configure-Ends dev_allocated channels_allocated allocated ep_in ep_out w =
      and_then-Ends _
        (checked-Ends {P = Any} _ w (_, put_le32-eq (replicate 4 0) 0 0xbeef (omega arith), tt))
        (λ hostcfg w1 a.
          if-Ends dev_allocated
            (and_then-Ends _ (send_host_format-Ends usb hostcfg w1) (λ rc w2 b.
              and_then-Ends _ (filled-Ends Breq.device_config 1 0 device_config_size w2)
                (λ raw w3 l.
                  and_then-Ends _ (checked-Ends _ w3 (device_config_total raw l)) (λ devconf w4 c.
                    if-Ends channels_allocated
                      (and_then-Ends _ (open_channels-Ends allocated devconf.channel_count 0 w4)
                        (λ chs w5 fs.
                          well _ w5 (fields-IsOpened ep_in ep_out devconf chs c fs.0 fs.1)))
                      (memory w4)))))
            (memory w1))
