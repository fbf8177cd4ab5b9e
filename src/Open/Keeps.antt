-- ===== src/Open/Keeps.antt =====
-- The requests of `gsusb_open` keep what every transfer keeps of the world.
use gs_usb_user.Base.{
  ℕ, zero, suc, ◌+◌, Bool, true, false, Option, none, some, List, [], ◌&&◌, u16, has, bit_and,
  replicate, if◌then◌else◌,
}
use gs_usb_user.Device.{BittimingConst, parse_bt_const, parse_bt_const_ext_data_phase}
use gs_usb_user.Rxq.{init}
use gs_usb_user.Status.{Status, is_error}
use gs_usb_user.Open.Outcome.{with_queue}
use gs_usb_user.Usb.{Usb, Setup, ctrl_in, ctrl_out}
use gs_usb_user.Wire.{Breq, put_le32, host_config_size}
use gs_usb_user.Wire.Feature
use gs_usb_user.Open.{
  Probe, got, refused, no_memory, and_then, checked, device_config, request, data_phase,
  open_channel, open_channels, send_host_format, ask_device, finish_open, configure,
}

-- Whatever a part of `gsusb_open` comes to, the world satisfies `R`.
pub data Keeps {W A : Type 0} (R : W → Type 0) : Probe W A → Type 0 where
  well : (a : A) (w : W) → R w → Keeps R (got a w)
  refusal : (rc : Status) (w : W) → R w → Keeps R (refused rc w)
  memory : (w : W) → R w → Keeps R (no_memory w)
  outside : Keeps R Probe.fault

module _ {W : Type 0} (R : W → Type 0) where
  and_then-Keeps :
      {A B : Type 0} {m : Probe W A} (f : A → W → Probe W B)
      → Keeps R m
      → ((a : A) (w : W) → R w → Keeps R (f a w))
      → Keeps R (and_then m f)
  and_then-Keeps f (well a w h) k = k a w h
  and_then-Keeps f (refusal rc w h) k = refusal rc w h
  and_then-Keeps f (memory w h) k = memory w h
  and_then-Keeps f outside k = outside

  checked-Keeps : {A : Type 0} (o : Option A) (w : W) → R w → Keeps R (checked o w)
  checked-Keeps none w h = outside
  checked-Keeps (some a) w h = well a w h

  if-Keeps :
      {A : Type 0} (b : Bool) {m n : Probe W A}
      → Keeps R m
      → Keeps R n
      → Keeps R (if b then m else n)
  if-Keeps true g h = g
  if-Keeps false g h = h

  module _ (usb : Usb W) (reads : (s : Setup) (n : ℕ) (w : W) → R w → R (usb.control_in s n w).2)
      (writes : (s : Setup) (bytes : List ℕ) (w : W) → R w → R (usb.control_out s bytes w).1) where
    request-Keeps :
        (breq : Breq) (value index len : ℕ) (w : W)
        → R w
        → Keeps R (request usb breq value index len w)
    unfolding request ctrl_in
    request-Keeps breq value index len w h =
        let after = reads (record { request = breq; value = value; index = index }) len w h in
        if-Keeps (is_error (ctrl_in usb breq value index len w).0) (refusal _ _ after)
          (well _ _ after)

    send_host_format-Keeps :
        (hostcfg : List ℕ) (w : W) → R w → Keeps R (send_host_format usb hostcfg w)
    unfolding send_host_format ctrl_out
    send_host_format-Keeps hostcfg w h =
        let after =
          writes (record { request = Breq.host_format; value = 1; index = 0 }) hostcfg w h in
        if-Keeps (is_error (ctrl_out usb Breq.host_format 1 0 hostcfg w).0) (refusal _ _ after)
          (well _ _ after)

    data_phase-Keeps :
        (i feature : ℕ) (btc : BittimingConst) (w : W)
        → R w
        → Keeps R (data_phase usb i feature btc w)
    unfolding data_phase
    data_phase-Keeps i feature btc w h =
        if-Keeps (has feature Feature.fd && has feature Feature.bt_const_ext)
          (and_then-Keeps _ (request-Keeps Breq.bt_const_ext (u16 i) 0 _ w h) (λ raw w1 h1.
            and_then-Keeps (λ ext w2. got (true, ext) w2)
              (checked-Keeps (parse_bt_const_ext_data_phase raw btc.feature btc.fclk_can) w1 h1)
              (λ ext w2 h2. well (true, ext) w2 h2)))
          (well _ w h)

    queue_made :
        (i : ℕ) (btc : BittimingConst) (ext : Bool × BittimingConst) (w : W) (allocated : Bool)
        → R w
        → Keeps R (with_queue i btc ext w (init allocated))
    unfolding init
    queue_made i btc ext w true h = well _ w h
    queue_made i btc ext w false h = memory w h

    open_channel-Keeps :
        (allocated : Bool) (i : ℕ) (w : W) → R w → Keeps R (open_channel usb allocated i w)
    unfolding open_channel init
    open_channel-Keeps allocated i w h =
        and_then-Keeps _ (request-Keeps Breq.bt_const (u16 i) 0 _ w h) (λ raw w1 h1.
          and_then-Keeps _ (checked-Keeps (parse_bt_const raw) w1 h1) (λ btc w2 h2.
            and_then-Keeps _ (data_phase-Keeps i (bit_and btc.feature Feature.mask) btc w2 h2)
              (λ ext w3 h3. queue_made i btc ext w3 allocated h3)))

    open_channels-Keeps :
        (allocated : ℕ → Bool) (n i : ℕ) (w : W) → R w → Keeps R (open_channels usb allocated n i w)
    unfolding open_channels
    open_channels-Keeps allocated zero i w h = well [] w h
    open_channels-Keeps allocated (suc n) i w h =
        and_then-Keeps _ (open_channel-Keeps (allocated i) i w h) (λ ch w1 h1.
          and_then-Keeps _ (open_channels-Keeps allocated n (i + 1) w1 h1)
            (λ chs w2 h2. well _ w2 h2))

    pub configure-Keeps :
        (dev_allocated channels_allocated : Bool) (allocated : ℕ → Bool) (ep_in ep_out : ℕ) (w : W)
        → R w
        → Keeps R (configure usb dev_allocated channels_allocated allocated ep_in ep_out w)
    unfolding configure ask_device finish_open
    configure-Keeps dev_allocated channels_allocated allocated ep_in ep_out w h =
        and_then-Keeps _ (checked-Keeps (put_le32 (replicate host_config_size 0) 0 0xbeef) w h)
          (λ hostcfg w1 h1.
            if-Keeps dev_allocated
              (and_then-Keeps _ (send_host_format-Keeps hostcfg w1 h1) (λ rc w2 h2.
                and_then-Keeps _ (request-Keeps Breq.device_config 1 0 _ w2 h2) (λ raw w3 h3.
                  and_then-Keeps _ (checked-Keeps (device_config raw) w3 h3) (λ devconf w4 h4.
                    if-Keeps channels_allocated
                      (and_then-Keeps _
                        (open_channels-Keeps allocated devconf.channel_count 0 w4 h4)
                        (λ chs w5 h5. well _ w5 h5))
                      (memory w4 h4)))))
              (memory w1 h1))
