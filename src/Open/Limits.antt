-- ===== src/Open/Limits.antt =====
-- The bit-timing limits of an open device are those that it reported.
use gs_usb_user.Base.{
  ℕ, zero, suc, ◌+◌, ◌≡◌, refl, Bool, true, false, Option, none, some, List, [], ◌∷◌, arith, ◌&&◌,
  u16, has, bit_and, get_elem?, length, replicate,
}
use gs_usb_user.Device.{BittimingConst, Channel}
use gs_usb_user.Rxq.{Rxq, init}
use gs_usb_user.Control.{data_bt_const_of}
use gs_usb_user.Usb.{Usb, Setup}
use gs_usb_user.Wire.{Breq, device_bt_const_size, device_bt_const_ext_size, device_config_size}
use gs_usb_user.Wire.RoundTrip.{put_le32-eq}
use gs_usb_user.Wire.Feature
use gs_usb_user.Open.{
  data_phase, open_channel, open_channels, no_limits, ask_device, finish_open, configure,
}
use gs_usb_user.Open.Outcome.{with_queue}
use gs_usb_user.Open.Ends.{
  Ends, well, memory, Any, ReadsAt, and_then-Ends, checked-Ends, if-Ends, parse_bt_const_total,
  parse_ext_total, device_config_total, request-Ends, send_host_format-Ends,
}

-- What the answers say of a largest prescaler and its step, at the places where a channel's limits
-- stand in them, and of the answers' lengths.
pub record Reports {W : Type 0} (usb : Usb W) (R : ℕ → ℕ → Type 0) : Type 0 where
  pub full : (s : Setup) (n : ℕ) (w : W) → length (usb.control_in s n w).1 ≡ n
  pub nominal :
      (i : ℕ) (w : W) (b : BittimingConst)
      → ReadsAt
          (usb.control_in (record { request = Breq.bt_const; value = i; index = 0 }) 40 w).1
          32
          b
      → R b.brp_max b.brp_inc
  pub extended :
      (i : ℕ) (w : W) (b : BittimingConst)
      → ReadsAt
          (usb.control_in (record { request = Breq.bt_const_ext; value = i; index = 0 }) 72 w).1
          64
          b
      → R b.brp_max b.brp_inc

module _ (R : ℕ → ℕ → Type 0) where
  -- the limits that the bit rates of a channel are set under
  pub record HasLimits (ch : Channel) : Type 0 where
    pub nominal : R ch.bt_const.brp_max ch.bt_const.brp_inc
    pub fast : R (data_bt_const_of ch).brp_max (data_bt_const_of ch).brp_inc

  pub data AllLimits : List Channel → Type 0 where
    end : AllLimits []
    next : {ch : Channel} {chs : List Channel} → HasLimits ch → AllLimits chs → AllLimits (ch ∷ chs)

  pub AllLimits-at :
      (chs : List Channel) (k : ℕ) (ch : Channel)
      → AllLimits chs
      → get_elem? chs k ≡ some ch
      → HasLimits ch
  AllLimits-at (x ∷ xs) zero ch (next f fs) e = ground (arith, f.nominal, f.fast)
  AllLimits-at (x ∷ xs) (suc k) ch (next f fs) e = AllLimits-at xs k ch fs e
  AllLimits-at [] k ch end e = ground arith

  module _ {W : Type 0} (usb : Usb W) (r : Reports usb R) where
    -- a channel has limits of the data phase if it says so
    abbrev FastLimits : Bool × BittimingConst → Type 0
    FastLimits ext = ext.0 ≡ true → R ext.1.brp_max ext.1.brp_inc

    data_phase-limits :
        (i feature : ℕ) (btc : BittimingConst) (w : W)
        → Ends FastLimits (data_phase usb i feature btc w)
    unfolding data_phase
    data_phase-limits i feature btc w =
        if-Ends (has feature Feature.fd && has feature Feature.bt_const_ext)
          (and_then-Ends _
            (request-Ends usb
              (λ (raw : List ℕ).
                (length raw ≡ 72)
                × ((b : BittimingConst) → ReadsAt raw 64 b → R b.brp_max b.brp_inc))
              Breq.bt_const_ext (u16 i) 0 device_bt_const_ext_size w
              (λ w'. (r.full _ 72 w', r.extended (u16 i) w')))
            (λ raw w1 l.
              and_then-Ends _ (checked-Ends _ w1 (parse_ext_total raw btc.feature btc.fclk_can l.0))
                (λ ext w2 a. well (true, ext) w2 (λ e. l.1 ext a))))
          (well (false, no_limits) w (λ e. ground arith))

    with_queue-limits :
        (i : ℕ) (btc : BittimingConst) (ext : Bool × BittimingConst) (w : W) (q : Option Rxq)
        → R btc.brp_max btc.brp_inc
        → FastLimits ext
        → Ends HasLimits (with_queue i btc ext w q)
    with_queue-limits i btc ext w none n f = memory w
    with_queue-limits i btc (true, fast) w (some q) n f =
        well _ w (record { nominal = n; fast = f refl })
    with_queue-limits i btc (false, fast) w (some q) n f =
        well _ w (record { nominal = n; fast = n })

    open_channel-limits :
        (allocated : Bool) (i : ℕ) (w : W) → Ends HasLimits (open_channel usb allocated i w)
    unfolding open_channel
    open_channel-limits allocated i w =
        and_then-Ends _
          (request-Ends usb
            (λ (raw : List ℕ).
              (length raw ≡ 40) × ((b : BittimingConst) → ReadsAt raw 32 b → R b.brp_max b.brp_inc))
            Breq.bt_const (u16 i) 0 device_bt_const_size w
            (λ w'. (r.full _ 40 w', r.nominal (u16 i) w')))
          (λ raw w1 l.
            and_then-Ends _ (checked-Ends _ w1 (parse_bt_const_total raw l.0)) (λ btc w2 a.
              and_then-Ends _ (data_phase-limits i (bit_and btc.feature Feature.mask) btc w2)
                (λ ext w3 f. with_queue-limits i btc ext w3 (init allocated) (l.1 btc a) f)))

    open_channels-limits :
        (allocated : ℕ → Bool) (n i : ℕ) (w : W)
        → Ends AllLimits (open_channels usb allocated n i w)
    unfolding open_channels
    open_channels-limits allocated zero i w = well [] w end
    open_channels-limits allocated (suc n) i w =
        and_then-Ends _ (open_channel-limits (allocated i) i w) (λ ch w1 f.
          and_then-Ends _ (open_channels-limits allocated n (i + 1) w1)
            (λ chs w2 fs. well (ch ∷ chs) w2 (next f fs)))

    -- What is known of the answers is known of the limits of every channel of a device that opens.
    pub configure-limits :
        (dev_allocated channels_allocated : Bool) (allocated : ℕ → Bool) (ep_in ep_out : ℕ) (w : W)
        → Ends
            (λ dev. AllLimits dev.channels)
            (configure usb dev_allocated channels_allocated allocated ep_in ep_out w)
    unfolding configure ask_device finish_open
    configure-limits dev_allocated channels_allocated allocated ep_in ep_out w =
        and_then-Ends _
          (checked-Ends {P = Any} _ w (_, put_le32-eq (replicate 4 0) 0 0xbeef (omega arith), tt))
          (λ hostcfg w1 a.
            if-Ends dev_allocated
              (and_then-Ends _ (send_host_format-Ends usb hostcfg w1) (λ rc w2 b.
                and_then-Ends _
                  (request-Ends usb (λ (raw : List ℕ). length raw ≡ 12) Breq.device_config 1 0
                    device_config_size w2 (r.full _ 12))
                  (λ raw w3 l.
                    and_then-Ends _ (checked-Ends _ w3 (device_config_total raw l)) (λ devconf w4 c.
                      if-Ends channels_allocated
                        (and_then-Ends _ (open_channels-limits allocated devconf.channel_count 0 w4)
                          (λ chs w5 fs. well _ w5 fs))
                        (memory w4)))))
              (memory w1))
