-- ===== src/Control/Bitrate.antt =====
-- What `set_bitrate` and `set_data_bitrate` send.
use gs_usb_user.Base.{
  ℕ, ◌+◌, ◌-◌, ◌<◌, ◌≤◌, ◌≡◌, ◌≢◌, refl, Option, some, List, ◌++◌, arith, u16, ◌⊎◌, inl, inr,
}
use gs_usb_user.Device.{BittimingConst, Channel}
use gs_usb_user.Status.{Status}
use gs_usb_user.Timing.{Double, Registers}
use gs_usb_user.Timing.Search.{IsBounded, allowed, HasNone}
use gs_usb_user.Timing.Result.{IsSolution, calc_bittiming_correct}
use gs_usb_user.Usb.{Usb, ctrl_out}
use gs_usb_user.Wire.{Breq, put_le32}
use gs_usb_user.Wire.RoundTrip.{le32_bytes}
use gs_usb_user.Control.{
  bittiming_bytes, data_bt_const_of, send_bittiming, set_bitrate, set_data_bitrate,
}

-- `struct gs_device_bittiming`, from driver/src/gsusb_proto.h
abbrev pub register_bytes : Registers → List ℕ
register_bytes r =
    le32_bytes r.prop_seg
    ++ (le32_bytes r.phase_seg1
        ++ (le32_bytes r.phase_seg2 ++ (le32_bytes r.sjw ++ le32_bytes r.brp)))

bittiming_bytes-register_bytes : (r : Registers) → bittiming_bytes r ≡ some (register_bytes r)
unfolding bittiming_bytes put_le32
bittiming_bytes-register_bytes r = refl

-- What setting a bit rate sends: registers that solve the request, or nothing if there are none.
abbrev pub Sent :
    {W : Type 0} → Usb W → Breq → Channel → BittimingConst → ℕ → W → Option (Status × W) → Type 0
Sent usb breq ch btc bitrate w r =
    ((regs : Registers) × IsSolution btc.fclk_can bitrate btc regs
      × (r ≡ some (ctrl_out usb breq (u16 ch.index) 0 (register_bytes regs) w)))
    ⊎ ((r ≡ some (Status.no_bittiming_solution, w))
        × ((k : ℕ)
            → allowed btc k ≤ btc.brp_max
            → HasNone btc.fclk_can bitrate btc (allowed btc k)))

module _ {W F : Type 0} (usb : Usb W) (d : Double F) (fuel : ℕ) (ch : Channel) (bitrate : ℕ)
    (sample_point : F) (w : W) where
  -- For valid arguments under the nominal limits, and enough fuel,
  -- `set_bitrate` sends the 20 bytes of registers that solve the request in one control transfer, or
  -- makes no transfer and reports "no solution" when no allowed prescaler has a timing setting.
  pub set_bitrate-Sent :
      ch.bt_const.fclk_can ≢ 0
      → bitrate ≢ 0
      → ch.bt_const.brp_min ≢ 0
      → ch.bt_const.brp_min ≤ ch.bt_const.brp_max
      → IsBounded ch.bt_const.fclk_can bitrate ch.bt_const
      → ch.bt_const.brp_max + 1 - ch.bt_const.brp_min < fuel
      → Sent usb Breq.bittiming ch ch.bt_const bitrate w
          (set_bitrate usb d fuel ch bitrate sample_point w)
  unfolding set_bitrate send_bittiming
  set_bitrate-Sent hc hb h1 h2 bounds enough =
      let (answer, e, found) =
        calc_bittiming_correct d fuel ch.bt_const.fclk_can bitrate sample_point ch.bt_const hc hb h1
          h2 bounds enough in
      elim found [
        | inl (r, s, good) ↦ inl (r, good, ground (arith, e, s, bittiming_bytes-register_bytes r))
        | inr (s, misfit) ↦ inr (ground (arith, e, s), misfit)
      ]

  -- For valid arguments under the limits of the data phase, which are the nominal ones if the channel has no others, and enough fuel,
  -- `set_data_bitrate` sends the 20 bytes of registers that solve the request in one control transfer, or
  -- makes no transfer and reports "no solution" when no allowed prescaler has a timing setting.
  set_data_bitrate-Sent :
      (data_bt_const_of ch).fclk_can ≢ 0
      → bitrate ≢ 0
      → (data_bt_const_of ch).brp_min ≢ 0
      → (data_bt_const_of ch).brp_min ≤ (data_bt_const_of ch).brp_max
      → IsBounded (data_bt_const_of ch).fclk_can bitrate (data_bt_const_of ch)
      → (data_bt_const_of ch).brp_max + 1 - (data_bt_const_of ch).brp_min < fuel
      → Sent usb Breq.data_bittiming ch
          (data_bt_const_of ch)
          bitrate
          w
          (set_data_bitrate usb d fuel ch bitrate sample_point w)
  unfolding set_data_bitrate send_bittiming
  set_data_bitrate-Sent hc hb h1 h2 bounds enough =
      let btc = data_bt_const_of ch in
      let (answer, e, found) =
        calc_bittiming_correct d fuel btc.fclk_can bitrate sample_point btc hc hb h1 h2 bounds
          enough in
      elim found [
        | inl (r, s, good) ↦ inl (r, good, ground (arith, e, s, bittiming_bytes-register_bytes r))
        | inr (s, misfit) ↦ inr (ground (arith, e, s), misfit)
      ]
