-- ===== src/Tools/Info.antt =====
-- driver/tools/gsusb_info.c: what it prints of the channels of a device.
pub mod Scan
pub mod Main
pub mod Outcome
use Prim.Native.String.{String}
use gs_usb_user.Base.{
  ℕ, Bool, true, false, Option, none, some, List, [], ◌∷◌, ◌++◌, has, not, ◌>>=◌, if◌then◌else◌,
}
use gs_usb_user.Device.{BittimingConst, DeviceConfig, Channel, channel_data_bt_const}
use gs_usb_user.Status.{Status, is_error}
use gs_usb_user.Usb.{Usb}
use gs_usb_user.Wire.Feature
use gs_usb_user.Control.{get_termination}
use gs_usb_user.Tools.Text.{codes}
use gs_usb_user.Tools.Dump.{decimal}

-- `tbl`
abbrev pub feature_names : List (ℕ × String)
feature_names =
    (Feature.listen_only, "listen-only")
    ∷ (Feature.loop_back, "loopback")
    ∷ (Feature.triple_sample, "triple-sample")
    ∷ (Feature.one_shot, "one-shot")
    ∷ (Feature.hw_timestamp, "hw-timestamp")
    ∷ (Feature.identify, "identify")
    ∷ (Feature.user_id, "user-id")
    ∷ (Feature.pad_pkts_to_max, "pad-pkts")
    ∷ (Feature.fd, "canfd")
    ∷ (Feature.bt_const_ext, "bt-const-ext")
    ∷ (Feature.termination, "termination")
    ∷ (Feature.berr_reporting, "berr-reporting")
    ∷ (Feature.get_state, "get-state")
    ∷ []

-- the loop over the table; the flag is `first`
unfoldable pub print_names : ℕ → Bool → List (ℕ × String) → List ℕ
print_names f true [] = codes "(none)"
print_names f false [] = []
print_names f first ((bit, name) ∷ rest) =
    if has f bit
    then (if first then [] else b' ' ∷ []) ++ codes name ++ print_names f false rest
    else print_names f first rest

unfoldable pub print_features : ℕ → List ℕ
print_features f = print_names f true feature_names ++ (10 ∷ [])

-- `%u..%u`
abbrev pub range_text : ℕ → ℕ → List ℕ
range_text lo hi = decimal lo ++ codes ".." ++ decimal hi

unfoldable pub print_bt_const : BittimingConst → String → List ℕ
print_bt_const btc label =
    codes "    "
    ++ codes label
    ++ codes ": clock="
    ++ decimal btc.fclk_can
    ++ codes " Hz  tseg1="
    ++ range_text btc.tseg1_min btc.tseg1_max
    ++ codes "  tseg2="
    ++ range_text btc.tseg2_min btc.tseg2_max
    ++ codes "  sjw_max="
    ++ decimal btc.sjw_max
    ++ codes "  brp="
    ++ range_text btc.brp_min btc.brp_max
    ++ codes " step "
    ++ decimal btc.brp_inc
    ++ (10 ∷ [])

unfoldable pub print_config : DeviceConfig → List ℕ
print_config dc =
    codes "device: sw_version="
    ++ decimal dc.sw_version
    ++ codes " hw_version="
    ++ decimal dc.hw_version
    ++ codes " channels="
    ++ decimal dc.channel_count
    ++ (10 ∷ [])

-- the line on the data phase
unfoldable pub print_data_phase : Channel → List ℕ
print_data_phase ch = elim (channel_data_bt_const ch) [
  | some dbtc ↦ print_bt_const dbtc "data-phase timing  "
  | none ↦
      if has ch.feature Feature.fd
      then codes "    data-phase timing  : shares nominal timing constants above" ++ (10 ∷ [])
      else []
]

-- the line on the termination, if the channel says that it has one and tells its state
unfoldable pub termination_text : Status → Option Bool → List ℕ
termination_text rc none = []
termination_text rc (some on) =
    if is_error rc
    then []
    else codes "    termination: "
      ++ codes (if on then "120 ohm enabled" else "disabled")
      ++ (10 ∷ [])

module _ {W : Type 0} (usb : Usb W) where
  -- `none` is an access out of bounds
  unfoldable pub print_termination : Channel → W → Option (List ℕ × W)
  print_termination ch w =
      if not (has ch.feature Feature.termination)
      then some ([], w)
      else do (rc, on, w') ← get_termination usb ch w; some (termination_text rc on, w')

  -- the body of the loop over the channels
  unfoldable pub print_channel : ℕ → Channel → W → Option (List ℕ × W)
  print_channel i ch w = do
    (last, w') ← print_termination ch w
    some (
      codes "  channel "
          ++ decimal i
          ++ codes ": features: "
          ++ print_features ch.feature
          ++ print_bt_const ch.bt_const "nominal bit timing"
          ++ print_data_phase ch
          ++ last,
      w',
    )
