-- ===== src/Device/Parse.antt =====
-- `parse_bt_const` and `parse_bt_const_ext` against the layout of the structures that the device
-- sends, written down from driver/src/gsusb_proto.h.
use gs_usb_user.Base.{
  ℕ, ◌+◌, ◌/◌, ◌^◌, ◌<◌, ◌≡◌, refl, ap, ◌∙◌, some, List, [], ◌∷◌, ◌++◌, arith, u8, get_elem?,
}
use gs_usb_user.Wire.{get_le32}
use gs_usb_user.Wire.RoundTrip.{get_le32-eq}
use gs_usb_user.Device.{BittimingConst, parse_bt_const, parse_bt_const_ext_data_phase}

abbrev pub words : List ℕ → List ℕ
words [] = []
words (v ∷ vs) = u8 v ∷ u8 (v / 2 ^ 8) ∷ u8 (v / 2 ^ 16) ∷ u8 (v / 2 ^ 24) ∷ words vs

-- the limits of one phase, in the order of `struct gs_device_bt_const`
abbrev pub limits : BittimingConst → List ℕ
limits b =
    b.tseg1_min ∷ b.tseg1_max ∷ b.tseg2_min ∷ b.tseg2_max ∷ b.sjw_max ∷ b.brp_min ∷ b.brp_max
    ∷ b.brp_inc ∷ []

abbrev pub bt_const_bytes : BittimingConst → List ℕ
bt_const_bytes b = words (b.feature ∷ b.fclk_can ∷ limits b)

-- with the data phase behind the nominal one
abbrev pub bt_const_ext_bytes : BittimingConst → BittimingConst → List ℕ
bt_const_ext_bytes b e = words (b.feature ∷ b.fclk_can ∷ (limits b ++ limits e))

-- Every field is a 32-bit number.
pub record Is32Bit (b : BittimingConst) : Type 0 where
  pub feature_in : b.feature < 2 ^ 32
  pub fclk_can_in : b.fclk_can < 2 ^ 32
  pub tseg1_min_in : b.tseg1_min < 2 ^ 32
  pub tseg1_max_in : b.tseg1_max < 2 ^ 32
  pub tseg2_min_in : b.tseg2_min < 2 ^ 32
  pub tseg2_max_in : b.tseg2_max < 2 ^ 32
  pub sjw_max_in : b.sjw_max < 2 ^ 32
  pub brp_min_in : b.brp_min < 2 ^ 32
  pub brp_max_in : b.brp_max < 2 ^ 32
  pub brp_inc_in : b.brp_inc < 2 ^ 32

read_word :
    (p : List ℕ) (at v : ℕ)
    → v < 2 ^ 32
    → get_elem? p at ≡ some (u8 v)
    → get_elem? p (at + 1) ≡ some (u8 (v / 2 ^ 8))
    → get_elem? p (at + 2) ≡ some (u8 (v / 2 ^ 16))
    → get_elem? p (at + 3) ≡ some (u8 (v / 2 ^ 24))
    → get_le32 p at ≡ some v
read_word p at v h e0 e1 e2 e3 =
    get_le32-eq p at e0 e1 e2 e3 (omega arith) (omega arith) (omega arith) (omega arith)
    ∙ ap some (omega arith)

-- For limits whose fields are 32-bit numbers, what the device sends as its nominal limits is what
-- the driver stores, field by field.
parse_bt_const-bytes : (b : BittimingConst) → Is32Bit b → parse_bt_const (bt_const_bytes b) ≡ some b
unfolding parse_bt_const
parse_bt_const-bytes b h =
    let p = bt_const_bytes b in
    rw
      (
        read_word p 0 b.feature h.feature_in refl refl refl refl,
        read_word p 4 b.fclk_can h.fclk_can_in refl refl refl refl,
        read_word p 8 b.tseg1_min h.tseg1_min_in refl refl refl refl,
        read_word p 12 b.tseg1_max h.tseg1_max_in refl refl refl refl,
        read_word p 16 b.tseg2_min h.tseg2_min_in refl refl refl refl,
        read_word p 20 b.tseg2_max h.tseg2_max_in refl refl refl refl,
        read_word p 24 b.sjw_max h.sjw_max_in refl refl refl refl,
        read_word p 28 b.brp_min h.brp_min_in refl refl refl refl,
        read_word p 32 b.brp_max h.brp_max_in refl refl refl refl,
        read_word p 36 b.brp_inc h.brp_inc_in refl refl refl refl,
      )
      refl

-- For data-phase limits whose fields are 32-bit numbers, the driver reads them from behind the
-- nominal ones, with the feature bits and the clock that it is given.
parse_bt_const_ext-bytes :
    (b e : BittimingConst)
    → Is32Bit e
    → parse_bt_const_ext_data_phase (bt_const_ext_bytes b e) b.feature b.fclk_can
      ≡ some (record e { feature = b.feature; fclk_can = b.fclk_can })
unfolding parse_bt_const_ext_data_phase
parse_bt_const_ext-bytes b e h =
    let p = bt_const_ext_bytes b e in
    rw
      (
        read_word p 40 e.tseg1_min h.tseg1_min_in refl refl refl refl,
        read_word p 44 e.tseg1_max h.tseg1_max_in refl refl refl refl,
        read_word p 48 e.tseg2_min h.tseg2_min_in refl refl refl refl,
        read_word p 52 e.tseg2_max h.tseg2_max_in refl refl refl refl,
        read_word p 56 e.sjw_max h.sjw_max_in refl refl refl refl,
        read_word p 60 e.brp_min h.brp_min_in refl refl refl refl,
        read_word p 64 e.brp_max h.brp_max_in refl refl refl refl,
        read_word p 68 e.brp_inc h.brp_inc_in refl refl refl refl,
      )
      refl
