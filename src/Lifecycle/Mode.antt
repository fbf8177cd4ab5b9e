-- ===== src/Lifecycle/Mode.antt =====
-- The mode bits that go to the device.
use gs_usb_user.Base.{ℕ, ◌≡◌, refl, Bool, true, false, has, or_if}
use gs_usb_user.Device.{Channel}
use gs_usb_user.Wire.HwMode
use gs_usb_user.Lifecycle.{hw_ts, hw_flags}
use gs_usb_user.Lifecycle.ModeFlag

-- the mode bits of seven wishes, in the order of the code
abbrev mask : Bool → Bool → Bool → Bool → Bool → Bool → Bool → ℕ
mask a b c d e f g =
    or_if g 16 (or_if f 256 (or_if e 4096 (or_if d 8 (or_if c 4 (or_if b 2 (or_if a 1 0))))))

abbrev Bits : Bool → Bool → Bool → Bool → Bool → Bool → Bool → Type 0
Bits a b c d e f g =
    (has (mask a b c d e f g) 1 ≡ a)
    × (has (mask a b c d e f g) 2 ≡ b)
    × (has (mask a b c d e f g) 4 ≡ c)
    × (has (mask a b c d e f g) 8 ≡ d)
    × (has (mask a b c d e f g) 4096 ≡ e)
    × (has (mask a b c d e f g) 256 ≡ f)
    × (has (mask a b c d e f g) 16 ≡ g)

-- Each mode bit that goes to the device is set exactly if the caller asks for the mode, and the bit of
-- hardware timestamps exactly if the channel has the feature.
hw_flags_bits :
    (ch : Channel) (m : ℕ)
    → (has (hw_flags ch m) HwMode.listen_only ≡ has m ModeFlag.listen_only)
      × (has (hw_flags ch m) HwMode.loop_back ≡ has m ModeFlag.loopback)
      × (has (hw_flags ch m) HwMode.triple_sample ≡ has m ModeFlag.triple_sample)
      × (has (hw_flags ch m) HwMode.one_shot ≡ has m ModeFlag.one_shot)
      × (has (hw_flags ch m) HwMode.berr_reporting ≡ has m ModeFlag.berr_reporting)
      × (has (hw_flags ch m) HwMode.fd ≡ has m ModeFlag.fd)
      × (has (hw_flags ch m) HwMode.hw_timestamp ≡ hw_ts ch)
unfolding hw_flags
hw_flags_bits ch m = bits (has m 1) (has m 2) (has m 4) (has m 8) (has m 32) (has m 16) (hw_ts ch)
  where
    bits : (a b c d e f g : Bool) → Bits a b c d e f g
    bits true true true true true true true = (refl, refl, refl, refl, refl, refl, refl)
    bits true true true true true true false = (refl, refl, refl, refl, refl, refl, refl)
    bits true true true true true false true = (refl, refl, refl, refl, refl, refl, refl)
    bits true true true true true false false = (refl, refl, refl, refl, refl, refl, refl)
    bits true true true true false true true = (refl, refl, refl, refl, refl, refl, refl)
    bits true true true true false true false = (refl, refl, refl, refl, refl, refl, refl)
    bits true true true true false false true = (refl, refl, refl, refl, refl, refl, refl)
    bits true true true true false false false = (refl, refl, refl, refl, refl, refl, refl)
    bits true true true false true true true = (refl, refl, refl, refl, refl, refl, refl)
    bits true true true false true true false = (refl, refl, refl, refl, refl, refl, refl)
    bits true true true false true false true = (refl, refl, refl, refl, refl, refl, refl)
    bits true true true false true false false = (refl, refl, refl, refl, refl, refl, refl)
    bits true true true false false true true = (refl, refl, refl, refl, refl, refl, refl)
    bits true true true false false true false = (refl, refl, refl, refl, refl, refl, refl)
    bits true true true false false false true = (refl, refl, refl, refl, refl, refl, refl)
    bits true true true false false false false = (refl, refl, refl, refl, refl, refl, refl)
    bits true true false true true true true = (refl, refl, refl, refl, refl, refl, refl)
    bits true true false true true true false = (refl, refl, refl, refl, refl, refl, refl)
    bits true true false true true false true = (refl, refl, refl, refl, refl, refl, refl)
    bits true true false true true false false = (refl, refl, refl, refl, refl, refl, refl)
    bits true true false true false true true = (refl, refl, refl, refl, refl, refl, refl)
    bits true true false true false true false = (refl, refl, refl, refl, refl, refl, refl)
    bits true true false true false false true = (refl, refl, refl, refl, refl, refl, refl)
    bits true true false true false false false = (refl, refl, refl, refl, refl, refl, refl)
    bits true true false false true true true = (refl, refl, refl, refl, refl, refl, refl)
    bits true true false false true true false = (refl, refl, refl, refl, refl, refl, refl)
    bits true true false false true false true = (refl, refl, refl, refl, refl, refl, refl)
    bits true true false false true false false = (refl, refl, refl, refl, refl, refl, refl)
    bits true true false false false true true = (refl, refl, refl, refl, refl, refl, refl)
    bits true true false false false true false = (refl, refl, refl, refl, refl, refl, refl)
    bits true true false false false false true = (refl, refl, refl, refl, refl, refl, refl)
    bits true true false false false false false = (refl, refl, refl, refl, refl, refl, refl)
    bits true false true true true true true = (refl, refl, refl, refl, refl, refl, refl)
    bits true false true true true true false = (refl, refl, refl, refl, refl, refl, refl)
    bits true false true true true false true = (refl, refl, refl, refl, refl, refl, refl)
    bits true false true true true false false = (refl, refl, refl, refl, refl, refl, refl)
    bits true false true true false true true = (refl, refl, refl, refl, refl, refl, refl)
    bits true false true true false true false = (refl, refl, refl, refl, refl, refl, refl)
    bits true false true true false false true = (refl, refl, refl, refl, refl, refl, refl)
    bits true false true true false false false = (refl, refl, refl, refl, refl, refl, refl)
    bits true false true false true true true = (refl, refl, refl, refl, refl, refl, refl)
    bits true false true false true true false = (refl, refl, refl, refl, refl, refl, refl)
    bits true false true false true false true = (refl, refl, refl, refl, refl, refl, refl)
    bits true false true false true false false = (refl, refl, refl, refl, refl, refl, refl)
    bits true false true false false true true = (refl, refl, refl, refl, refl, refl, refl)
    bits true false true false false true false = (refl, refl, refl, refl, refl, refl, refl)
    bits true false true false false false true = (refl, refl, refl, refl, refl, refl, refl)
    bits true false true false false false false = (refl, refl, refl, refl, refl, refl, refl)
    bits true false false true true true true = (refl, refl, refl, refl, refl, refl, refl)
    bits true false false true true true false = (refl, refl, refl, refl, refl, refl, refl)
    bits true false false true true false true = (refl, refl, refl, refl, refl, refl, refl)
    bits true false false true true false false = (refl, refl, refl, refl, refl, refl, refl)
    bits true false false true false true true = (refl, refl, refl, refl, refl, refl, refl)
    bits true false false true false true false = (refl, refl, refl, refl, refl, refl, refl)
    bits true false false true false false true = (refl, refl, refl, refl, refl, refl, refl)
    bits true false false true false false false = (refl, refl, refl, refl, refl, refl, refl)
    bits true false false false true true true = (refl, refl, refl, refl, refl, refl, refl)
    bits true false false false true true false = (refl, refl, refl, refl, refl, refl, refl)
    bits true false false false true false true = (refl, refl, refl, refl, refl, refl, refl)
    bits true false false false true false false = (refl, refl, refl, refl, refl, refl, refl)
    bits true false false false false true true = (refl, refl, refl, refl, refl, refl, refl)
    bits true false false false false true false = (refl, refl, refl, refl, refl, refl, refl)
    bits true false false false false false true = (refl, refl, refl, refl, refl, refl, refl)
    bits true false false false false false false = (refl, refl, refl, refl, refl, refl, refl)
    bits false true true true true true true = (refl, refl, refl, refl, refl, refl, refl)
    bits false true true true true true false = (refl, refl, refl, refl, refl, refl, refl)
    bits false true true true true false true = (refl, refl, refl, refl, refl, refl, refl)
    bits false true true true true false false = (refl, refl, refl, refl, refl, refl, refl)
    bits false true true true false true true = (refl, refl, refl, refl, refl, refl, refl)
    bits false true true true false true false = (refl, refl, refl, refl, refl, refl, refl)
    bits false true true true false false true = (refl, refl, refl, refl, refl, refl, refl)
    bits false true true true false false false = (refl, refl, refl, refl, refl, refl, refl)
    bits false true true false true true true = (refl, refl, refl, refl, refl, refl, refl)
    bits false true true false true true false = (refl, refl, refl, refl, refl, refl, refl)
    bits false true true false true false true = (refl, refl, refl, refl, refl, refl, refl)
    bits false true true false true false false = (refl, refl, refl, refl, refl, refl, refl)
    bits false true true false false true true = (refl, refl, refl, refl, refl, refl, refl)
    bits false true true false false true false = (refl, refl, refl, refl, refl, refl, refl)
    bits false true true false false false true = (refl, refl, refl, refl, refl, refl, refl)
    bits false true true false false false false = (refl, refl, refl, refl, refl, refl, refl)
    bits false true false true true true true = (refl, refl, refl, refl, refl, refl, refl)
    bits false true false true true true false = (refl, refl, refl, refl, refl, refl, refl)
    bits false true false true true false true = (refl, refl, refl, refl, refl, refl, refl)
    bits false true false true true false false = (refl, refl, refl, refl, refl, refl, refl)
    bits false true false true false true true = (refl, refl, refl, refl, refl, refl, refl)
    bits false true false true false true false = (refl, refl, refl, refl, refl, refl, refl)
    bits false true false true false false true = (refl, refl, refl, refl, refl, refl, refl)
    bits false true false true false false false = (refl, refl, refl, refl, refl, refl, refl)
    bits false true false false true true true = (refl, refl, refl, refl, refl, refl, refl)
    bits false true false false true true false = (refl, refl, refl, refl, refl, refl, refl)
    bits false true false false true false true = (refl, refl, refl, refl, refl, refl, refl)
    bits false true false false true false false = (refl, refl, refl, refl, refl, refl, refl)
    bits false true false false false true true = (refl, refl, refl, refl, refl, refl, refl)
    bits false true false false false true false = (refl, refl, refl, refl, refl, refl, refl)
    bits false true false false false false true = (refl, refl, refl, refl, refl, refl, refl)
    bits false true false false false false false = (refl, refl, refl, refl, refl, refl, refl)
    bits false false true true true true true = (refl, refl, refl, refl, refl, refl, refl)
    bits false false true true true true false = (refl, refl, refl, refl, refl, refl, refl)
    bits false false true true true false true = (refl, refl, refl, refl, refl, refl, refl)
    bits false false true true true false false = (refl, refl, refl, refl, refl, refl, refl)
    bits false false true true false true true = (refl, refl, refl, refl, refl, refl, refl)
    bits false false true true false true false = (refl, refl, refl, refl, refl, refl, refl)
    bits false false true true false false true = (refl, refl, refl, refl, refl, refl, refl)
    bits false false true true false false false = (refl, refl, refl, refl, refl, refl, refl)
    bits false false true false true true true = (refl, refl, refl, refl, refl, refl, refl)
    bits false false true false true true false = (refl, refl, refl, refl, refl, refl, refl)
    bits false false true false true false true = (refl, refl, refl, refl, refl, refl, refl)
    bits false false true false true false false = (refl, refl, refl, refl, refl, refl, refl)
    bits false false true false false true true = (refl, refl, refl, refl, refl, refl, refl)
    bits false false true false false true false = (refl, refl, refl, refl, refl, refl, refl)
    bits false false true false false false true = (refl, refl, refl, refl, refl, refl, refl)
    bits false false true false false false false = (refl, refl, refl, refl, refl, refl, refl)
    bits false false false true true true true = (refl, refl, refl, refl, refl, refl, refl)
    bits false false false true true true false = (refl, refl, refl, refl, refl, refl, refl)
    bits false false false true true false true = (refl, refl, refl, refl, refl, refl, refl)
    bits false false false true true false false = (refl, refl, refl, refl, refl, refl, refl)
    bits false false false true false true true = (refl, refl, refl, refl, refl, refl, refl)
    bits false false false true false true false = (refl, refl, refl, refl, refl, refl, refl)
    bits false false false true false false true = (refl, refl, refl, refl, refl, refl, refl)
    bits false false false true false false false = (refl, refl, refl, refl, refl, refl, refl)
    bits false false false false true true true = (refl, refl, refl, refl, refl, refl, refl)
    bits false false false false true true false = (refl, refl, refl, refl, refl, refl, refl)
    bits false false false false true false true = (refl, refl, refl, refl, refl, refl, refl)
    bits false false false false true false false = (refl, refl, refl, refl, refl, refl, refl)
    bits false false false false false true true = (refl, refl, refl, refl, refl, refl, refl)
    bits false false false false false true false = (refl, refl, refl, refl, refl, refl, refl)
    bits false false false false false false true = (refl, refl, refl, refl, refl, refl, refl)
    bits false false false false false false false = (refl, refl, refl, refl, refl, refl, refl)
