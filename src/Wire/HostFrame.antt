-- ===== src/Wire/HostFrame.antt =====
-- The layout of `struct gs_host_frame`, written down from the comment in driver/src/gsusb_proto.h and
-- independently of the code that builds and reads it.
use gs_usb_user.Base.{ℕ, ◌/◌, ◌^◌, ◌<◌, ◌≡◌, refl, ap, ◌∙◌, List, [], ◌∷◌, ◌++◌, some, arith, u8}
use gs_usb_user.Wire.{get_le32}
use gs_usb_user.Wire.RoundTrip.{get_le32-eq}

pub record HostFrame : Type 0 where
  pub echo_id : ℕ
  pub can_id : ℕ
  pub can_dlc : ℕ
  pub channel : ℕ
  pub flags : ℕ
  pub reserved : ℕ
  pub payload : List ℕ

-- the twelve bytes before the payload
abbrev pub header_bytes : HostFrame → List ℕ
header_bytes f =
    u8 f.echo_id
    ∷ u8 (f.echo_id / 2 ^ 8)
    ∷ u8 (f.echo_id / 2 ^ 16)
    ∷ u8 (f.echo_id / 2 ^ 24)
    ∷ u8 f.can_id
    ∷ u8 (f.can_id / 2 ^ 8)
    ∷ u8 (f.can_id / 2 ^ 16)
    ∷ u8 (f.can_id / 2 ^ 24)
    ∷ f.can_dlc
    ∷ f.channel
    ∷ f.flags
    ∷ f.reserved
    ∷ []

abbrev pub host_frame_bytes : HostFrame → List ℕ
host_frame_bytes f = header_bytes f ++ f.payload

-- The first two fields are read back from the layout.
pub get_le32-echo_id :
    (f : HostFrame) → f.echo_id < 2 ^ 32 → get_le32 (host_frame_bytes f) 0 ≡ some f.echo_id
get_le32-echo_id f h =
    get_le32-eq (host_frame_bytes f) 0 refl refl refl refl (omega arith) (omega arith) (omega arith)
      (omega arith)
    ∙ ap some (omega arith)

pub get_le32-can_id :
    (f : HostFrame) → f.can_id < 2 ^ 32 → get_le32 (host_frame_bytes f) 4 ≡ some f.can_id
get_le32-can_id f h =
    get_le32-eq (host_frame_bytes f) 4 refl refl refl refl (omega arith) (omega arith) (omega arith)
      (omega arith)
    ∙ ap some (omega arith)
