-- ===== src/Tools/Common.antt =====
-- driver/tools/common.h: the known ids and `gsusb_tool_open`; and what it calls of driver/src/gsusb.c
-- besides `gsusb_open`.
pub mod FirstKnown
pub mod Gives
use Prim.Native.String.{String}
use gs_usb_user.Base.{
  ℕ, map, Bool, Option, none, some, List, [], ◌∷◌, ◌&&◌, ◌>>=◌, u16, ◌-◌, ◌%◌, ◌^◌, if◌then◌else◌,
}
use gs_usb_user.Base.Int.{ℤ, pos, negsuc, ltb_ℤ}
use gs_usb_user.Device.{Dev}
use gs_usb_user.Status.{Status, map_libusb_err}
use gs_usb_user.Usb.{Usb}
use gs_usb_user.Open.Device.{Libusb, Memory, Opened, opened, null, fault, open_device}

pub record KnownId : Type 0 where
  pub vid : ℕ
  pub pid : ℕ
  pub name : String

-- with the ids of driver/include/gsusb.h
abbrev pub gsusb_known_ids : List KnownId
gsusb_known_ids =
    record { vid = 0x1d50; pid = 0x606f; name = "gs_usb (original GS USB firmware)" }
    ∷ record { vid = 0x1209; pid = 0x2323; name = "candleLight" }
    ∷ record { vid = 0x1cd2; pid = 0x606f; name = "CES CANext FD" }
    ∷ record { vid = 0x16d0; pid = 0x10b8; name = "ABE canDebugger FD" }
    ∷ record { vid = 0x16d0; pid = 0x0f30; name = "Xylanta Saint3" }
    ∷ record { vid = 0x1209; pid = 0xca01; name = "CANnectivity" }
    ∷ []

-- their vendor and product ids, in the same order
abbrev pub known_ids : List (ℕ × ℕ)
known_ids = map (λ k. (k.vid, k.pid)) gsusb_known_ids

-- `(uint16_t)` of an `int`
abbrev pub as_u16 : ℤ → ℕ
as_u16 (pos n) = u16 n
as_u16 (negsuc n) = 2 ^ 16 - 1 - n % 2 ^ 16

module _ {W : Type 0} (lib : Libusb W) where
  unfoldable pub gsusb_init : W → Status × W
  gsusb_init w = let (rc, w') = lib.init_context w in (map_libusb_err rc, w')

  -- the context is not NULL
  unfoldable pub gsusb_exit : W → W
  gsusb_exit w = lib.exit_context w

module _ {W : Type 0} (usb : Usb W) (lib : Libusb W) (mem : Memory) where
  -- the loop over the known ids; NULL is the call of `exit(1)` behind it
  unfoldable pub try_known : List (ℕ × ℕ) → ℤ → ℤ → W → Opened W
  try_known [] bus addr w = null w
  try_known ((vid, pid) ∷ ids) bus addr w = elim (open_device usb lib mem vid pid bus addr w) [
    | opened dev w' ↦ opened dev w'
    | null w' ↦ try_known ids bus addr w'
    | fault ↦ fault
  ]

  -- NULL is a call of `exit(1)`.
  unfoldable pub tool_open : ℤ → ℤ → ℤ → ℤ → W → Opened W
  tool_open vid pid bus addr w =
      if ltb_ℤ (pos 0) vid && ltb_ℤ (pos 0) pid
      then open_device usb lib mem (as_u16 vid) (as_u16 pid) bus addr w
      else try_known known_ids bus addr w
