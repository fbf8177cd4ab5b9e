-- ===== src/Open/Device.antt =====
-- driver/src/gsusb.c: the whole of `gsusb_open`, with every call of libusb that it makes. Memory is
-- whether an allocation succeeds; the text in `errbuf` is left out.
use gs_usb_user.Base.{ℕ, Bool, true, false, Option, none, some, List, ◌==◌, ◌||◌, if◌then◌else◌}
use gs_usb_user.Base.Int.{ℤ}
use gs_usb_user.Device.{Dev}
use gs_usb_user.Status.{LibusbCode, success, error}
use gs_usb_user.Usb.{Usb}
use gs_usb_user.Open.{Probe, got, refused, no_memory, configure}
use gs_usb_user.Open.Find.{UsbDevice, Interface, find_device, find_endpoints}

-- what libusb offers to find and to claim a device
pub record Libusb (W : Type 0) : Type 0 where
  pub init_context : W → LibusbCode × W
  pub exit_context : W → W
  -- `none` is a negative count
  pub get_device_list : W → Option (List UsbDevice) × W
  pub free_device_list : W → W
  pub open_handle : UsbDevice → W → LibusbCode × W
  pub set_auto_detach : W → W
  pub claim_interface : W → LibusbCode × W
  -- `none` is a failure
  pub get_active_config : W → Option (List Interface) × W
  pub free_config : W → W
  pub release_interface : W → W
  pub close_handle : W → W

-- a device, NULL, or an access out of bounds
pub data Opened (W : Type 0) : Type 0 where
  opened : Dev → W → Opened W
  null : W → Opened W
  fault : Opened W

abbrev pub is_success : LibusbCode → Bool
is_success success = true
is_success (error e) = false

-- whether the allocations succeed
pub record Memory : Type 0 where
  pub dev_allocated : Bool
  pub channels_allocated : Bool
  pub queue_allocated : ℕ → Bool

module _ {W : Type 0} (usb : Usb W) (lib : Libusb W) (mem : Memory) where
  -- `libusb_release_interface` and `libusb_close`, on every path that fails from there on
  unfoldable pub give_up : W → Opened W
  give_up w = null (lib.close_handle (lib.release_interface w))

  -- what is left of `gsusb_open` once the device answers
  unfoldable pub settle : Probe W Dev → Opened W
  settle (got dev w) = opened dev w
  settle (refused rc w) = give_up w
  settle (no_memory w) = give_up w
  settle Probe.fault = fault

  -- from `!ep_in || !ep_out` on
  unfoldable pub open_configured : ℕ × ℕ → W → Opened W
  open_configured (ep_in, ep_out) w =
      if ep_in == 0 || ep_out == 0
      then give_up w
      else settle (
          configure usb mem.dev_allocated mem.channels_allocated mem.queue_allocated ep_in ep_out w)

  -- from `libusb_get_active_config_descriptor` on
  unfoldable pub open_claimed : W → Opened W
  open_claimed w =
      let (config, w1) = lib.get_active_config w in
      elim config [
        | none ↦ give_up w1
        | some interfaces ↦ open_configured (find_endpoints interfaces (0, 0)) (lib.free_config w1)
      ]

  -- from `libusb_claim_interface` on
  unfoldable pub open_handled : W → Opened W
  open_handled w =
      let (rc, w1) = lib.claim_interface w in
      if is_success rc then open_claimed w1 else null (lib.close_handle w1)

  -- from `libusb_open` on
  unfoldable pub open_match : UsbDevice → W → Opened W
  open_match d w =
      let (rc, w1) = lib.open_handle d w in
      let w2 = lib.free_device_list w1 in
      if is_success rc then open_handled (lib.set_auto_detach w2) else null w2

  unfoldable pub open_device : ℕ → ℕ → ℤ → ℤ → W → Opened W
  open_device vid pid bus addr w =
      let (devices, w1) = lib.get_device_list w in
      elim devices [
        | none ↦ null w1
        | some list ↦ elim (find_device vid pid bus addr list) [
          | none ↦ null (lib.free_device_list w1)
          | some d ↦ open_match d w1
        ]
      ]
