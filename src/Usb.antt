-- ===== src/Usb.antt =====
-- What the driver takes from libusb and pthreads, neither of which is part of the repository: one
-- function for each call, over a world `W` that stands for the device, the bus and the scheduler. A
-- call may return anything; results that a theorem relies on are hypotheses of it.
-- The handle, the request type and the timeout of control transfers are the same at every call and
-- are left out.
use gs_usb_user.Base.{ℕ, Bool, List, length, ◌==◌, if◌then◌else◌}
use gs_usb_user.Status.{Status, LibusbError, LibusbCode, map_libusb_err}
use gs_usb_user.Wire.{Breq}

-- the `int` of `libusb_control_transfer`: a count of bytes, or a negative error
pub data Transfer : Type 0 where
  moved : ℕ → Transfer
  failed : LibusbError → Transfer

pub record Setup : Type 0 where
  pub request : Breq
  pub value : ℕ
  pub index : ℕ

pub record Usb (W : Type 0) : Type 0 where
  -- the bytes sent
  pub control_out : Setup → List ℕ → W → Transfer × W
  -- the length asked for; what the buffer holds afterwards
  pub control_in : Setup → ℕ → W → Transfer × List ℕ × W
  -- endpoint, bytes, timeout in ms; the code and the count transferred
  pub bulk_out : ℕ → List ℕ → ℕ → W → LibusbCode × ℕ × W
  -- `pthread_create` of the reader: whether it gave 0
  pub create_reader : W → Bool × W
  -- `pthread_join` of the reader
  pub join_reader : W → W

-- The status of a transfer that should move `len` bytes.
abbrev pub transfer_status : Transfer → ℕ → Status
transfer_status (failed e) len = map_libusb_err (LibusbCode.error e)
transfer_status (moved n) len = if n == len then Status.ok else Status.io

module _ {W : Type 0} (usb : Usb W) where
  unfoldable pub ctrl_out : Breq → ℕ → ℕ → List ℕ → W → Status × W
  ctrl_out breq value index bytes w =
      let (rc, w') =
        usb.control_out (record { request = breq; value = value; index = index }) bytes w in
      (transfer_status rc (length bytes), w')

  unfoldable pub ctrl_in : Breq → ℕ → ℕ → ℕ → W → Status × List ℕ × W
  ctrl_in breq value index len w =
      let (rc, bytes, w') =
        usb.control_in (record { request = breq; value = value; index = index }) len w in
      (transfer_status rc len, bytes, w')
