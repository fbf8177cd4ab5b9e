-- ===== src/Open/Find.antt =====
-- driver/src/gsusb.c: how `gsusb_open` picks a device on the bus and the endpoints of its interface.
-- The list and the descriptors are what libusb gives.
use gs_usb_user.Base.{
  ℕ, Bool, true, false, Option, none, some, List, [], ◌∷◌, ◌==◌, ◌&&◌, ◌||◌, not, bit_and, u8,
  if◌then◌else◌,
}
use gs_usb_user.Base.Int.{ℤ, pos, negsuc}

-- `bInterfaceNumber` of every known device
abbrev pub interface_number : ℕ
interface_number = 0

-- LIBUSB_TRANSFER_TYPE_MASK, LIBUSB_TRANSFER_TYPE_BULK, LIBUSB_ENDPOINT_DIR_MASK and LIBUSB_ENDPOINT_IN,
-- as libusb documents them
abbrev pub transfer_type_mask : ℕ
transfer_type_mask = 3

abbrev pub transfer_type_bulk : ℕ
transfer_type_bulk = 2

abbrev pub endpoint_dir_mask : ℕ
endpoint_dir_mask = 0x80

abbrev pub endpoint_in : ℕ
endpoint_in = 0x80

-- a device of the list; `none` is a descriptor that cannot be read
pub record UsbDevice : Type 0 where
  pub ids : Option (ℕ × ℕ)
  pub bus : ℕ
  pub address : ℕ

-- `(uint8_t)` of an `int` that is not negative; a negative one stands for "any"
abbrev pub is_at : ℤ → ℕ → Bool
is_at (pos n) at = at == u8 n
is_at (negsuc n) at = true

-- the tests of the loop over the list
unfoldable pub is_match : ℕ → ℕ → ℤ → ℤ → UsbDevice → Bool
is_match vid pid bus addr d = elim d.ids [
  | none ↦ false
  | some (v, p) ↦
      if not (v == vid) || not (p == pid)
      then false
      else if not (is_at bus d.bus)
      then false
      else is_at addr d.address
]

unfoldable pub find_device : ℕ → ℕ → ℤ → ℤ → List UsbDevice → Option UsbDevice
find_device vid pid bus addr [] = none
find_device vid pid bus addr (d ∷ ds) =
    if is_match vid pid bus addr d then some d else find_device vid pid bus addr ds

pub record Endpoint : Type 0 where
  pub attributes : ℕ
  pub address : ℕ

-- `altsetting[0]` of an interface
pub record Interface : Type 0 where
  pub number : ℕ
  pub endpoints : List Endpoint

abbrev pub is_bulk : Endpoint → Bool
is_bulk ep = bit_and ep.attributes transfer_type_mask == transfer_type_bulk

abbrev pub is_in : Endpoint → Bool
is_in ep = bit_and ep.address endpoint_dir_mask == endpoint_in

-- `ep_in` and `ep_out` after one endpoint
unfoldable pub note_endpoint : Endpoint → ℕ × ℕ → ℕ × ℕ
note_endpoint ep (ep_in, ep_out) =
    if not (is_bulk ep)
    then (ep_in, ep_out)
    else if is_in ep
    then (if ep_in == 0 then ep.address else ep_in, ep_out)
    else (ep_in, if ep_out == 0 then ep.address else ep_out)

unfoldable pub note_endpoints : List Endpoint → ℕ × ℕ → ℕ × ℕ
note_endpoints [] found = found
note_endpoints (ep ∷ eps) found = note_endpoints eps (note_endpoint ep found)

-- the loop over the interfaces, which ends once both are found
unfoldable pub find_endpoints : List Interface → ℕ × ℕ → ℕ × ℕ
find_endpoints [] found = found
find_endpoints (i ∷ is) found =
    let rest =
      find_endpoints is
        (if i.number == interface_number then note_endpoints i.endpoints found else found) in
    if not (found.0 == 0) && not (found.1 == 0) then found else rest
