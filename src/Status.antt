-- ===== src/Status.antt =====
-- driver/include/gsusb.h and driver/src/gsusb.c: the error codes, and what a libusb result becomes.
-- A libusb error is known by the name that the source tests; any other is `other`.
pub mod Laws
use Prim.Native.String.{String}
use gs_usb_user.Base.{ℕ, suc, Bool, true, false, ◌==◌, if◌then◌else◌}
use gs_usb_user.Base.Int.{ℤ, pos, negsuc}

-- `enum gsusb_error`
pub data Status : Type 0 where
  ok io nomem not_found access timeout invalid busy no_bittiming_solution : Status

-- the number of each
unfoldable pub status_code : Status → ℤ
status_code Status.ok = pos 0
status_code Status.io = negsuc 0
status_code Status.nomem = negsuc 1
status_code Status.not_found = negsuc 2
status_code Status.access = negsuc 3
status_code Status.timeout = negsuc 4
status_code Status.invalid = negsuc 5
status_code Status.busy = negsuc 6
status_code Status.no_bittiming_solution = negsuc 7

-- `rc` nonzero
abbrev pub is_error : Status → Bool
is_error Status.ok = false
is_error _ = true

-- the libusb codes that the source names
pub data LibusbError : Type 0 where
  timeout access no_device not_found busy no_mem invalid_param io : LibusbError
  other : ℕ → LibusbError

pub data LibusbCode : Type 0 where
  success : LibusbCode
  error : LibusbError → LibusbCode

unfoldable pub map_libusb_err : LibusbCode → Status
map_libusb_err LibusbCode.success = Status.ok
map_libusb_err (LibusbCode.error LibusbError.timeout) = Status.timeout
map_libusb_err (LibusbCode.error LibusbError.access) = Status.access
map_libusb_err (LibusbCode.error LibusbError.no_device) = Status.not_found
map_libusb_err (LibusbCode.error LibusbError.not_found) = Status.not_found
map_libusb_err (LibusbCode.error LibusbError.busy) = Status.busy
map_libusb_err (LibusbCode.error LibusbError.no_mem) = Status.nomem
map_libusb_err (LibusbCode.error LibusbError.invalid_param) = Status.invalid
map_libusb_err (LibusbCode.error _) = Status.io

-- equality of two `int`s
abbrev eq_ℤ : ℤ → ℤ → Bool
eq_ℤ (pos a) (pos b) = a == b
eq_ℤ (negsuc a) (negsuc b) = a == b
eq_ℤ _ _ = false

unfoldable pub strerror : ℤ → String
unfolding status_code
strerror err =
    if eq_ℤ err (status_code Status.ok)
    then "success"
    else if eq_ℤ err (status_code Status.io)
    then "I/O error"
    else if eq_ℤ err (status_code Status.nomem)
    then "out of memory"
    else if eq_ℤ err (status_code Status.not_found)
    then "device not found"
    else if eq_ℤ err (status_code Status.access)
    then "permission denied (see udev/99-gsusb.rules, or run as root)"
    else if eq_ℤ err (status_code Status.timeout)
    then "operation timed out"
    else if eq_ℤ err (status_code Status.invalid)
    then "invalid argument"
    else if eq_ℤ err (status_code Status.busy)
    then "device or channel busy"
    else if eq_ℤ err (status_code Status.no_bittiming_solution)
    then "no bit-timing solution for requested bitrate"
    else "unknown error"
