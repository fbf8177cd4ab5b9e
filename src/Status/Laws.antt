-- ===== src/Status/Laws.antt =====
-- Error codes and messages tell the errors apart, and a failed transfer is never a success.
use Prim.Native.String.{String}
use gs_usb_user.Base.{◌≡◌, ◌≢◌, refl, ap, Option, none, some, arith}
use gs_usb_user.Status.{Status, status_code, strerror, LibusbError, LibusbCode, map_libusb_err}
use text.Mathlib.Text.{◌==◌ as str_eq}
use gs_usb_user.Base.{if◌then◌else◌}

-- The error that a message describes.
status_of_text : String → Option Status
status_of_text t =
    if str_eq t "success"
    then some Status.ok
    else if str_eq t "I/O error"
    then some Status.io
    else if str_eq t "out of memory"
    then some Status.nomem
    else if str_eq t "device not found"
    then some Status.not_found
    else if str_eq t "permission denied (see udev/99-gsusb.rules, or run as root)"
    then some Status.access
    else if str_eq t "operation timed out"
    then some Status.timeout
    else if str_eq t "invalid argument"
    then some Status.invalid
    else if str_eq t "device or channel busy"
    then some Status.busy
    else if str_eq t "no bit-timing solution for requested bitrate"
    then some Status.no_bittiming_solution
    else none

status_of_text-strerror : (s : Status) → status_of_text (strerror (status_code s)) ≡ some s
unfolding status_of_text strerror
status_of_text-strerror Status.ok = refl
status_of_text-strerror Status.io = refl
status_of_text-strerror Status.nomem = refl
status_of_text-strerror Status.not_found = refl
status_of_text-strerror Status.access = refl
status_of_text-strerror Status.timeout = refl
status_of_text-strerror Status.invalid = refl
status_of_text-strerror Status.busy = refl
status_of_text-strerror Status.no_bittiming_solution = refl

-- Two error codes with one message are the same error.
strerror_injective : (s t : Status) → strerror (status_code s) ≡ strerror (status_code t) → s ≡ t
strerror_injective s t e =
    cc (status_of_text-strerror s, status_of_text-strerror t, ap status_of_text e)

-- A libusb error never becomes success.
pub map_libusb_err-ne-ok : (e : LibusbError) → map_libusb_err (LibusbCode.error e) ≢ Status.ok
unfolding map_libusb_err
map_libusb_err-ne-ok e = ground arith
