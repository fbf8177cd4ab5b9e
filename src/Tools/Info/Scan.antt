-- ===== src/Tools/Info/Scan.antt =====
-- driver/tools/gsusb_info.c: `do_scan`, as what it prints.
pub mod Agreement
pub mod Reopening
use Prim.Native.String.{String}
use gs_usb_user.Base.{
  ℕ, zero, suc, ◌+◌, ◌/◌, ◌%◌, Bool, true, false, Option, none, some, List, [], ◌∷◌, ◌++◌, ltb,
  ◌==◌, ◌&&◌, ◌||◌, not, if◌then◌else◌,
}
use gs_usb_user.Base.Int.{ℤ, pos, negsuc, ltb_ℤ}
use gs_usb_user.Status.{is_error}
use gs_usb_user.Open.Find.{UsbDevice, is_at}
use gs_usb_user.Open.Device.{Libusb, is_success}
use gs_usb_user.Tools.Text.{codes}
use gs_usb_user.Tools.Common.{KnownId, gsusb_known_ids}

-- libusb on the texts of a device. `text` is what `libusb_get_string_descriptor_ascii` leaves in a
-- buffer of 128 bytes that was empty, up to its NUL.
pub record Strings (W : Type 0) : Type 0 where
  pub manufacturer : UsbDevice → ℕ
  pub product : UsbDevice → ℕ
  pub text : UsbDevice → ℕ → W → List ℕ × W

-- `%0*u`
abbrev pub decimal_fixed : ℕ → ℕ → List ℕ
decimal_fixed zero n = []
decimal_fixed (suc width) n = decimal_fixed width (n / 10) ++ ((48 + n % 10) ∷ [])

-- `%0*x`
abbrev pub hex_lower : ℕ → ℕ → List ℕ
hex_lower zero n = []
hex_lower (suc width) n =
    let digit = n % 16 in
    hex_lower width (n / 16) ++ ((if ltb digit 10 then 48 + digit else 87 + digit) ∷ [])

abbrev pub is_int : ℕ → ℤ → Bool
is_int n (pos m) = n == m
is_int n (negsuc m) = false

-- the loop over the known ids
unfoldable pub known_name : List KnownId → ℕ → ℕ → Option String
known_name [] v p = none
known_name (k ∷ ks) v p = if v == k.vid && p == k.pid then some k.name else known_name ks v p

-- `name`, or a `continue`
unfoldable pub name_of : ℤ → ℤ → ℕ → ℕ → Option String
name_of vid pid v p =
    if ltb_ℤ (pos 0) vid && ltb_ℤ (pos 0) pid
    then if not (is_int v vid) || not (is_int p pid) then none else some "user-specified"
    else known_name gsusb_known_ids v p

-- the tests of the loop over the list: the ids and the name of a device that they let through
unfoldable pub listing : ℤ → ℤ → ℤ → ℤ → UsbDevice → Option (ℕ × ℕ × String)
listing vid pid bus addr d = elim d.ids [
  | none ↦ none
  | some (v, p) ↦ elim (name_of vid pid v p) [
    | none ↦ none
    | some name ↦
        if not (is_at bus d.bus)
        then none
        else if not (is_at addr d.address)
        then none
        else some (v, p, name)
  ]
]

-- the line behind the list
abbrev pub summary : ℕ → List ℕ
summary found = if found == 0 then codes "no matching devices found" ++ (10 ∷ []) else []

-- the second line of a device
abbrev pub maker_line : List ℕ → List ℕ → List ℕ
maker_line [] [] = []
maker_line [] (p ∷ ps) = codes "    " ++ (p ∷ ps) ++ (10 ∷ [])
maker_line (m ∷ ms) [] = codes "    " ++ (m ∷ ms) ++ (10 ∷ [])
maker_line (m ∷ ms) (p ∷ ps) = codes "    " ++ (m ∷ ms) ++ (b' ' ∷ p ∷ ps) ++ (10 ∷ [])

abbrev pub device_line : UsbDevice → ℕ × ℕ × String → List ℕ
device_line d (v, p, name) =
    codes "bus "
    ++ decimal_fixed 3 d.bus
    ++ codes " addr "
    ++ decimal_fixed 3 d.address
    ++ codes "  "
    ++ hex_lower 4 v
    ++ (b':' ∷ hex_lower 4 p)
    ++ codes "  "
    ++ codes name
    ++ (10 ∷ [])

module _ {W : Type 0} (lib : Libusb W) (strings : Strings W) where
  -- one text, if the device has an index for it
  unfoldable pub read_text : UsbDevice → ℕ → W → List ℕ × W
  read_text d index w = if index == 0 then ([], w) else strings.text d index w

  -- `manuf` and `prod`, from `libusb_open` to `libusb_close`
  unfoldable pub read_maker : UsbDevice → W → List ℕ × List ℕ × W
  read_maker d w =
      let (rc, w1) = lib.open_handle d w in
      let (manuf, w2) = read_text d (strings.manufacturer d) w1 in
      let (prod, w3) = read_text d (strings.product d) w2 in
      if is_success rc then (manuf, prod, lib.close_handle w3) else ([], [], w1)

  -- the loop over the list: `found`, the text, and the other side
  unfoldable pub scan_list : ℤ → ℤ → ℤ → ℤ → List UsbDevice → W → ℕ × List ℕ × W
  scan_list vid pid bus addr [] w = (0, [], w)
  scan_list vid pid bus addr (d ∷ ds) w = elim (listing vid pid bus addr d) [
    | none ↦ scan_list vid pid bus addr ds w
    | some ids ↦
        let (manuf, prod, w1) = read_maker d w in
        let (found, text, w2) = scan_list vid pid bus addr ds w1 in
        (found + 1, device_line d ids ++ maker_line manuf prod ++ text, w2)
  ]

  -- the text, or the call of `exit(1)`
  unfoldable pub do_scan : ℤ → ℤ → ℤ → ℤ → W → Option (List ℕ) × W
  do_scan vid pid bus addr w =
      let (rc, w1) = lib.init_context w in
      let (devices, w2) = lib.get_device_list w1 in
      if not (is_success rc) then (none, w1) else elim devices [
        | none ↦ (none, w2)
        | some list ↦
            let (found, text, w3) = scan_list vid pid bus addr list w2 in
            (some (text ++ summary found), lib.exit_context w3)
      ]
