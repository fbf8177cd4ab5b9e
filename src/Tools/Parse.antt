-- ===== src/Tools/Parse.antt =====
-- driver/tools/gsusb_send.c: `parse_frame`, and the numbers of driver/tools/common.h.
pub mod Message
pub mod RoundTrip
pub mod Safety
pub mod Hex
use gs_usb_user.Base.{
  ℕ, zero, suc, ◌+◌, ◌*◌, ◌/◌, ◌%◌, Bool, true, false, Option, none, some, List, [], ◌∷◌, ltb, ◌==◌,
  ◌||◌, not, u8, u32, bit_or, has, or_if, length, get_or, set, drop, ◌>>=◌, if◌then◌else◌,
}
use gs_usb_user.Frame.{
  eff_mask, sff_mask, Frame, zero_frame, max_dlen, eff_flag, rtr_flag, frame_fd, frame_brs,
  frame_esi,
}
use gs_usb_user.Tools.Text.{hex_value, strtoul, scan_2x}

abbrev pub is_empty : List ℕ → Bool
is_empty [] = true
is_empty (c ∷ cs) = false

-- `gsusb_parse_hex_u16`; `none` is -1
unfoldable pub parse_hex_u16 : List ℕ → Option ℕ
parse_hex_u16 s =
    let (v, end) = strtoul s in
    if is_empty s || (not (is_empty end) || ltb 0xffff v) then none else some v

-- `gsusb_parse_hex_u32`; the cast drops the upper half
unfoldable pub parse_hex_u32 : List ℕ → Option ℕ
parse_hex_u32 s =
    let (v, end) = strtoul s in if is_empty s || not (is_empty end) then none else some (u32 v)

-- what `parse_frame` comes to: 0 with a frame, -1, or a write outside `f->data`
pub data Parsed (A : Type 0) : Type 0 where
  parsed : A → Parsed A
  refused overrun : Parsed A

abbrev pub prepend : ℕ → Option (List ℕ × List ℕ) → Option (List ℕ × List ℕ)
prepend c none = none
prepend c (some (before, behind)) = some (c ∷ before, behind)

-- `strchr(s, '#')`: the text before the first hash and the text behind it
unfoldable pub split_hash : List ℕ → Option (List ℕ × List ℕ)
split_hash [] = none
split_hash (c ∷ cs) = if c == b'#' then some ([], cs) else prepend c (split_hash cs)

-- the id with its EFF flag
unfoldable pub parse_id : List ℕ → Option ℕ
parse_id idbuf = do
  id ← parse_hex_u32 idbuf
  if ltb 3 (length idbuf)
      then if ltb eff_mask id then none else some (bit_or id eff_flag)
      else if ltb sff_mask id
      then none
      else some id

-- the loop over the bytes: rounds left, `i`, `rest + 2 * i`, and `f->data`
unfoldable pub scan_data : ℕ → ℕ → List ℕ → List ℕ → Parsed (List ℕ)
scan_data zero i rest payload = parsed payload
scan_data (suc n) i rest payload = elim (scan_2x rest) [
  | none ↦ refused
  | some byte ↦ elim (ltb i (length payload)) [
    | true ↦ scan_data n (i + 1) (drop 2 rest) (set payload i (u8 byte))
    | false ↦ overrun
  ]
]

-- the data of both branches, for at most `max` bytes
unfoldable pub parse_data : ℕ → Frame → List ℕ → Parsed Frame
parse_data max f rest =
    let nbytes = length rest / 2 in
    if not (length rest % 2 == 0)
    then refused
    else if ltb max nbytes
    then refused
    else elim (scan_data nbytes 0 rest f.payload) [
      | refused ↦ refused
      | overrun ↦ overrun
      | parsed payload ↦ parsed (record f { payload = payload; len = u8 nbytes })
    ]

-- `f->flags` of an FD frame
abbrev pub fd_flags : ℕ → ℕ
fd_flags flagsval =
    or_if (has flagsval 2) frame_esi (or_if (has flagsval 1) frame_brs (bit_or 0 frame_fd))

unfoldable pub parse_flexible : Frame → List ℕ → Parsed Frame
parse_flexible f [] = refused
parse_flexible f (c ∷ rest) = elim (hex_value c) [
  | none ↦ refused
  | some flagsval ↦ parse_data max_dlen (record f { flags = fd_flags flagsval }) rest
]

unfoldable pub parse_classic : Frame → List ℕ → Parsed Frame
parse_classic f rest =
    if get_or rest 0 0 == b'R' || get_or rest 0 0 == b'r'
    then parsed (record f { can_id = bit_or f.can_id rtr_flag; len = 0 })
    else parse_data 8 f rest

-- what follows the first hash
unfoldable pub parse_body : Frame → List ℕ → Parsed Frame
parse_body f behind =
    if get_or behind 0 0 == b'#' then parse_flexible f (drop 1 behind) else parse_classic f behind

unfoldable pub parse_frame : List ℕ → Parsed Frame
parse_frame s = elim (split_hash s) [
  | none ↦ refused
  | some (idbuf, behind) ↦
      if length idbuf == 0 || ltb 8 (length idbuf) then refused else elim (parse_id idbuf) [
        | none ↦ refused
        | some can_id ↦ parse_body (record zero_frame { can_id = can_id }) behind
      ]
]
