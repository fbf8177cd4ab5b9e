-- ===== src/Tools/Dump.antt =====
-- driver/tools/gsusb_dump.c: `print_frame`, as the text that it prints, and the loop of `main`, with
-- turns as in gsusb_react.c.
pub mod Ids
pub mod Main
pub mod Termination
use gs_usb_user.Base.{
  ℕ, zero, suc, ◌+◌, ◌/◌, ◌%◌, Bool, true, false, Option, none, some, List, [], ◌∷◌, ◌++◌, ltb,
  ◌==◌, ◌||◌, not, bit_and, has, length, take, ◌>>=◌, if◌then◌else◌,
}
use gs_usb_user.Frame.{Frame, eff_flag, rtr_flag, err_flag, frame_fd, frame_brs, frame_esi}
use gs_usb_user.Frame.Id.{mask_of}
use gs_usb_user.Device.{Channel}
use gs_usb_user.Recv.{Recv, received, nothing, not_started, waiting, recv}
use gs_usb_user.Tools.Parse.Message.{hex_fixed}
use gs_usb_user.Tools.React.{Turn}

-- `%u`, with at most as many digits as the fuel
unfoldable pub decimal_upto : ℕ → ℕ → List ℕ
decimal_upto zero n = []
decimal_upto (suc fuel) n =
    let higher = decimal_upto fuel (n / 10) in
    (if ltb n 10 then [] else higher) ++ ((48 + n % 10) ∷ [])

-- a 32-bit number has at most ten digits
unfoldable pub decimal : ℕ → List ℕ
decimal n = decimal_upto 10 n

-- `%0*X` of the masked id
unfoldable pub id_text : ℕ → List ℕ
id_text can_id =
    let eff = has can_id eff_flag in
    hex_fixed true (if eff then 8 else 3) (bit_and can_id (mask_of eff))

abbrev pub kind_text : ℕ → List ℕ
kind_text can_id =
    if has can_id err_flag
    then b'E' ∷ b'R' ∷ b'R' ∷ []
    else if has can_id rtr_flag
    then b'R' ∷ []
    else []

-- `#` and the two flags, or the length
abbrev pub format_text : Frame → List ℕ
format_text f =
    if has f.flags frame_fd
    then b'#'
      ∷ (if has f.flags frame_brs then b'B' else b'-')
      ∷ (if has f.flags frame_esi then b'E' else b'-')
      ∷ []
    else b'[' ∷ (decimal f.len ++ (b']' ∷ []))

-- `%02X ` of each byte
abbrev pub bytes_text : List ℕ → List ℕ
bytes_text [] = []
bytes_text (b ∷ bs) = hex_fixed true 2 b ++ (b' ' ∷ bytes_text bs)

-- what a frame without the remote flag shows; `none` reads behind `f->data`
abbrev pub shown_data : Frame → Option (List ℕ)
shown_data f =
    if has f.can_id rtr_flag
    then some []
    else if ltb (length f.payload) f.len
    then none
    else some (b' ' ∷ bytes_text (take f.len f.payload))

-- where the loop is, with the lines printed: left, before another turn, in a wait that has not ended,
-- or out of bounds
pub data Listening : Type 0 where
  left running blocked : List (List ℕ) → Channel → Listening
  crash : Listening

-- `stamp` is what printf makes of `(%10.6f) ` and a time in microseconds.
module _ (stamp : ℕ → List ℕ) where
  unfoldable pub print_frame : ℕ → Frame → Option (List ℕ)
  print_frame channel f = do
    shown ← shown_data f
    some (
        (if not (f.timestamp_us == 0) || has f.flags frame_fd then stamp f.timestamp_us else [])
        ++ (b'c' ∷ b'a' ∷ b'n' ∷ decimal channel)
        ++ (b' ' ∷ b' ' ∷ id_text f.can_id)
        ++ (b' ' ∷ b' ' ∷ kind_text f.can_id)
        ++ format_text f
        ++ shown
        ++ (10 ∷ []))

  -- `printed` holds the lines of the turns before.
  unfoldable pub listen : ℕ → List Turn → Channel → List (List ℕ) → Listening
  listen channel [] ch printed = running printed ch
  listen channel (turn ∷ turns) ch printed =
      if turn.stop then left printed ch else elim (recv 500 turn.waits (turn.meanwhile ch)) [
        | received f ch' ↦ elim (print_frame channel f) [
          | none ↦ crash
          | some line ↦ listen channel turns ch' (printed ++ (line ∷ []))
        ]
        | nothing ch' ↦ listen channel turns ch' printed
        | not_started ch' ↦ left printed ch'
        | waiting ↦ blocked printed ch
        | Recv.fault ↦ crash
      ]
