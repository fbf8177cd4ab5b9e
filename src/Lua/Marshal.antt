-- ===== src/Lua/Marshal.antt =====
-- sdk/lua/gsusb/lua_gsusb.c: `push_frame` and `check_frame`, a CAN frame as a Lua table and back.
pub mod RoundTrip
use gs_usb_user.Base.{
  ℕ, Bool, true, false, Option, none, some, List, ltb, ◌>>=◌, bit_and, bit_or, has, or_if, u8,
  length, take, if◌then◌else◌, memcpy,
}
use gs_usb_user.Frame.{Frame, zero_frame, max_dlen, eff_flag, rtr_flag, err_flag}
use gs_usb_user.Frame.Id.{mask_of}
use gs_usb_user.Lua.{LuaApi, as_u32, as_u8}

-- the keys of a frame's table
pub data Key : Type 0 where
  id extended rtr err content flags timestamp_us : Key

module _ {V : Type 0} (lua : LuaApi V) where
  -- the table's fields
  unfoldable pub frame_field : Frame → Key → V
  frame_field f id = lua.push_integer (bit_and f.can_id (mask_of (has f.can_id eff_flag)))
  frame_field f extended = lua.push_boolean (has f.can_id eff_flag)
  frame_field f rtr = lua.push_boolean (has f.can_id rtr_flag)
  frame_field f err = lua.push_boolean (has f.can_id err_flag)
  frame_field f content = lua.push_lstring (take f.len f.payload)
  frame_field f flags = lua.push_integer f.flags
  frame_field f timestamp_us = lua.push_integer f.timestamp_us

  -- `none` reads behind `f->data`
  unfoldable pub push_frame : Frame → Option (Key → V)
  push_frame f = if ltb (length f.payload) f.len then none else some (frame_field f)

  -- `f->can_id`, from the fields that make it
  unfoldable pub can_id_of : (Key → V) → Option ℕ
  can_id_of table = do
    n ← lua.check_integer (table id)
    let ext = lua.to_boolean (table extended) in
        some (
          or_if (lua.to_boolean (table rtr)) rtr_flag
            (or_if ext eff_flag (bit_and (as_u32 n) (mask_of ext))))

  -- the field `data`; `none` is an error, for more than 64 bytes too
  unfoldable pub check_content : V → Frame → Option Frame
  check_content v f = if lua.is_nil v then some f else do
    bytes ← lua.check_lstring v
    if ltb max_dlen (length bytes) then none else do
      payload ← memcpy f.payload 0 bytes 0 (length bytes)
      some (record f { payload = payload; len = u8 (length bytes) })

  unfoldable pub check_flags : V → Frame → Option Frame
  check_flags v f =
      if lua.is_nil v
      then some f
      else do n ← lua.check_integer v; some (record f { flags = as_u8 n })

  -- `none` is a Lua error
  unfoldable pub check_frame : (Key → V) → Option Frame
  check_frame table = do
    can_id ← can_id_of table
    f ← check_content (table content) (record zero_frame { can_id = can_id })
    check_flags (table flags) f
