-- ===== src/Lua/Methods.antt =====
-- sdk/lua/gsusb/lua_gsusb.c: the methods of a channel behind `check_channel`, and the values that they
-- return. A userdata of a channel stands for the device and the index of the channel in it.
pub mod Forward
use gs_usb_user.Base.{
  ℕ, Bool, true, false, Option, none, some, List, get_elem?, ◌>>=◌, if◌then◌else◌,
}
use gs_usb_user.Base.Int.{ℤ, pos}
use gs_usb_user.Frame.{Frame}
use gs_usb_user.Device.{Channel, Dev}
use gs_usb_user.Status.{Status, is_error}
use gs_usb_user.Usb.{Usb}
use gs_usb_user.Timing.{Double}
use gs_usb_user.Tx.{send}
use gs_usb_user.Recv.{Recv, Wait, received, nothing, not_started, waiting, recv}
use gs_usb_user.Control.{CanState, set_bitrate, get_state, set_identify}
use gs_usb_user.Lifecycle.{start, stop}
use gs_usb_user.Lua.{LuaApi, as_u32}
use gs_usb_user.Lua.Marshal.{Key, push_frame, check_frame}

-- what a method leaves to the script: true, nil and a message that tells the error, a single nil, the
-- table of a frame, numbers, or a Lua error
pub data Returned (V : Type 0) : Type 0 where
  truth timed_out raised : Returned V
  error_of : Status → Returned V
  table_of : (Key → V) → Returned V
  state_of : CanState → Returned V
  number : ℕ → Returned V

-- `push_gsusb_error` or `lua_pushboolean(L, 1)`
abbrev pub status_values : {V : Type 0} → Status → Returned V
status_values rc = if is_error rc then error_of rc else truth

module _ {V : Type 0} (lua : LuaApi V) where
  -- `luaL_optinteger`
  abbrev pub opt_integer : V → ℤ → Option ℤ
  opt_integer v default = if lua.is_nil v then some default else lua.check_integer v

  -- In each method `none` is a fault of the driver, or for `l_ch_set_bitrate` a search that goes on.
  module _ {W : Type 0} (usb : Usb W) where
    unfoldable pub l_ch_set_bitrate :
        {F : Type 0} → Double F → ℕ → Channel → V → Option F → W → Option (Returned V × W)
    l_ch_set_bitrate d fuel ch bitrate sample_point w = elim (lua.check_integer bitrate) [
      | none ↦ some (raised, w)
      | some n ↦ elim sample_point [
        | none ↦ some (raised, w)
        | some sp ↦ do
          (rc, w') ← set_bitrate usb d fuel ch (as_u32 n) sp w
          some (status_values rc, w')
      ]
    ]

    unfoldable pub l_ch_start : Dev → ℕ → V → W → Option (Returned V × Dev × W)
    l_ch_start dev k mode_flags w = elim (opt_integer mode_flags (pos 0)) [
      | none ↦ some (raised, dev, w)
      | some n ↦ do
        ((rc, dev'), w') ← start usb dev k (as_u32 n) w
        some (status_values rc, dev', w')
    ]

    -- `gsusb_channel_stop` reports no error
    unfoldable pub l_ch_stop : Dev → ℕ → W → Option (Returned V × Dev × W)
    l_ch_stop dev k w = do (dev', w') ← stop usb dev k w; some (truth, dev', w')

    unfoldable pub l_ch_send : Dev → Channel → (Key → V) → V → W → Option (Returned V × W)
    l_ch_send dev ch table timeout_ms w = elim (check_frame lua table) [
      | none ↦ some (raised, w)
      | some frame ↦ elim (opt_integer timeout_ms (pos 1000)) [
        | none ↦ some (raised, w)
        | some n ↦ do (rc, w') ← send usb dev ch frame (as_u32 n) w; some (status_values rc, w')
      ]
    ]

    unfoldable pub l_ch_get_state : Channel → W → Option (Returned V × W)
    l_ch_get_state ch w = do
      (rc, state, w') ← get_state usb ch w
      some (
        if is_error rc then error_of rc else elim state [
          | none ↦ state_of (record { state = 0; rxerr = 0; txerr = 0 })
          | some s ↦ state_of s
        ],
        w',
      )

    unfoldable pub l_ch_set_identify : Channel → V → W → Option (Returned V × W)
    l_ch_set_identify ch on w = do
      (rc, w') ← set_identify usb ch (lua.to_boolean on) w
      some (status_values rc, w')

  -- the values for the result of `gsusb_channel_recv`; a wait that has not ended returns nothing yet
  unfoldable pub recv_values : Recv → Option (Returned V × Channel)
  recv_values (received frame ch) = elim (push_frame lua frame) [
    | none ↦ none
    | some table ↦ some (table_of table, ch)
  ]
  recv_values (nothing ch) = some (timed_out, ch)
  recv_values (not_started ch) = some (error_of Status.invalid, ch)
  recv_values waiting = none
  recv_values Recv.fault = none

  unfoldable pub l_ch_recv : List Wait → Channel → V → Option (Returned V × Channel)
  l_ch_recv waits ch timeout_ms = elim (opt_integer timeout_ms (pos 1000)) [
    | none ↦ some (raised, ch)
    | some n ↦ recv_values (recv (as_u32 n) waits ch)
  ]

  unfoldable pub l_ch_features : Channel → Returned V
  l_ch_features ch = number ch.feature
