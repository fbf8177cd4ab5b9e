-- ===== src/Lua/Handles.antt =====
-- sdk/lua/gsusb/lua_gsusb.c: the userdata that hold a context, a device or a channel of the driver, and
-- the functions that make, use and close them. An object of the driver is a number that stands for the
-- call that made it, so that using one after it was freed shows. What the driver answers is part of
-- a call, and so is whether the arguments behind the first one have the types that are asked for.
pub mod Table
pub mod Outcome
pub mod Safety
pub mod Owners
use gs_usb_user.Base.{
  ℕ, Bool, true, false, Option, none, some, List, [], ◌∷◌, ◌++◌, ltb, length, get_elem?, set, ◌&&◌,
  ◌||◌, not, if◌then◌else◌,
}

-- the userdata of one type, each with its pointer or NULL, and for each object of the driver whether
-- it is still there
pub record Handles : Type 0 where
  pub userdata : List (Option ℕ)
  pub live : List Bool

-- `lua_newuserdata`, for the object that the driver has just made
abbrev pub new_userdata : Handles → Handles
new_userdata h = record {
  userdata = h.userdata ++ (some (length h.live) ∷ []);
  live = h.live ++ (true ∷ []);
}

-- the object `o` freed, and the pointer at `r` set to NULL
abbrev pub freed : Handles → ℕ → ℕ → Handles
freed h r o = record { userdata = set h.userdata r none; live = set h.live o false }

-- the context that a device was opened in, and its number of channels
pub record DevInfo : Type 0 where
  pub context : ℕ
  pub channel_count : ℕ

pub record Heap : Type 0 where
  pub contexts : Handles
  pub devices : Handles
  pub info : List DevInfo
  -- a device of the driver and a channel of it, or NULL
  pub channels : List (Option (ℕ × ℕ))

abbrev pub empty_heap : Heap
empty_heap = record {
  contexts = record { userdata = []; live = [] };
  devices = record { userdata = []; live = [] };
  info = [];
  channels = [];
}

-- A call returns, raises a Lua error that changes nothing, or touches an object that was freed.
pub data Result : Type 0 where
  done : Heap → Result
  lua_error fault : Result

pub data Call : Type 0 where
  -- whether `gsusb_init` gave 0
  init : Bool → Call
  ctx_exit : ℕ → Call
  -- the number of channels of the device that `gsusb_open` returned
  ctx_open : ℕ → Bool → Option ℕ → Call
  dev_close dev_channel_count dev_device_config : ℕ → Call
  dev_channel : ℕ → Bool → ℕ → Call
  -- any function of `channel_methods`, and whether the driver's function comes to a transfer
  channel_method : ℕ → Bool → Bool → Call

-- `luaL_checkudata` and the test for NULL
abbrev pub pointer {ℓ} : {A : Type ℓ} → List (Option A) → ℕ → Option A
pointer uds r = elim (get_elem? uds r) [ none ↦ none | some p ↦ p ]

abbrev pub is_live : Handles → ℕ → Bool
is_live h o = elim (get_elem? h.live o) [ none ↦ false | some b ↦ b ]

-- `l_gsusb_init`
unfoldable pub l_gsusb_init : Bool → Heap → Result
l_gsusb_init ok h = done (if ok then record h { contexts = new_userdata h.contexts } else h)

-- `l_ctx_exit`, also as `__gc`
unfoldable pub l_ctx_exit : ℕ → Heap → Result
l_ctx_exit r h = elim (get_elem? h.contexts.userdata r) [
  | none ↦ lua_error
  | some none ↦ done h
  | some (some c) ↦
      if is_live h.contexts c then done (record h { contexts = freed h.contexts r c }) else fault
]

-- the userdata of a device that was opened in `c`
abbrev pub push_device : Heap → ℕ → ℕ → Heap
push_device h c count = record h {
  devices = new_userdata h.devices;
  info = h.info ++ (record { context = c; channel_count = count } ∷ []);
}

unfoldable pub l_ctx_open : ℕ → Bool → Option ℕ → Heap → Result
l_ctx_open r well_typed answer h = elim (pointer h.contexts.userdata r) [
  | none ↦ lua_error
  | some c ↦
      if well_typed
      then if is_live h.contexts c
        then elim answer [ none ↦ done h | some count ↦ done (push_device h c count) ]
        else fault
      else lua_error
]

-- Whether the context of a device is there: neither `libusb_close` nor a transfer is a call for after
-- `libusb_exit`.
abbrev pub context_live : Heap → ℕ → Bool
context_live h d = elim (get_elem? h.info d) [
  | none ↦ false
  | some i ↦ is_live h.contexts i.context
]

-- `l_dev_close`, also as `__gc`
unfoldable pub l_dev_close : ℕ → Heap → Result
l_dev_close r h = elim (get_elem? h.devices.userdata r) [
  | none ↦ lua_error
  | some none ↦ done h
  | some (some d) ↦
      if is_live h.devices d
      then if context_live h d then done (record h { devices = freed h.devices r d }) else fault
      else fault
]

-- `l_dev_channel_count` and `l_dev_device_config` read the device.
unfoldable pub read_device : ℕ → Heap → Result
read_device r h = elim (pointer h.devices.userdata r) [
  | none ↦ lua_error
  | some d ↦ if is_live h.devices d then done h else fault
]

-- `l_dev_channel` from `gsusb_channel_get` on
unfoldable pub push_channel : ℕ → ℕ → Heap → Result
push_channel d index h = elim (get_elem? h.info d) [
  | none ↦ fault
  | some i ↦ done (
      if ltb index i.channel_count
      then record h { channels = h.channels ++ (some (d, index) ∷ []) }
      else h)
]

unfoldable pub l_dev_channel : ℕ → Bool → ℕ → Heap → Result
l_dev_channel r well_typed index h = elim (pointer h.devices.userdata r) [
  | none ↦ lua_error
  | some d ↦
      if well_typed
      then if is_live h.devices d then push_channel d index h else fault
      else lua_error
]

-- `check_channel`, and the driver's function on what it gives: it reads the device, and a transfer uses
-- the context that the handle was opened in.
unfoldable pub l_channel_method : ℕ → Bool → Bool → Heap → Result
l_channel_method r well_typed transfers h = elim (pointer h.channels r) [
  | none ↦ lua_error
  | some (d, index) ↦
      if well_typed
      then if is_live h.devices d && (not transfers || context_live h d) then done h else fault
      else lua_error
]

unfoldable pub perform : Call → Heap → Result
perform (init ok) h = l_gsusb_init ok h
perform (ctx_exit r) h = l_ctx_exit r h
perform (ctx_open r well_typed answer) h = l_ctx_open r well_typed answer h
perform (dev_close r) h = l_dev_close r h
perform (dev_channel_count r) h = read_device r h
perform (dev_device_config r) h = read_device r h
perform (dev_channel r well_typed index) h = l_dev_channel r well_typed index h
perform (channel_method r well_typed transfers) h = l_channel_method r well_typed transfers h

-- Errors are caught and the next call is made; nothing is said of what follows a fault, and the call
-- that makes it is kept.
pub data Session : Type 0 where
  finished : Heap → Session
  faulted : Heap → Call → Session

unfoldable pub run : List Call → Heap → Session
run [] h = finished h
run (call ∷ calls) h = elim (perform call h) [
  | done h' ↦ run calls h'
  | lua_error ↦ run calls h
  | fault ↦ faulted h call
]
