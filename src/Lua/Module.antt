-- ===== src/Lua/Module.antt =====
-- sdk/lua/gsusb/lua_gsusb.c: what `luaopen_gsusb` leaves to a script, the metatables of the three types
-- of userdata and the table of the module; and what the methods of a device tell of it.
use Prim.Native.String.{String}
use gs_usb_user.Base.{ℕ, Option, none, some, List, [], ◌∷◌}
use gs_usb_user.Device.{Dev}
use gs_usb_user.Lifecycle.ModeFlag

-- the functions of the binding, without the `l_` of their names
pub data CFunction : Type 0 where
  gsusb_init ctx_open ctx_exit : CFunction
  dev_channel dev_channel_count dev_device_config dev_close : CFunction
  ch_set_bitrate ch_start ch_stop ch_send ch_recv ch_get_state ch_set_identify ch_features :
      CFunction

-- `luaL_Reg`, without the pair of NULLs at the end
abbrev pub Methods : Type 0
Methods = List (String × CFunction)

abbrev pub ctx_methods : Methods
ctx_methods = ("open", ctx_open) ∷ ("exit", ctx_exit) ∷ []

abbrev pub dev_methods : Methods
dev_methods =
    ("channel", dev_channel)
    ∷ ("channel_count", dev_channel_count)
    ∷ ("device_config", dev_device_config)
    ∷ ("close", dev_close)
    ∷ []

abbrev pub channel_methods : Methods
channel_methods =
    ("set_bitrate", ch_set_bitrate)
    ∷ ("start", ch_start)
    ∷ ("stop", ch_stop)
    ∷ ("send", ch_send)
    ∷ ("recv", ch_recv)
    ∷ ("get_state", ch_get_state)
    ∷ ("set_identify", ch_set_identify)
    ∷ ("features", ch_features)
    ∷ []

abbrev pub gsusb_funcs : Methods
gsusb_funcs = ("init", gsusb_init) ∷ []

-- `__index` and `__gc`
pub record Metatable : Type 0 where
  pub index : Methods
  pub gc : Option CFunction

-- the metatables by their names, the last one made first
abbrev pub Registry : Type 0
Registry = List (String × Metatable)

unfoldable pub make_metatable : String → Methods → Option CFunction → Registry → Registry
make_metatable name methods gc registry = (name, record { index = methods; gc = gc }) ∷ registry

-- the table of the module
pub record Module : Type 0 where
  pub functions : Methods
  pub integers : List (String × ℕ)

abbrev pub mode_constants : List (String × ℕ)
mode_constants =
    ("MODE_LISTEN_ONLY", ModeFlag.listen_only)
    ∷ ("MODE_LOOPBACK", ModeFlag.loopback)
    ∷ ("MODE_TRIPLE_SAMPLE", ModeFlag.triple_sample)
    ∷ ("MODE_ONE_SHOT", ModeFlag.one_shot)
    ∷ ("MODE_BERR_REPORTING", ModeFlag.berr_reporting)
    ∷ []

unfoldable pub luaopen_gsusb : Registry → Module × Registry
luaopen_gsusb registry =
    let with_ctx = make_metatable "gsusb.ctx" ctx_methods (some ctx_exit) registry in
    let with_dev = make_metatable "gsusb.dev" dev_methods (some dev_close) with_ctx in
    let with_channel = make_metatable "gsusb.channel" channel_methods none with_dev in
    (record { functions = gsusb_funcs; integers = mode_constants }, with_channel)

-- what the method returns on a device that is not closed
abbrev pub l_dev_channel_count : Dev → ℕ
l_dev_channel_count dev = dev.channel_count

-- the fields of the table
abbrev pub l_dev_device_config : Dev → List (String × ℕ)
l_dev_device_config dev =
    ("sw_version", dev.devconf.sw_version)
    ∷ ("hw_version", dev.devconf.hw_version)
    ∷ ("channel_count", dev.devconf.channel_count)
    ∷ []
