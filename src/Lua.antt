-- ===== src/Lua.antt =====
-- sdk/lua/gsusb/lua_gsusb.c: the Lua binding. The Lua API that it calls is a parameter: the values of
-- the interpreter, and the functions of lua.h and lauxlib.h that make and read them.
pub mod Marshal
pub mod Handles
pub mod Methods
pub mod Module
use gs_usb_user.Base.{ℕ, Bool, false, Option, some, List, ◌≡◌, ◌<◌, ◌^◌, u32, ◌-◌, ◌%◌}
use gs_usb_user.Base.Int.{ℤ, pos, negsuc}

pub record LuaApi (V : Type 0) : Type 0 where
  pub nil : V
  pub is_nil : V → Bool
  pub push_integer : ℕ → V
  pub push_boolean : Bool → V
  pub push_lstring : List ℕ → V
  -- `none` raises an error
  pub check_integer : V → Option ℤ
  pub check_lstring : V → Option (List ℕ)
  pub to_boolean : V → Bool

-- What the manual says of a value that is pushed and read again, for integers that every
-- `lua_Integer` holds.
pub record ReadsBack {V : Type 0} (lua : LuaApi V) : Type 0 where
  pub integer : (n : ℕ) → n < 2 ^ 31 → lua.check_integer (lua.push_integer n) ≡ some (pos n)
  pub boolean : (b : Bool) → lua.to_boolean (lua.push_boolean b) ≡ b
  pub lstring : (s : List ℕ) → lua.check_lstring (lua.push_lstring s) ≡ some s
  pub integer_there : (n : ℕ) → lua.is_nil (lua.push_integer n) ≡ false
  pub lstring_there : (s : List ℕ) → lua.is_nil (lua.push_lstring s) ≡ false

-- `(uint32_t)` of a `lua_Integer`
abbrev pub as_u32 : ℤ → ℕ
as_u32 (pos n) = u32 n
as_u32 (negsuc n) = 2 ^ 32 - 1 - n % 2 ^ 32

-- `(uint8_t)`
abbrev pub as_u8 : ℤ → ℕ
as_u8 z = as_u32 z % 2 ^ 8
