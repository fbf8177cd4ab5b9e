-- ===== src/Lua/Marshal/RoundTrip.antt =====
-- A frame made a table and read back.
use gs_usb_user.Base.{
  ℕ, ◌-◌, ◌^◌, ◌<◌, ◌≤◌, ◌≡◌, refl, ap, ap₂, ◌∙◌, Bool, false, some, List, ◌++◌, arith, ltb, ◌>>=◌,
  bit_and, has, or_if, u8, u32, length, length-take, take, replicate, take-length, drop-replicate,
  if◌then◌else◌, memcpy,
}
use gs_usb_user.Base.Int.{pos}
use gs_usb_user.Frame.{Frame, zero_frame, max_dlen, eff_flag, rtr_flag}
use gs_usb_user.Frame.Id.{
  CanId, flag_digits, packed, IsCanId, bits_below, has-packed, mask_of, masked, masked_alone,
  no_error, rebuilt,
}
use gs_usb_user.Lua.{LuaApi, ReadsBack, as_u8}
use gs_usb_user.Lua.Marshal.{
  Key, id, extended, rtr, frame_field, push_frame, can_id_of, check_content, check_flags,
  check_frame,
}

-- the array of 64 bytes with nothing behind the length
abbrev pub trimmed : Frame → List ℕ
trimmed f = take f.len f.payload ++ replicate (max_dlen - f.len) 0

module _ {V : Type 0} (lua : LuaApi V) (reads : ReadsBack lua) where
  -- An id is put together from its fields.
  can_id_of-eq :
      (table : Key → V) (n : ℕ) (x r : Bool)
      → lua.check_integer (table id) ≡ some (pos n)
      → lua.to_boolean (table extended) ≡ x
      → lua.to_boolean (table rtr) ≡ r
      → n < (if x then 2 ^ 29 else 2 ^ 11)
      → can_id_of lua table
        ≡ some (packed (record { number = n; is_extended = x; is_remote = r; is_error = false }))
  unfolding can_id_of
  can_id_of-eq table n x r i e f h =
      let small : n < 2 ^ 29 = ground arith in
      let word : u32 n ≡ n = omega arith in
      rw (i, e, f, word)
        (ap some (
          ap (λ (t : ℕ). or_if r rtr_flag (or_if x eff_flag t)) (masked_alone x n h)
          ∙ rebuilt n x r small))

  can_id_of-frame_field :
      (a : CanId) (f : Frame)
      → IsCanId a
      → f.can_id ≡ packed a
      → can_id_of lua (frame_field lua f) ≡ some (packed (no_error a))
  unfolding frame_field
  can_id_of-frame_field a f h e =
      let (x, r, _) = has-packed a h in
      let is_ext : has f.can_id eff_flag ≡ a.is_extended = ap (λ t. has t eff_flag) e ∙ x in
      let is_rem : has f.can_id rtr_flag ≡ a.is_remote = ap (λ t. has t rtr_flag) e ∙ r in
      let kept : bit_and f.can_id (mask_of (has f.can_id eff_flag)) ≡ a.number =
        ap₂ (λ t u. bit_and t (mask_of u)) e is_ext
        ∙ masked a.is_extended a.number (flag_digits a) h in
      can_id_of-eq (frame_field lua f) a.number a.is_extended a.is_remote
        (ap (λ t. lua.check_integer (lua.push_integer t)) kept
          ∙ reads.integer a.number (ground (arith, bits_below a h)))
        (reads.boolean (has f.can_id eff_flag) ∙ is_ext)
        (reads.boolean (has f.can_id rtr_flag) ∙ is_rem) h

  memcpy-all :
      (bytes : List ℕ)
      → length bytes ≤ 64
      → memcpy (replicate 64 0) 0 bytes 0 (length bytes)
        ≡ some (bytes ++ replicate (64 - length bytes) 0)
  memcpy-all bytes h = ground (arith, take-length bytes, drop-replicate {A = ℕ} 64 (length bytes) 0)

  check_content-eq :
      (v : V) (bytes : List ℕ) (c : ℕ)
      → lua.is_nil v ≡ false
      → lua.check_lstring v ≡ some bytes
      → length bytes ≤ 64
      → check_content lua v (record zero_frame { can_id = c })
        ≡ some (record {
          can_id = c;
          len = length bytes;
          flags = 0;
          payload = bytes ++ replicate (64 - length bytes) 0;
          timestamp_us = 0;
        })
  unfolding check_content
  check_content-eq v bytes c there got h =
      let short : ltb max_dlen (length bytes) ≡ false = ground arith in
      let word : u8 (length bytes) ≡ length bytes = omega arith in
      rw (there, got, short, memcpy-all bytes h, word) refl

  check_flags-eq :
      (v : V) (n : ℕ) (f : Frame)
      → lua.is_nil v ≡ false
      → lua.check_integer v ≡ some (pos n)
      → n < 256
      → check_flags lua v f ≡ some (record f { flags = n })
  unfolding check_flags
  check_flags-eq v n f there got h =
      let word : as_u8 (pos n) ≡ n = omega arith in rw (there, got, word) refl

  -- When the Lua API gives back what it was given, a frame with room for its data that `push_frame`
  -- makes a table of and `check_frame` reads again has the same length and flags, the same data up to
  -- its length with zeros behind, and the same CAN id except that the error flag is gone; the
  -- timestamp becomes 0. Of an id that is not extended, this is for one within 11 bits.
  pub check_frame-push_frame :
      (a : CanId) (f : Frame)
      → IsCanId a
      → f.can_id ≡ packed a
      → f.len ≤ 64
      → length f.payload ≡ 64
      → f.flags < 256
      → (push_frame lua f >>= check_frame lua)
        ≡ some (record {
          can_id = packed (no_error a);
          len = f.len;
          flags = f.flags;
          payload = trimmed f;
          timestamp_us = 0;
        })
  unfolding push_frame check_frame frame_field
  check_frame-push_frame a f h e l p g =
      let room : ltb (length f.payload) f.len ≡ false = ground arith in
      let bytes = take f.len f.payload in
      let size : length bytes ≡ f.len = omega (arith, length-take f.len f.payload) in
      let copied =
        check_content-eq (lua.push_lstring bytes) bytes (packed (no_error a))
          (reads.lstring_there bytes) (reads.lstring bytes) (omega arith) in
      let last = λ (fr : Frame).
        check_flags-eq (lua.push_integer f.flags) f.flags fr (reads.integer_there f.flags)
          (reads.integer f.flags (omega arith)) g in
      rw (room, can_id_of-frame_field a f h e, copied)
        (last _
          ∙ ap
              (λ (n : ℕ). some (record {
                can_id = packed (no_error a);
                len = n;
                flags = f.flags;
                payload = bytes ++ replicate (64 - n) 0;
                timestamp_us = 0;
              }))
              size)
