-- ===== src/Lua/Methods/Forward.antt =====
-- A script that takes a frame from one channel and sends it on another.
use gs_usb_user.Base.{
  ℕ, ◌+◌, ◌-◌, ◌<◌, ◌≤◌, ◌≡◌, refl, sym, ap, ◌∙◌, false, some, ◌++◌, arith, ltb, ◌>>=◌, length,
  length-drop, length-replicate, take, drop, replicate, take-append-drop, get_or_ext, get_or-drop,
  get_or-replicate_default,
}
use gs_usb_user.Base.Int.{ℤ, pos}
use gs_usb_user.Frame.{Frame}
use gs_usb_user.Device.{Channel, Dev}
use gs_usb_user.Usb.{Usb}
use gs_usb_user.Rx.Effect.{IsWellFormed}
use gs_usb_user.Tx.{encode, write_header, send}
use gs_usb_user.Recv.{received}
use gs_usb_user.Lua.{LuaApi, ReadsBack, as_u32}
use gs_usb_user.Lua.Marshal.{Key, frame_field, push_frame, check_frame}
use gs_usb_user.Frame.Id.{CanId, packed, IsCanId, no_error}
use gs_usb_user.Lua.Marshal.RoundTrip.{trimmed, check_frame-push_frame}
use gs_usb_user.Lua.Methods.{table_of, status_values, opt_integer, l_ch_send, recv_values}

-- Nothing stands behind the data of a well-formed frame.
trimmed-eq : (f : Frame) → IsWellFormed f → trimmed f ≡ f.payload
trimmed-eq f v =
    let n = 64 - f.len in
    let most : f.len ≤ 64 = ground (arith, v.at_most) in
    let zeros : drop f.len f.payload ≡ replicate n 0 =
      get_or_ext 0 (drop f.len f.payload) (replicate n 0)
        (omega (arith, length-drop f.len f.payload, length-replicate {A = ℕ} n 0, v.array))
        (λ i lt.
          get_or-drop f.len f.payload i 0
          ∙ v.zeros (f.len + i) (omega arith)
          ∙ sym (get_or-replicate_default n i 0)) in
    ap (λ t. take f.len f.payload ++ t) (sym zeros) ∙ take-append-drop f.len f.payload

-- `send` does not read the timestamp.
send-unstamped :
    {W : Type 0} (usb : Usb W) (dev : Dev) (ch : Channel) (f : Frame) (ms : ℕ) (w : W)
    → send usb dev ch (record f { timestamp_us = 0 }) ms w ≡ send usb dev ch f ms w
unfolding send encode write_header
send-unstamped usb dev ch f ms w = refl

module _ {V : Type 0} (lua : LuaApi V) (reads : ReadsBack lua) where
  -- When the Lua API gives back what it was given, `recv` gives a script a table for a well-formed frame
  -- that it receives, provided that its CAN id is extended and of 29 bits, or not extended and of 11
  -- bits, and that its flags are a byte; and `send` on that table does on any channel what the
  -- driver's `send` does with the frame itself, the error flag of its id aside, and reports the
  -- status of that.
  pub l_ch_send-recv_values :
      {W : Type 0} (usb : Usb W) (a : CanId) (f : Frame) (source : Channel) (v : V) (n : ℤ)
      → IsWellFormed f
      → IsCanId a
      → f.can_id ≡ packed a
      → f.flags < 256
      → opt_integer lua v (pos 1000) ≡ some n
      → (table : Key → V) × (recv_values lua (received f source) ≡ some (table_of table, source))
        × ((dev : Dev) (ch : Channel) (w : W)
            → l_ch_send lua usb dev ch table v w ≡ (
                send usb dev ch (record f { can_id = packed (no_error a) }) (as_u32 n) w >>= λ r.
                some (status_values r.0, r.1)))
  unfolding recv_values l_ch_send push_frame
  l_ch_send-recv_values usb a f source v n good id e g timeout =
      let most : f.len ≤ 64 = ground (arith, good.at_most) in
      let room : ltb (length f.payload) f.len ≡ false = ground (arith, good.array) in
      let kept = record f { can_id = packed (no_error a) } in
      let pushed : push_frame lua f ≡ some (frame_field lua f) = rw (room, push_frame) refl in
      let back = check_frame-push_frame lua reads a f id e most good.array g in
      let read : check_frame lua (frame_field lua f) ≡ some (record kept { timestamp_us = 0 }) =
        ap (λ o. o >>= check_frame lua) (sym pushed)
        ∙ back
        ∙ ap (λ p. some (record kept { payload = p; timestamp_us = 0 })) (trimmed-eq f good) in
      (
        frame_field lua f,
        rw (room, recv_values) refl,
        λ dev ch w.
            rw (read, timeout, l_ch_send)
              (ap (λ t. t >>= λ r. some (status_values r.0, r.1))
                (send-unstamped usb dev ch kept (as_u32 n) w)),
      )
