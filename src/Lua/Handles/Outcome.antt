-- ===== src/Lua/Handles/Outcome.antt =====
-- What one call of the binding does to the userdata and the objects of the driver.
use gs_usb_user.Base.{
  ◌&&◌, ◌||◌, not, false, ℕ, ◌≡◌, ◌<◌, refl, sym, Bool, true, false, some, [], ◌∷◌, ◌++◌, arith,
  ltb, get_elem?, get_elem?_total, get_elem?-snoc, lt-of-get_elem?, Bool-cases, ◌⊎◌, inl, inr,
  if◌then◌else◌,
}
use gs_usb_user.Lua.Handles.{
  DevInfo, Heap, Result, done, lua_error, fault, context_live, Call, init, ctx_exit, ctx_open,
  dev_close, dev_channel_count, dev_device_config, dev_channel, channel_method, is_live,
  read_device, push_channel, l_dev_channel, l_channel_method, perform,
}
use gs_usb_user.Lua.Handles.Table.{is_live-owned}
use gs_usb_user.Lua.Handles.Owners.{
  IsConsistent, Dangling, closed_device, exited_transfer, CallOutcome, returns, raises, faults,
  missing, null, at, slot, l_gsusb_init-CallOutcome, l_ctx_exit-CallOutcome, l_ctx_open-CallOutcome,
  l_dev_close-CallOutcome,
}

read_device-cases :
    (r : ℕ) (h : Heap) → IsConsistent h → (read_device r h ≡ done h) ⊎ (read_device r h ≡ lua_error)
unfolding read_device
read_device-cases r h v = elim (slot h.devices.userdata r) [
  | missing _ e ↦ inr (rw (e, read_device) refl)
  | null _ e ↦ inr (rw (e, read_device) refl)
  | at d e f ↦ inl (rw (f, is_live-owned h.devices r d v.devices e, read_device) refl)
]

unchanged :
    (h : Heap) (call : Call) (res : Result)
    → IsConsistent h
    → (res ≡ done h) ⊎ (res ≡ lua_error)
    → CallOutcome h call res
unchanged h call res v (inl e) = rw e (returns h v)
unchanged h call res v (inr e) = rw e raises

info_of :
    (h : Heap) (r d : ℕ)
    → IsConsistent h
    → get_elem? h.devices.userdata r ≡ some (some d)
    → (i : DevInfo) × (get_elem? h.info d ≡ some i)
info_of h r d v e =
    get_elem?_total h.info d
      (omega (arith, v.described, lt-of-get_elem? h.devices.live d (v.devices.there r d e)))

push_channel-IsConsistent :
    (h : Heap) (d index : ℕ) (i : DevInfo)
    → IsConsistent h
    → get_elem? h.info d ≡ some i
    → index < i.channel_count
    → IsConsistent (record h { channels = h.channels ++ (some (d, index) ∷ []) })
push_channel-IsConsistent h d index i v e lt = record {
  contexts = v.contexts;
  devices = v.devices;
  described = v.described;
  channels = λ r p f. elim (get_elem?-snoc h.channels (some (d, index)) r f) [
    | inl old ↦ v.channels r p old
    | inr (_, new) ↦ (d, index, i, sym new, e, lt)
  ];
}

push_channel-CallOutcome :
    (call : Call) (h : Heap) (d index : ℕ) (i : DevInfo)
    → IsConsistent h
    → get_elem? h.info d ≡ some i
    → CallOutcome h call (push_channel d index h)
unfolding push_channel
push_channel-CallOutcome call h d index i v e = elim (Bool-cases (ltb index i.channel_count)) [
  | inl f ↦
      rw (e, f, push_channel) (returns _ (push_channel-IsConsistent h d index i v e (ground arith)))
  | inr f ↦ rw (e, f, push_channel) (returns h v)
]

l_dev_channel-CallOutcome :
    (r : ℕ) (well_typed : Bool) (index : ℕ) (h : Heap)
    → IsConsistent h
    → CallOutcome h (dev_channel r well_typed index) (l_dev_channel r well_typed index h)
unfolding l_dev_channel
l_dev_channel-CallOutcome r well_typed index h v = elim (slot h.devices.userdata r) [
  | missing _ e ↦ rw (e, l_dev_channel) raises
  | null _ e ↦ rw (e, l_dev_channel) raises
  | at d e f ↦
      let (i, found) = info_of h r d v e in
      let pushed = push_channel-CallOutcome (dev_channel r well_typed index) h d index i v found in
      rw (f, is_live-owned h.devices r d v.devices e, l_dev_channel)
        (if_typed well_typed (push_channel d index h) pushed)
]
  where
    if_typed :
        (b : Bool) (res : Result)
        → CallOutcome h (dev_channel r well_typed index) res
        → CallOutcome h (dev_channel r well_typed index) (if b then res else lua_error)
    if_typed true res o = o
    if_typed false res o = raises

l_channel_method-CallOutcome :
    (r : ℕ) (well_typed transfers : Bool) (h : Heap)
    → IsConsistent h
    → CallOutcome h
        (channel_method r well_typed transfers)
        (l_channel_method r well_typed transfers h)
unfolding l_channel_method
l_channel_method-CallOutcome r well_typed transfers h v = elim (slot h.channels r) [
  | missing _ e ↦ rw (e, l_channel_method) raises
  | null _ e ↦ rw (e, l_channel_method) raises
  | at (d, index) e f ↦
      rw (f, l_channel_method)
        (used well_typed transfers (is_live h.devices d) (context_live h d)
          (λ t closed. closed_device r d index t e closed) (exited_transfer r d index e))
]
  where
    used :
        (typed t live there : Bool)
        → ((b : Bool) → live ≡ false → Dangling h (channel_method r true b))
        → (there ≡ false → Dangling h (channel_method r true true))
        → CallOutcome h
            (channel_method r typed t)
            (if typed then if live && (not t || there) then done h else fault else lua_error)
    used false t live there closed gone = raises
    used true t false there closed gone = faults (closed t refl)
    used true false true there closed gone = returns h v
    used true true true true closed gone = returns h v
    used true true true false closed gone = faults (gone refl)

-- From a consistent heap, any call returns with the heap consistent, raises an error, or is a dangling
-- one.
pub perform-CallOutcome :
    (call : Call) (h : Heap) → IsConsistent h → CallOutcome h call (perform call h)
unfolding perform
perform-CallOutcome (init ok) h v = l_gsusb_init-CallOutcome ok h v
perform-CallOutcome (ctx_exit r) h v = l_ctx_exit-CallOutcome r h v
perform-CallOutcome (ctx_open r well_typed answer) h v =
    l_ctx_open-CallOutcome r well_typed answer h v
perform-CallOutcome (dev_close r) h v = l_dev_close-CallOutcome r h v
perform-CallOutcome (dev_channel_count r) h v = unchanged h _ _ v (read_device-cases r h v)
perform-CallOutcome (dev_device_config r) h v = unchanged h _ _ v (read_device-cases r h v)
perform-CallOutcome (dev_channel r well_typed index) h v =
    l_dev_channel-CallOutcome r well_typed index h v
perform-CallOutcome (channel_method r well_typed transfers) h v =
    l_channel_method-CallOutcome r well_typed transfers h v
