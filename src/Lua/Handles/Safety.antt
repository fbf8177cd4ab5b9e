-- ===== src/Lua/Handles/Safety.antt =====
-- Which calls of the binding can touch an object of the driver that was freed.
use gs_usb_user.Base.{
  ℕ, ◌≡◌, refl, Bool, true, false, some, List, [], ◌∷◌, arith, get_elem?, get_elem?-set_self,
  lt-of-get_elem?,
}
use gs_usb_user.Lua.Handles.{
  freed, Heap, empty_heap, Result, done, lua_error, fault, Call, dev_close, channel_method,
  context_live, l_dev_close, l_channel_method, perform, Session, finished, faulted, run,
}
use gs_usb_user.Lua.Handles.Table.{is_live-owned}
use gs_usb_user.Lua.Handles.Outcome.{perform-CallOutcome}
use gs_usb_user.Lua.Handles.Owners.{IsConsistent, Dangling, CallOutcome, returns, raises, faults}

pub data SessionOutcome : Session → Type 0 where
  to_the_end : (h : Heap) → IsConsistent h → SessionOutcome (finished h)
  by_dangling :
      (h : Heap) (call : Call) → IsConsistent h → Dangling h call → SessionOutcome (faulted h call)

-- Whatever calls a script makes in whatever order, with whatever answers of the driver, collections of
-- garbage among them, no call frees an object of the driver twice and none uses one after it was freed,
-- except a method of a channel whose device was closed before, a method that comes to a transfer on a
-- channel whose context was exited before, or closing a device whose context was exited before; and
-- at every call each pointer of a context's or a device's userdata that is not NULL is to an object
-- that is there and that no other userdata points to.
pub run-SessionOutcome :
    (calls : List Call) (h : Heap) → IsConsistent h → SessionOutcome (run calls h)
unfolding run
run-SessionOutcome [] h v = to_the_end h v
run-SessionOutcome (call ∷ calls) h v =
    after (λ h' v'. run-SessionOutcome calls h' v') (perform call h) (perform-CallOutcome call h v)
  where
    after :
        ((h' : Heap) → IsConsistent h' → SessionOutcome (run calls h'))
        → (res : Result) → CallOutcome h call res
        → SessionOutcome
            (elim res [ done h' ↦ run calls h' | lua_error ↦ run calls h | fault ↦ faulted h call ])
    after rest res (returns h' v') = rest h' v'
    after rest res raises = rest h v
    after rest res (faults d) = by_dangling h call v d

-- The binding starts out consistent.
pub empty_heap-IsConsistent : IsConsistent empty_heap
empty_heap-IsConsistent = record {
  contexts = record { there = λ r o e. cc; single = λ r s o e f. cc };
  devices = record { there = λ r o e. cc; single = λ r s o e f. cc };
  described = refl;
  channels = λ r v e. cc;
}

-- In a consistent heap, `dev:close()` with the context still there closes the device, and then every
-- method of a channel of that device, called with proper arguments, uses the freed device: the test in
-- `check_channel` does not fire.
pub closed-channel_faults :
    (h : Heap) (r s d index : ℕ) (transfers : Bool)
    → IsConsistent h
    → get_elem? h.devices.userdata r ≡ some (some d)
    → context_live h d ≡ true
    → get_elem? h.channels s ≡ some (some (d, index))
    → (h' : Heap) × (perform (dev_close r) h ≡ done h')
      × (perform (channel_method s true transfers) h' ≡ fault)
unfolding perform l_dev_close l_channel_method
closed-channel_faults h r s d index transfers v e there f =
    let live = is_live-owned h.devices r d v.devices e in
    let bound = lt-of-get_elem? h.devices.live d (v.devices.there r d e) in
    (
      record h { devices = freed h.devices r d },
      rw (e, live, there, l_dev_close) refl,
      ground (arith, f, get_elem?-set_self h.devices.live d false bound),
    )
