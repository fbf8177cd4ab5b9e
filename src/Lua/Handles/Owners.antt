-- ===== src/Lua/Handles/Owners.antt =====
-- The userdata of the binding and the objects of the driver that they own, and the calls that make and
-- free them.
use gs_usb_user.Base.{
  ℕ, ◌≡◌, ◌<◌, refl, sym, ◌∙◌, Bool, true, false, Option, none, some, List, [], ◌∷◌, arith, length,
  length-append, length-set, get_elem?, get_elem?-append_left, lt-of-get_elem?, Bool-cases,
  Option-cases, inl, inr, if◌then◌else◌,
}
use gs_usb_user.Lua.Handles.{
  DevInfo, Heap, Result, done, lua_error, fault, Call, init, ctx_exit, ctx_open, dev_close,
  channel_method, pointer, is_live, l_gsusb_init, l_ctx_exit, push_device, l_ctx_open, context_live,
  l_dev_close,
}
use gs_usb_user.Lua.Handles.Table.{IsOwned, is_live-owned, new_userdata-IsOwned, freed-IsOwned}

-- A channel's userdata holds a channel of a device that was opened at some time.
abbrev pub IsChannel : Heap → Option (ℕ × ℕ) → Type 0
IsChannel h v =
    (d : ℕ) × (index : ℕ) × (i : DevInfo) × (v ≡ some (d, index))
    × (get_elem? h.info d ≡ some i)
    × (index < i.channel_count)

pub record IsConsistent (h : Heap) : Type 0 where
  pub contexts : IsOwned h.contexts
  pub devices : IsOwned h.devices
  pub described : length h.info ≡ length h.devices.live
  pub channels : (r : ℕ) (v : Option (ℕ × ℕ)) → get_elem? h.channels r ≡ some v → IsChannel h v

-- the calls that fault: a method of a channel whose device was closed, a method that comes to a transfer
-- on a channel whose context was exited, and closing a device after its context
pub data Dangling (h : Heap) : Call → Type 0 where
  closed_device :
      (r d index : ℕ) (transfers : Bool)
      → get_elem? h.channels r ≡ some (some (d, index))
      → is_live h.devices d ≡ false
      → Dangling h (channel_method r true transfers)
  exited_transfer :
      (r d index : ℕ)
      → get_elem? h.channels r ≡ some (some (d, index))
      → context_live h d ≡ false
      → Dangling h (channel_method r true true)
  exited_context :
      (r d : ℕ)
      → get_elem? h.devices.userdata r ≡ some (some d)
      → context_live h d ≡ false
      → Dangling h (dev_close r)

pub data CallOutcome (h : Heap) (call : Call) : Result → Type 0 where
  returns : (h' : Heap) → IsConsistent h' → CallOutcome h call (done h')
  raises : CallOutcome h call lua_error
  faults : Dangling h call → CallOutcome h call fault

pub data Slot {A : Type 0} (uds : List (Option A)) (r : ℕ) : Type 0 where
  missing : get_elem? uds r ≡ none → pointer uds r ≡ none → Slot uds r
  null : get_elem? uds r ≡ some none → pointer uds r ≡ none → Slot uds r
  at : (a : A) → get_elem? uds r ≡ some (some a) → pointer uds r ≡ some a → Slot uds r

pub slot : {A : Type 0} (uds : List (Option A)) (r : ℕ) → Slot uds r
slot uds r = elim (Option-cases (get_elem? uds r)) [
  | inl e ↦ missing e (rw (e, pointer) refl)
  | inr (none, e) ↦ null e (rw (e, pointer) refl)
  | inr (some a, e) ↦ at a e (rw (e, pointer) refl)
]

pub l_gsusb_init-CallOutcome :
    (ok : Bool) (h : Heap) → IsConsistent h → CallOutcome h (init ok) (l_gsusb_init ok h)
unfolding l_gsusb_init
l_gsusb_init-CallOutcome true h v = returns _ (record {
  contexts = new_userdata-IsOwned h.contexts v.contexts;
  devices = v.devices;
  described = v.described;
  channels = v.channels;
})
l_gsusb_init-CallOutcome false h v = returns h v

pub l_ctx_exit-CallOutcome :
    (r : ℕ) (h : Heap) → IsConsistent h → CallOutcome h (ctx_exit r) (l_ctx_exit r h)
unfolding l_ctx_exit
l_ctx_exit-CallOutcome r h v = elim (slot h.contexts.userdata r) [
  | missing e _ ↦ rw (e, l_ctx_exit) raises
  | null e _ ↦ rw (e, l_ctx_exit) (returns h v)
  | at c e _ ↦
      rw (e, is_live-owned h.contexts r c v.contexts e, l_ctx_exit)
        (returns _ (record {
          contexts = freed-IsOwned h.contexts r c v.contexts e;
          devices = v.devices;
          described = v.described;
          channels = v.channels;
        }))
]

push_device-IsConsistent :
    (h : Heap) (c count : ℕ) → IsConsistent h → IsConsistent (push_device h c count)
push_device-IsConsistent h c count v = record {
  contexts = v.contexts;
  devices = new_userdata-IsOwned h.devices v.devices;
  described = omega (
    arith,
    length-append {0} h.info (record { context = c; channel_count = count } ∷ []),
    length-append {0} h.devices.live (true ∷ []),
    v.described,
  );
  channels = λ r p e.
      let (d, index, i, is, info, lt) = v.channels r p e in
      (
        d,
        index,
        i,
        is,
        get_elem?-append_left h.info _ d (lt-of-get_elem? h.info d info) ∙ info,
        lt,
      );
}

pub l_ctx_open-CallOutcome :
    (r : ℕ) (well_typed : Bool) (answer : Option ℕ) (h : Heap)
    → IsConsistent h
    → CallOutcome h (ctx_open r well_typed answer) (l_ctx_open r well_typed answer h)
unfolding l_ctx_open
l_ctx_open-CallOutcome r well_typed answer h v = elim (slot h.contexts.userdata r) [
  | missing _ e ↦ rw (e, l_ctx_open) raises
  | null _ e ↦ rw (e, l_ctx_open) raises
  | at c e f ↦
      rw (f, is_live-owned h.contexts r c v.contexts e, l_ctx_open) (opened well_typed answer c)
]
  where
    opened :
        (b : Bool) (answer' : Option ℕ) (c : ℕ)
        → CallOutcome h (ctx_open r well_typed answer) (
            if b
            then elim answer' [ none ↦ done h | some count ↦ done (push_device h c count) ]
            else lua_error)
    opened false answer' c = raises
    opened true none c = returns h v
    opened true (some count) c = returns _ (push_device-IsConsistent h c count v)

pub l_dev_close-CallOutcome :
    (r : ℕ) (h : Heap) → IsConsistent h → CallOutcome h (dev_close r) (l_dev_close r h)
unfolding l_dev_close
l_dev_close-CallOutcome r h v = elim (slot h.devices.userdata r) [
  | missing e _ ↦ rw (e, l_dev_close) raises
  | null e _ ↦ rw (e, l_dev_close) (returns h v)
  | at d e _ ↦
      let live = is_live-owned h.devices r d v.devices e in
      elim (Bool-cases (context_live h d)) [
        | inr gone ↦ rw (e, live, gone, l_dev_close) (faults (exited_context r d e gone))
        | inl there ↦
            rw (e, live, there, l_dev_close)
              (returns _ (record {
                contexts = v.contexts;
                devices = freed-IsOwned h.devices r d v.devices e;
                described = v.described ∙ sym (length-set h.devices.live d false);
                channels = v.channels;
              }))
      ]
]
