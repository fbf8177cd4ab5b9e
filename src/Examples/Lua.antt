-- ===== src/Examples/Lua.antt =====
-- Runs of the Lua binding.
use gs_usb_user.Base.{
  ◌≤◌, get_or, get_or-replicate_default, ℕ, zero, suc, get_elem?, ◌≡◌, refl, Bool, true, false,
  Option, none, some, List, [], ◌∷◌, arith, ◌>>=◌,
}
use gs_usb_user.Base.Int.{ℤ, pos}
use gs_usb_user.Frame.{Frame}
use gs_usb_user.Lua.{LuaApi, ReadsBack}
use gs_usb_user.Lua.Marshal.{Key, push_frame, check_frame}
use gs_usb_user.Frame.Id.{CanId, packed, no_error}
use gs_usb_user.Lua.Marshal.RoundTrip.{trimmed, check_frame-push_frame}
use gs_usb_user.Lua.Handles.{
  Heap, Call, init, ctx_open, ctx_exit, dev_channel, dev_close, channel_method, empty_heap, perform,
  done, fault, run,
}
use gs_usb_user.Lua.Handles.Table.{new_userdata-IsOwned}
use gs_usb_user.Lua.Handles.Owners.{IsChannel, IsConsistent}
use gs_usb_user.Lua.Handles.Safety.{
  SessionOutcome, run-SessionOutcome, empty_heap-IsConsistent, closed-channel_faults,
}
use gs_usb_user.Device.{Channel, Dev}
use gs_usb_user.Rx.Effect.{IsWellFormed}
use gs_usb_user.Tx.{send}
use gs_usb_user.Recv.{received}
use gs_usb_user.Lua.Methods.{opt_integer, recv_values, table_of, l_ch_send, status_values}
use gs_usb_user.Lua.Methods.Forward.{l_ch_send-recv_values}
use gs_usb_user.Examples.{two_bytes, bus, counting}

data Value : Type 0 where
  nil : Value
  integer : ℤ → Value
  boolean : Bool → Value
  lstring : List ℕ → Value

is_nil : Value → Bool
is_nil nil = true
is_nil _ = false

check_integer : Value → Option ℤ
check_integer (integer n) = some n
check_integer _ = none

check_lstring : Value → Option (List ℕ)
check_lstring (lstring s) = some s
check_lstring _ = none

to_boolean : Value → Bool
to_boolean nil = false
to_boolean (boolean b) = b
to_boolean _ = true

abbrev values : LuaApi Value
values = record {
  nil = nil;
  is_nil = is_nil;
  push_integer = λ n. integer (pos n);
  push_boolean = boolean;
  push_lstring = lstring;
  check_integer = check_integer;
  check_lstring = check_lstring;
  to_boolean = to_boolean;
}

values-ReadsBack : ReadsBack values
unfolding is_nil check_integer check_lstring to_boolean
values-ReadsBack = record {
  integer = λ n h. refl;
  boolean = λ b. refl;
  lstring = λ s. refl;
  integer_there = λ n. refl;
  lstring_there = λ s. refl;
}

-- an extended id of a remote frame
abbrev remote_id : CanId
remote_id = record { number = 0x1234567; is_extended = true; is_remote = true; is_error = false }

abbrev remote_frame : Frame
remote_frame = record two_bytes { can_id = packed remote_id }

check_frame-push_frame_example :
    (push_frame values remote_frame >>= check_frame values)
    ≡ some (record {
      can_id = packed (no_error remote_id);
      len = 2;
      flags = 0;
      payload = trimmed remote_frame;
      timestamp_us = 0;
    })
check_frame-push_frame_example =
    check_frame-push_frame values values-ReadsBack remote_id remote_frame (omega arith) refl
      (omega arith) refl (omega arith)

-- a channel is read after its context was exited, and then used
abbrev script : List Call
script =
    init true
    ∷ ctx_open 0 true (some 2)
    ∷ dev_channel 0 true 1
    ∷ channel_method 0 true true
    ∷ ctx_exit 0
    ∷ ctx_exit 0
    ∷ channel_method 0 true false
    ∷ channel_method 0 true true
    ∷ []

run-SessionOutcome_example : SessionOutcome (run script empty_heap)
run-SessionOutcome_example = run-SessionOutcome script empty_heap empty_heap-IsConsistent

-- the heap with one context, one device and one channel
abbrev opened_heap : Heap
opened_heap = record {
  contexts = record { userdata = some 0 ∷ []; live = true ∷ [] };
  devices = record { userdata = some 0 ∷ []; live = true ∷ [] };
  info = record { context = 0; channel_count = 2 } ∷ [];
  channels = some (0, 1) ∷ [];
}

opened_heap-IsChannel :
    (r : ℕ) (v : Option (ℕ × ℕ))
    → get_elem? opened_heap.channels r ≡ some v
    → IsChannel opened_heap v
opened_heap-IsChannel zero v e =
    (0, 1, record { context = 0; channel_count = 2 }, cc, refl, omega arith)
opened_heap-IsChannel (suc r) v e = cc

opened_heap-IsConsistent : IsConsistent opened_heap
opened_heap-IsConsistent =
    let v = empty_heap-IsConsistent in
    record {
      contexts = new_userdata-IsOwned empty_heap.contexts v.contexts;
      devices = new_userdata-IsOwned empty_heap.devices v.devices;
      described = refl;
      channels = opened_heap-IsChannel;
    }

closed-channel_faults_example :
    (h : Heap) × (perform (dev_close 0) opened_heap ≡ done h)
    × (perform (channel_method 0 true true) h ≡ fault)
closed-channel_faults_example =
    closed-channel_faults opened_heap 0 0 0 1 true opened_heap-IsConsistent refl refl refl

nil_default : opt_integer values nil (pos 1000) ≡ some (pos 1000)
unfolding is_nil
nil_default = refl

two_bytes-IsWellFormed : (i : ℕ) → IsWellFormed (record two_bytes { can_id = i })
two_bytes-IsWellFormed i = record { array = refl; at_most = omega arith; zeros = no_tail }
  where
    no_tail : (j : ℕ) → 2 ≤ j → get_or two_bytes.payload j 0 ≡ 0
    no_tail zero h = absurd (omega arith)
    no_tail (suc zero) h = absurd (omega arith)
    no_tail (suc (suc j)) h = get_or-replicate_default {A = ℕ} 62 j 0

l_ch_send-recv_values_example :
    (table : Key → Value) × (recv_values values (received remote_frame bus)
      ≡ some (table_of table, bus))
    × ((dev : Dev) (ch : Channel) (w : ℕ)
        → l_ch_send values counting dev ch table nil w ≡ (
            send counting dev ch
              (record remote_frame { can_id = packed (no_error remote_id) })
              1000
              w
            >>= λ r. some (status_values r.0, r.1)))
l_ch_send-recv_values_example =
    l_ch_send-recv_values values values-ReadsBack counting remote_id remote_frame bus nil (pos 1000)
      (two_bytes-IsWellFormed (packed remote_id)) (omega arith) refl (omega arith) nil_default
