-- ===== src/Tools/React.antt =====
-- driver/tools/gsusb_react.c: the loop of `main`. A turn of it is the value of `g_stop`, what the
-- reader thread did to the channel since the last one, and the waits of `gsusb_channel_recv`. The clock
-- readings, which are printed only, are left out; `unsigned long` has 64 bits.
pub mod Responses
pub mod Main
pub mod Termination
use gs_usb_user.Base.{
  ℕ, ◌+◌, Bool, true, false, Option, none, some, List, [], ◌∷◌, ◌==◌, u64, set, ◌>>=◌,
  if◌then◌else◌,
}
use gs_usb_user.Frame.{Frame, zero_frame}
use gs_usb_user.Device.{Channel, Dev}
use gs_usb_user.Status.{Status, is_error}
use gs_usb_user.Usb.{Usb}
use gs_usb_user.Tx.{send}
use gs_usb_user.Recv.{Wait, Recv, received, nothing, not_started, waiting, fault, recv}

pub record Turn : Type 0 where
  pub stop : Bool
  pub meanwhile : Channel → Channel
  pub waits : List Wait

-- the variables of the loop
pub record Loop (W : Type 0) : Type 0 where
  pub channel : Channel
  pub seen : ℕ
  pub reacted : ℕ
  pub world : W

-- where the loop is: left, before another turn, in a wait that has not ended, or out of bounds
pub data Watch (W : Type 0) : Type 0 where
  left running blocked : Loop W → Watch W
  crash : Watch W

-- `tx`
abbrev pub response : ℕ → Frame
response resp_id = record zero_frame {
  can_id = resp_id;
  len = 1;
  payload = set zero_frame.payload 0 1;
}

module _ {W : Type 0} (usb : Usb W) (dev : Dev) (key_id resp_id : ℕ) where
  -- from `seen++` on; `none` is an access out of bounds
  unfoldable pub answer : Loop W → Option (Loop W)
  answer st = do
    (rc, w) ← send usb dev st.channel (response resp_id) 100 st.world
    some (record st {
      seen = u64 (st.seen + 1);
      reacted = if is_error rc then st.reacted else u64 (st.reacted + 1);
      world = w;
    })

  -- from the match condition on
  unfoldable pub react_to : Frame → Loop W → Option (Loop W)
  react_to rx st = if rx.can_id == key_id then answer st else some st

  unfoldable pub watch : List Turn → Loop W → Watch W
  watch [] st = running st
  watch (turn ∷ turns) st =
      if turn.stop then left st else elim (recv 200 turn.waits (turn.meanwhile st.channel)) [
        | received rx ch ↦ elim (react_to rx (record st { channel = ch })) [
          | none ↦ crash
          | some st' ↦ watch turns st'
        ]
        | nothing ch ↦ watch turns (record st { channel = ch })
        | not_started ch ↦ left (record st { channel = ch })
        | waiting ↦ blocked st
        | fault ↦ crash
      ]
