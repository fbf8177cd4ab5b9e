-- ===== src/Tools/React/Responses.antt =====
-- What gsusb_react.c sends, and what it counts.
use gs_usb_user.Base.{
  ℕ, ◌+◌, ◌<◌, ◌≡◌, ◌^◌, refl, sym, ap, Option, none, some, List, [], ◌∷◌, arith, ◌==◌, u64, length,
  ◌>>=◌, if◌then◌else◌, Bool-cases, inl, inr,
}
use gs_usb_user.Frame.{Frame}
use gs_usb_user.Device.{Channel, Dev}
use gs_usb_user.Status.{Status, is_error}
use gs_usb_user.Usb.{Usb}
use gs_usb_user.Rxq.Invariant.{IsValid}
use gs_usb_user.Tx.{send}
use gs_usb_user.Tx.Send.{send_cases}
use gs_usb_user.Recv.{Recv, received, nothing, not_started, waiting, fault, recv}
use gs_usb_user.Recv.Outcome.{AllValid, Leaves, Outcome-Leaves, recv-Outcome}
use gs_usb_user.Tools.React.{
  Turn, Loop, Watch, left, running, blocked, crash, response, answer, react_to, watch,
}

-- each frame that is received before the loop is left, with the channel that it leaves
abbrev pub heard : List Turn → Channel → List (Channel × Frame)
heard [] ch = []
heard (turn ∷ turns) ch = if turn.stop then [] else elim (recv 200 turn.waits (turn.meanwhile ch)) [
  | received rx ch' ↦ (ch', rx) ∷ heard turns ch'
  | nothing ch' ↦ heard turns ch'
  | _ ↦ []
]

-- the frames with the key id
abbrev pub matching : ℕ → List (Channel × Frame) → List Channel
matching key_id [] = []
matching key_id ((ch, rx) ∷ pairs) =
    let rest = matching key_id pairs in if rx.can_id == key_id then ch ∷ rest else rest

abbrev pub count_ok : List Status → ℕ
count_ok [] = 0
count_ok (rc ∷ rcs) = (if is_error rc then 0 else 1) + count_ok rcs

-- The other threads leave a valid queue, in each turn and in each wait.
pub data AllKeep : List Turn → Type 0 where
  end : AllKeep []
  next :
      {turn : Turn} {turns : List Turn}
      → ((ch : Channel) → IsValid ch.queue → IsValid (turn.meanwhile ch).queue)
      → AllValid turn.waits
      → AllKeep turns
      → AllKeep (turn ∷ turns)

module _ {W : Type 0} (usb : Usb W) (dev : Dev) (key_id resp_id : ℕ) where
  -- one response on each channel of a list, and what became of them
  unfoldable pub respond : List Channel → W → Option (List Status × W)
  respond [] w = some ([], w)
  respond (ch ∷ chs) w = do
    (rc, w1) ← send usb dev ch (response resp_id) 100 w
    (rcs, w2) ← respond chs w1
    some (rc ∷ rcs, w2)

  -- The loop has counted these responses.
  abbrev pub Counted : Loop W → Loop W → List Status → Type 0
  Counted before after rcs =
      (after.seen ≡ u64 (before.seen + length rcs))
      × (after.reacted ≡ u64 (before.reacted + count_ok rcs))

  abbrev pub loop_of : Watch W → Option (Loop W)
  loop_of (left st) = some st
  loop_of (running st) = some st
  loop_of (blocked st) = some st
  loop_of crash = none

  abbrev pub Responded : List Channel → Loop W → Watch W → Type 0
  Responded chs st r =
      (rcs : List Status) × (st' : Loop W) × (respond chs st.world ≡ some (rcs, st'.world))
      × (loop_of r ≡ some st')
      × Counted st st' rcs

  send_total :
      (ch : Channel) (w : W)
      → (rc : Status) × (w' : W) × (send usb dev ch (response resp_id) 100 w ≡ some (rc, w'))
  send_total ch w = elim (send_cases usb dev ch (response resp_id) 100 w refl) [
    | inl (_, e) ↦ (Status.invalid, w, e)
    | inr (_, rc, e, _) ↦ (rc, _, e)
  ]

  stays :
      (st : Loop W) (r : Watch W) (after : Loop W)
      → loop_of r ≡ some after
      → after.world ≡ st.world
      → after.seen ≡ st.seen
      → after.reacted ≡ st.reacted
      → st.seen < 2 ^ 64
      → st.reacted < 2 ^ 64
      → Responded [] st r
  unfolding respond
  stays st r after e w s t h g =
      ([], after, ap (λ x. some ([], x)) (sym w), e, (ground (arith, s), ground (arith, t)))

  -- the loop behind a response
  abbrev pub replied : Loop W → Status → W → Loop W
  replied st rc w = record st {
    seen = u64 (st.seen + 1);
    reacted = if is_error rc then st.reacted else u64 (st.reacted + 1);
    world = w;
  }

  pub answered :
      (st : Loop W)
      → (rc : Status) × (w : W) × (send usb dev st.channel (response resp_id) 100 st.world
          ≡ some (rc, w))
        × (answer usb dev key_id resp_id st ≡ some (replied st rc w))
  unfolding answer
  answered st = let (rc, w, e) = send_total st.channel st.world in (rc, w, e, rw e refl)

  -- A matching frame: its response, and then those of the turns that follow.
  Responded-cons :
      (st : Loop W) (chs : List Channel) (r : Watch W) (rc : Status) (w : W)
      → send usb dev st.channel (response resp_id) 100 st.world ≡ some (rc, w)
      → Responded chs (replied st rc w) r
      → Responded (st.channel ∷ chs) st r
  unfolding respond
  Responded-cons st chs r rc w sent (rcs, after, e, l, c) =
      (rc ∷ rcs, after, rw (sent, e) refl, l, (ground (arith, c.0), ground (arith, c.1)))

  -- From a channel with a valid queue that the other threads keep valid, the loop never reads or
  -- writes out of bounds. Up to where it is left, it sends one response for each frame with the key id
  -- that it receives, in their order and on the channel as it is then, and nothing else; `seen` has
  -- grown by their number, and `reacted` by the number of those that were sent, each modulo 2^64.
  pub watch-Responded :
      (turns : List Turn) (st : Loop W)
      → IsValid st.channel.queue
      → AllKeep turns
      → st.seen < 2 ^ 64
      → st.reacted < 2 ^ 64
      → Responded
          (matching key_id (heard turns st.channel))
          st
          (watch usb dev key_id resp_id turns st)
  unfolding watch react_to
  watch-Responded [] st v keep h g = stays st (running st) st refl refl refl refl h g
  watch-Responded (turn ∷ turns) st v (next kept all keep) h g = elim (Bool-cases turn.stop) [
    | inl e ↦ rw e (stays st (left st) st refl refl refl refl h g)
    | inr e ↦ rw e (
        turned (recv 200 turn.waits (turn.meanwhile st.channel))
          (Outcome-Leaves 200 turn.waits (turn.meanwhile st.channel) _ (kept st.channel v) all
            (recv-Outcome 200 turn.waits (turn.meanwhile st.channel) (kept st.channel v) all))
          (λ st' v' h' g'. watch-Responded turns st' v' keep h' g'))
  ]
    where
      turned :
          (r : Recv)
          → Leaves r
          → ((st' : Loop W)
              → IsValid st'.channel.queue
              → st'.seen < 2 ^ 64
              → st'.reacted < 2 ^ 64
              → Responded
                  (matching key_id (heard turns st'.channel))
                  st'
                  (watch usb dev key_id resp_id turns st'))
          → Responded
              (matching key_id (elim r [
                | received rx ch' ↦ (ch', rx) ∷ heard turns ch'
                | nothing ch' ↦ heard turns ch'
                | _ ↦ []
              ]))
              st
              (elim r [
                | received rx ch ↦
                    elim (react_to usb dev key_id resp_id rx (record st { channel = ch })) [
                      | none ↦ crash
                      | some st' ↦ watch usb dev key_id resp_id turns st'
                    ]
                | nothing ch ↦ watch usb dev key_id resp_id turns (record st { channel = ch })
                | not_started ch ↦ left (record st { channel = ch })
                | waiting ↦ blocked st
                | fault ↦ crash
              ])
      turned (received f after) v' rest =
          let st2 = record st { channel = after } in
          elim (Bool-cases (f.can_id == key_id)) [
            | inr e ↦ rw e (rest st2 v' h g)
            | inl e ↦
                let (rc, w, sent, ans) = answered st2 in
                rw (e, ans)
                  (Responded-cons st2 (matching key_id (heard turns after))
                    (watch usb dev key_id resp_id turns (replied st2 rc w)) rc w sent
                    (rest (replied st2 rc w) v' (omega arith) (ground arith)))
          ]
      turned (nothing ch) v' rest = rest (record st { channel = ch }) v' h g
      turned (not_started ch) u rest =
          stays st (left (record st { channel = ch })) (record st { channel = ch }) refl refl refl
            refl h g
      turned fault u rest = absurd u
      turned waiting u rest = stays st (blocked st) st refl refl refl refl h g
