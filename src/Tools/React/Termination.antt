-- ===== src/Tools/React/Termination.antt =====
-- gsusb_react.c ends once the signal is seen.
use gs_usb_user.Base.{
  ℕ, ◌≡◌, refl, sym, subst, ◌∙◌, Bool, true, false, none, some, List, [], ◌∷◌, arith, ◌==◌,
  get_elem?, Bool-cases, inl, inr, if◌then◌else◌,
}
use gs_usb_user.Frame.{Frame}
use gs_usb_user.Device.{Channel, Dev}
use gs_usb_user.Status.{is_error}
use gs_usb_user.Usb.{Usb}
use gs_usb_user.Rxq.Refine.{contents}
use gs_usb_user.Timing.{Double}
use gs_usb_user.Timing.Halts.{HasRoom}
use gs_usb_user.Recv.{Recv, received, nothing, not_started, waiting, recv}
use gs_usb_user.Lifecycle.ModeFlag
use gs_usb_user.Lifecycle.Started.{IsQuiescent}
use gs_usb_user.Open.Device.{Libusb, Memory, Opened, opened, null}
use gs_usb_user.Open.Fresh.{IsOpened}
use gs_usb_user.Open.Limits.{Reports, AllLimits}
use gs_usb_user.Open.Gives.{Gives}
use gs_usb_user.Tools.Args.{Chosen, chosen, usage, choose, GetoptLong}
use gs_usb_user.Tools.Args.Selection.{IsUsage, choose-IsUsage}
use gs_usb_user.Tools.Common.{gsusb_init, tool_open}
use gs_usb_user.Tools.Common.Gives.{tool_open-AtRest}
use gs_usb_user.Tools.Session.{Ready, ready, give_up, Ended, exits, fault}
use gs_usb_user.Tools.Session.Outcome.{
  IsReady, with_channel, without, bring_up-IsReady, finish_tool_total,
}
use gs_usb_user.Tools.Session.Steady.{
  AllOf, IsSteady, KeepsSteady, Heard, frame, silence, any_stop, recv-Heard, EndsBySignal, exited,
  unsignalled,
}
use gs_usb_user.Tools.React.{Turn, Loop, Watch, left, running, blocked, crash, react_to, watch}
use gs_usb_user.Tools.React.Responses.{answered}
use gs_usb_user.Tools.React.Main.{
  Options, defaults, apply_option, after_watch, react_loop, react_device, react_with, react_main,
}

-- any frame
abbrev pub AnyFrame : Frame → Type 0
AnyFrame f = Unit

-- The loop is left with the channel as it should be, or goes on because no signal was seen.
data Watched {W : Type 0} (k : ℕ) (signal : Bool) : Watch W → Type 0 where
  over : (st : Loop W) → IsSteady AnyFrame k st.channel → Watched k signal (left st)
  more : (st : Loop W) → signal ≡ false → Watched k signal (running st)

module _ {W : Type 0} (usb : Usb W) (dev : Dev) (key_id resp_id : ℕ) (k : ℕ) where
  watch-Watched :
      (turns : List Turn) (st : Loop W)
      → AllOf (KeepsSteady AnyFrame k) turns
      → IsSteady AnyFrame k st.channel
      → Watched k (any_stop turns) (watch usb dev key_id resp_id turns st)
  unfolding watch react_to
  watch-Watched [] st all s = more st refl
  watch-Watched (turn ∷ turns) st all s = elim (Bool-cases turn.stop) [
    | inl e ↦ rw e (over st s)
    | inr e ↦ rw e (
        turned (recv 200 turn.waits (turn.meanwhile st.channel))
          (recv-Heard AnyFrame k 200 turn.waits (turn.meanwhile st.channel)
            (all.0.kept st.channel s) all.0.found all.0.ends)
          (λ st' s'. watch-Watched turns st' all.1 s'))
  ]
    where
      turned :
          (r : Recv)
          → Heard AnyFrame k r
          → ((st' : Loop W)
              → IsSteady AnyFrame k st'.channel
              → Watched k (any_stop turns) (watch usb dev key_id resp_id turns st'))
          → Watched k (any_stop turns) (elim r as (λ x. Watch W) [
            | received rx ch ↦
                elim (react_to usb dev key_id resp_id rx (record st { channel = ch })) [
                  | none ↦ crash
                  | some st' ↦ watch usb dev key_id resp_id turns st'
                ]
            | nothing ch ↦ watch usb dev key_id resp_id turns (record st { channel = ch })
            | not_started ch ↦ left (record st { channel = ch })
            | waiting ↦ blocked st
            | Recv.fault ↦ crash
          ])
      turned r (frame f ch p s') rest =
          let st2 = record st { channel = ch } in
          elim (Bool-cases (f.can_id == key_id)) [
            | inr e ↦ rw e (rest st2 s')
            | inl e ↦
                let (rc, w, sent, ans) = answered usb dev key_id resp_id st2 in
                rw (e, ans) (rest _ s')
          ]
      turned r (silence ch s') rest = rest (record st { channel = ch }) s'

AllOf-any : (fs : List Frame) → AllOf AnyFrame fs
AllOf-any [] = tt
AllOf-any (f ∷ fs) = (tt, AllOf-any fs)

module _ {W F : Type 0} (usb : Usb W) (lib : Libusb W) (mem : Memory) (d : Double F) (fuel : ℕ)
    (limits : Reports usb (HasRoom fuel)) (turns : List Turn) where
  react_loop-EndsBySignal :
      (o : Options) (dev : Dev) (w : W) (ch : Channel)
      → AllOf (KeepsSteady AnyFrame o.channel) turns
      → IsQuiescent dev
      → get_elem? dev.channels o.channel ≡ some ch
      → ch.started ≡ true
      → EndsBySignal (any_stop turns) (react_loop usb lib mem d fuel o turns dev w)
  unfolding react_loop after_watch
  react_loop-EndsBySignal o dev w ch t q at s =
      let st : Loop W = record { channel = ch; seen = 0; reacted = 0; world = w } in
      rw (at, react_loop)
        (after (watch usb dev o.key_id o.resp_id turns st) (
          watch-Watched usb dev o.key_id o.resp_id o.channel turns st t (record {
            indexed = q.valid.indexed o.channel ch at;
            started = s;
            queued = q.valid.queued o.channel ch at;
            frames = AllOf-any (contents ch.queue);
          })))
    where
      after :
          (r : Watch W)
          → Watched o.channel (any_stop turns) r
          → EndsBySignal (any_stop turns) (after_watch usb lib mem d fuel dev o.channel r)
      after r (over st h) =
          let (w', e) =
            finish_tool_total usb lib dev o.channel ch st.channel st.world q at h.indexed
              (h.started ∙ sym s) h.queued in
          rw (e, after_watch) (exited 0 w' (omega arith))
      after r (more st n) = unsignalled n

  react_device-EndsBySignal :
      (o : Options) (dev : Dev) (w : W)
      → AllOf (KeepsSteady AnyFrame o.channel) turns
      → IsQuiescent dev
      → AllLimits (HasRoom fuel) dev.channels
      → EndsBySignal (any_stop turns) (react_device usb lib mem d fuel o turns dev w)
  unfolding react_device
  react_device-EndsBySignal o dev w t q l =
      let (r, e, k) =
        bring_up-IsReady usb d fuel dev o.channel false o.bitrate 0
          (if o.loopback then ModeFlag.loopback else 0) w q l in
      rw (e, react_device) (after r k)
    where
      after :
          (r : Ready W)
          → IsReady dev o.channel r
          → EndsBySignal (any_stop turns) (elim r as (λ x. Ended W) [
            | give_up w' ↦ exits 1 w'
            | ready dev' w' ↦ react_loop usb lib mem d fuel o turns dev' w'
          ])
      after r (with_channel dev' w' old ch q' at at' s) =
          react_loop-EndsBySignal o dev' w' ch t q' at' s.0
      after r (without w') = exited 1 w' (omega arith)

  react_with-EndsBySignal :
      (o : Options) (w : W)
      → AllOf (KeepsSteady AnyFrame o.channel) turns
      → EndsBySignal (any_stop turns) (react_with usb lib mem d fuel o turns w)
  unfolding react_with
  react_with-EndsBySignal o w t =
      let (rc, w1) = gsusb_init lib w in
      elim (Bool-cases (is_error rc)) [
        | inl e ↦ rw e (exited 1 w1 (omega arith))
        | inr e ↦ rw e (
            after (tool_open usb lib mem o.vid o.pid o.bus o.addr w1)
              (tool_open-AtRest usb lib mem (HasRoom fuel) limits o.vid o.pid o.bus o.addr w1))
      ]
    where
      after :
          (r : Opened W)
          → Gives (λ dev. IsOpened dev × AllLimits (HasRoom fuel) dev.channels) r
          → EndsBySignal (any_stop turns) (elim r as (λ x. Ended W) [
            | opened dev w2 ↦ react_device usb lib mem d fuel o turns dev w2
            | null w2 ↦ exits 1 w2
            | Opened.fault ↦ fault
          ])
      after (opened dev w2) g = react_device-EndsBySignal o dev w2 t g.0.quiescent g.1
      after (null w2) g = exited 1 w2 (omega arith)
      after Opened.fault g = absurd g

  -- When libusb fills the buffers it is asked to fill, the limits that the devices report leave room
  -- for one more step of the prescaler below 2^32 and are less than the fuel, the other threads leave
  -- the channel that the options select started with a valid queue, and the time of each wait runs
  -- out: then on every command line `gsusb_react` ends with exit code 0 or 1 if the signal is seen in
  -- one of the turns, whatever libusb and pthreads answer, and nothing is read or written out of
  -- bounds.
  pub react_main-EndsBySignal :
      (getopt : GetoptLong) (argv : List (List ℕ)) (w : W) (k : ℕ)
      → ((o : Options) → choose apply_option defaults (getopt argv).0 ≡ chosen o → o.channel ≡ k)
      → AllOf (KeepsSteady AnyFrame k) turns
      → EndsBySignal (any_stop turns) (react_main usb lib mem d fuel getopt argv turns w)
  unfolding react_main
  react_main-EndsBySignal getopt argv w k selected steady =
      after (choose apply_option defaults (getopt argv).0)
        (choose-IsUsage apply_option defaults (getopt argv).0) selected
    where
      after :
          (c : Chosen Options)
          → IsUsage c
          → ((o : Options) → c ≡ chosen o → o.channel ≡ k)
          → EndsBySignal (any_stop turns) (elim c as (λ x. Ended W) [
            | usage code ↦ exits code w
            | chosen o ↦ react_with usb lib mem d fuel o turns w
          ])
      after (usage code) u same = exited code w u
      after (chosen o) u same =
          react_with-EndsBySignal o w
            (subst (λ n. AllOf (KeepsSteady AnyFrame n) turns) (sym (same o refl)) steady)
