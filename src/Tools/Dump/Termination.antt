-- ===== src/Tools/Dump/Termination.antt =====
-- gsusb_dump.c ends once the signal is seen.
use gs_usb_user.Base.{
  ℕ, ◌≡◌, refl, ap, sym, subst, ◌∙◌, Bool, true, false, none, some, List, [], ◌∷◌, ◌++◌, arith, has,
  ltb, length, take, get_elem?, Bool-cases, inl, inr,
}
use gs_usb_user.Frame.{Frame, rtr_flag}
use gs_usb_user.Device.{Channel, Dev}
use gs_usb_user.Status.{is_error}
use gs_usb_user.Usb.{Usb}
use gs_usb_user.Rxq.{Rxq}
use gs_usb_user.Rxq.Refine.{contents, length-contents}
use gs_usb_user.Rx.Effect.{IsWellFormed}
use gs_usb_user.Timing.{Double}
use gs_usb_user.Timing.Halts.{HasRoom}
use gs_usb_user.Recv.{Recv, received, nothing, not_started, waiting, recv}
use gs_usb_user.Lifecycle.Started.{IsQuiescent}
use gs_usb_user.Open.Device.{Libusb, Memory, Opened, opened, null}
use gs_usb_user.Open.Fresh.{IsOpened}
use gs_usb_user.Open.Limits.{Reports, AllLimits}
use gs_usb_user.Open.Gives.{Gives}
use gs_usb_user.Tools.Args.{Chosen, chosen, usage, choose, GetoptLong}
use gs_usb_user.Tools.Args.Selection.{IsUsage, choose-IsUsage}
use gs_usb_user.Tools.Common.{gsusb_init, tool_open}
use gs_usb_user.Tools.Common.Gives.{tool_open-AtRest}
use gs_usb_user.Tools.Session.{Ready, ready, give_up, Ended, exits, fault}
use gs_usb_user.Tools.Session.Outcome.{
  mapped_total, IsReady, with_channel, without, bring_up-IsReady, finish_tool_total,
}
use gs_usb_user.Tools.Session.Steady.{
  AllOf, IsSteady, KeepsSteady, Heard, frame, silence, any_stop, recv-Heard, EndsBySignal, exited,
  unsignalled,
}
use gs_usb_user.Tools.React.{Turn}
use gs_usb_user.Tools.Dump.{
  Listening, left, running, blocked, crash, bytes_text, shown_data, print_frame, listen,
}
use gs_usb_user.Tools.Dump.Main.{
  Options, defaults, apply_option, mode_of, Printed, after_listen, dump_loop, dump_device,
  dump_with, dump_main,
}

-- The loop is left with the channel as it should be, or goes on because no signal was seen.
data Watched (k : ℕ) (signal : Bool) : Listening → Type 0 where
  over :
      (lines : List (List ℕ)) (ch : Channel)
      → IsSteady IsWellFormed k ch
      → Watched k signal (left lines ch)
  more :
      (lines : List (List ℕ)) (ch : Channel) → signal ≡ false → Watched k signal (running lines ch)

shown_data_total : (f : Frame) → IsWellFormed f → (shown : List ℕ) × (shown_data f ≡ some shown)
shown_data_total f g = elim (Bool-cases (has f.can_id rtr_flag)) [
  | inl e ↦ ([], rw e refl)
  | inr e ↦
      let inside : ltb (length f.payload) f.len ≡ false = ground (arith, g.array, g.at_most) in
      (b' ' ∷ bytes_text (take f.len f.payload), rw (e, inside) refl)
]

-- A well-formed frame is printed.
print_frame_total :
    (stamp : ℕ → List ℕ) (channel : ℕ) (f : Frame)
    → IsWellFormed f
    → (line : List ℕ) × (print_frame stamp channel f ≡ some line)
unfolding print_frame
print_frame_total stamp channel f g =
    let (shown, e) = shown_data_total f g in mapped_total (shown_data f) shown _ e

AllOf-empty : {A : Type 0} (P : A → Type 0) (xs : List A) → length xs ≡ 0 → AllOf P xs
AllOf-empty P [] e = tt
AllOf-empty P (x ∷ xs) e = absurd (omega arith)

nothing_held : (q : Rxq) → q.len ≡ 0 → AllOf IsWellFormed (contents q)
nothing_held q z = AllOf-empty IsWellFormed (contents q) (length-contents q ∙ z)

listen-Watched :
    (stamp : ℕ → List ℕ) (k : ℕ) (turns : List Turn) (ch : Channel) (printed : List (List ℕ))
    → AllOf (KeepsSteady IsWellFormed k) turns
    → IsSteady IsWellFormed k ch
    → Watched k (any_stop turns) (listen stamp k turns ch printed)
unfolding listen
listen-Watched stamp k [] ch printed all s = more printed ch refl
listen-Watched stamp k (turn ∷ turns) ch printed all s = elim (Bool-cases turn.stop) [
  | inl e ↦ rw e (over printed ch s)
  | inr e ↦ rw e (
      turned (recv 500 turn.waits (turn.meanwhile ch))
        (recv-Heard IsWellFormed k 500 turn.waits (turn.meanwhile ch) (all.0.kept ch s) all.0.found
          all.0.ends)
        (λ ch' p s'. listen-Watched stamp k turns ch' p all.1 s'))
]
  where
    turned :
        (r : Recv)
        → Heard IsWellFormed k r
        → ((ch' : Channel) (p : List (List ℕ))
            → IsSteady IsWellFormed k ch'
            → Watched k (any_stop turns) (listen stamp k turns ch' p))
        → Watched k (any_stop turns) (elim r as (λ x. Listening) [
          | received f ch' ↦ elim (print_frame stamp k f) [
            | none ↦ crash
            | some line ↦ listen stamp k turns ch' (printed ++ (line ∷ []))
          ]
          | nothing ch' ↦ listen stamp k turns ch' printed
          | not_started ch' ↦ left printed ch'
          | waiting ↦ blocked printed ch
          | Recv.fault ↦ crash
        ])
    turned r (frame f ch' p s') rest =
        let (line, e) = print_frame_total stamp k f p in rw e (rest ch' (printed ++ (line ∷ [])) s')
    turned r (silence ch' s') rest = rest ch' printed s'

module _ {W F : Type 0} (stamp : ℕ → List ℕ) (usb : Usb W) (lib : Libusb W) (mem : Memory)
    (d : Double F) (fuel : ℕ) (limits : Reports usb (HasRoom fuel)) (turns : List Turn) where
  dump_loop-EndsBySignal :
      (o : Options) (dev : Dev) (w : W) (ch : Channel)
      → AllOf (KeepsSteady IsWellFormed o.channel) turns
      → IsQuiescent dev
      → get_elem? dev.channels o.channel ≡ some ch
      → ch.started ≡ true
      → ch.queue.len ≡ 0
      → EndsBySignal (any_stop turns) (dump_loop stamp usb lib mem d fuel o turns dev w)
  unfolding dump_loop after_listen
  dump_loop-EndsBySignal o dev w ch t q at s z =
      rw (at, dump_loop)
        (after (listen stamp o.channel turns ch []) (
          listen-Watched stamp o.channel turns ch [] t (record {
            indexed = q.valid.indexed o.channel ch at;
            started = s;
            queued = q.valid.queued o.channel ch at;
            frames = nothing_held ch.queue z;
          })))
    where
      after :
          (r : Listening)
          → Watched o.channel (any_stop turns) r
          → EndsBySignal (any_stop turns) (after_listen stamp usb lib mem d fuel dev o.channel r w)
      after r (over lines last h) =
          let (w', e) =
            finish_tool_total usb lib dev o.channel ch last w q at h.indexed (h.started ∙ sym s)
              h.queued in
          rw (e, after_listen) (exited 0 (lines, w') (omega arith))
      after r (more lines last n) = unsignalled n

  dump_device-EndsBySignal :
      (o : Options) (dev : Dev) (w : W)
      → AllOf (KeepsSteady IsWellFormed o.channel) turns
      → IsOpened dev
      → AllLimits (HasRoom fuel) dev.channels
      → EndsBySignal (any_stop turns) (dump_device stamp usb lib mem d fuel o turns dev w)
  unfolding dump_device
  dump_device-EndsBySignal o dev w t v l =
      let (r, e, k) =
        bring_up-IsReady usb d fuel dev o.channel o.fd_mode o.bitrate o.data_bitrate (mode_of o) w
          v.quiescent l in
      rw (e, dump_device) (after r k)
    where
      after :
          (r : Ready W)
          → IsReady dev o.channel r
          → EndsBySignal (any_stop turns) (elim r as (λ x. Ended (Printed W)) [
            | give_up w' ↦ exits 1 ([], w')
            | ready dev' w' ↦ dump_loop stamp usb lib mem d fuel o turns dev' w'
          ])
      after r (with_channel dev' w' old ch q' at at' s) =
          dump_loop-EndsBySignal o dev' w' ch t q' at' s.0
            (ap (λ q. q.len) s.1 ∙ v.nothing_queued o.channel old at)
      after r (without w') = exited 1 ([], w') (omega arith)

  dump_with-EndsBySignal :
      (o : Options) (w : W)
      → AllOf (KeepsSteady IsWellFormed o.channel) turns
      → EndsBySignal (any_stop turns) (dump_with stamp usb lib mem d fuel o turns w)
  unfolding dump_with
  dump_with-EndsBySignal o w t =
      let (rc, w1) = gsusb_init lib w in
      elim (Bool-cases (is_error rc)) [
        | inl e ↦ rw e (exited 1 ([], w1) (omega arith))
        | inr e ↦ rw e (
            after (tool_open usb lib mem o.vid o.pid o.bus o.addr w1)
              (tool_open-AtRest usb lib mem (HasRoom fuel) limits o.vid o.pid o.bus o.addr w1))
      ]
    where
      after :
          (r : Opened W)
          → Gives (λ dev. IsOpened dev × AllLimits (HasRoom fuel) dev.channels) r
          → EndsBySignal (any_stop turns) (elim r as (λ x. Ended (Printed W)) [
            | opened dev w2 ↦ dump_device stamp usb lib mem d fuel o turns dev w2
            | null w2 ↦ exits 1 ([], w2)
            | Opened.fault ↦ fault
          ])
      after (opened dev w2) g = dump_device-EndsBySignal o dev w2 t g.0 g.1
      after (null w2) g = exited 1 ([], w2) (omega arith)
      after Opened.fault g = absurd g

  -- When libusb fills the buffers it is asked to fill, the limits that the devices report leave room
  -- for one more step of the prescaler below 2^32 and are less than the fuel, the other threads leave
  -- the channel that the options select started with a valid queue of well-formed frames, and the
  -- time of each wait runs out: then on every command line `gsusb_dump` ends with exit code 0 or 1 if
  -- the signal is seen in one of the turns, whatever libusb and pthreads answer, and nothing is read
  -- or written out of bounds.
  pub dump_main-EndsBySignal :
      (getopt : GetoptLong) (argv : List (List ℕ)) (w : W) (k : ℕ)
      → ((o : Options) → choose apply_option defaults (getopt argv).0 ≡ chosen o → o.channel ≡ k)
      → AllOf (KeepsSteady IsWellFormed k) turns
      → EndsBySignal (any_stop turns) (dump_main stamp usb lib mem d fuel getopt argv turns w)
  unfolding dump_main
  dump_main-EndsBySignal getopt argv w k selected steady =
      after (choose apply_option defaults (getopt argv).0)
        (choose-IsUsage apply_option defaults (getopt argv).0) selected
    where
      after :
          (c : Chosen Options)
          → IsUsage c
          → ((o : Options) → c ≡ chosen o → o.channel ≡ k)
          → EndsBySignal (any_stop turns) (elim c as (λ x. Ended (Printed W)) [
            | usage code ↦ exits code ([], w)
            | chosen o ↦ dump_with stamp usb lib mem d fuel o turns w
          ])
      after (usage code) u same = exited code ([], w) u
      after (chosen o) u same =
          dump_with-EndsBySignal o w
            (subst (λ n. AllOf (KeepsSteady IsWellFormed n) turns) (sym (same o refl)) steady)
