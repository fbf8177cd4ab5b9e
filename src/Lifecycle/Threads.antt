-- ===== src/Lifecycle/Threads.antt =====
-- Any number of threads on one device: the sections of `gsusb_channel_start` and
-- `gsusb_channel_stop` under `start_lock`, the reader's packets and the frames that
-- `gsusb_channel_recv` takes, in any order.
use gs_usb_user.Base.{
  ℕ, suc, ◌+◌, ◌≡◌, ◌≢◌, refl, subst, ◌∙◌, true, false, none, some, List, arith, not, ◌&&◌, ◌==◌,
  has, u16, u32, get_elem?, set, Bool-cases, Option-cases, inl, inr, if◌then◌else◌,
}
use gs_usb_user.Frame.{Frame}
use gs_usb_user.Rxq
use gs_usb_user.Rxq.{Rxq, pop}
use gs_usb_user.Rxq.Invariant.{IsValid as IsQueue, push-IsValid}
use gs_usb_user.Rxq.Refine.{contents-pop}
use gs_usb_user.Device.{Channel, Dev, put_channel}
use gs_usb_user.Device.Invariant.{IsValid, put_channel-IsValid}
use gs_usb_user.Status.{Status, is_error}
use gs_usb_user.Usb.{Usb, ctrl_out}
use gs_usb_user.Wire.{Breq, mode_start}
use gs_usb_user.Wire.Feature
use gs_usb_user.Rx.{handle_rx_packet}
use gs_usb_user.Rx.Effect.{Effect, dropped, pushed, handle_rx_packet-Effect}
use gs_usb_user.Lifecycle.{hw_ts, hw_flags, activate, launch, start, release, joined}
use gs_usb_user.Lifecycle.ModeFlag
use gs_usb_user.Lifecycle.Started.{
  digit, count_started, count_started-set, count_started-le, count_positive, set-set,
}
use gs_usb_user.Lifecycle.Start.{mode_bytes_total}

-- the device, and how many calls of `stop` are between their two sections to join the reader
pub record Shared : Type 0 where
  pub dev : Dev
  pub joining : ℕ

-- A well-formed device whose `active_channels` is the number of started channels.
pub record IsCounted (dev : Dev) : Type 0 where
  pub valid : IsValid dev
  pub active : dev.active_channels ≡ count_started dev.channels

pub data Step (s : Shared) : Shared → Type 1 where
  -- a whole `start`, on every branch
  starts :
      {W : Type 0} (usb : Usb W) (k mode_flags : ℕ) (w w' : W) (r : Status × Dev)
      → start usb s.dev k mode_flags w ≡ some (r, w')
      → Step s (record s { dev = r.1 })
  -- the first section of `stop`, on a started channel
  releases :
      (k : ℕ) (ch : Channel)
      → get_elem? s.dev.channels k ≡ some ch
      → ch.started ≡ true
      → Step s (record {
        dev = release s.dev k ch;
        joining = if (release s.dev k ch).active_channels == 0 then suc s.joining else s.joining;
      })
  -- the second one, once the reader has ended
  joins : (n : ℕ) → s.joining ≡ suc n → Step s (record { dev = joined s.dev; joining = n })
  -- the reader handles a packet
  receives :
      (bytes : List ℕ) (d : Dev)
      → handle_rx_packet s.dev bytes ≡ some d
      → Step s (record s { dev = d })
  -- `recv` takes a frame
  takes :
      (k : ℕ) (ch : Channel) (f : Frame) (q : Rxq)
      → get_elem? s.dev.channels k ≡ some ch
      → ch.queue.len ≢ 0
      → pop ch.queue ≡ some (f, q)
      → Step s (record s { dev = put_channel s.dev k (record ch { queue = q }) })

pub data Reach (s : Shared) : Shared → Type 1 where
  here : Reach s s
  next : {t u : Shared} → Reach s t → Step t u → Reach s u

-- A channel in the place of another, with the count to match.
replaced-IsCounted :
    (dev d : Dev) (k : ℕ) (ch c : Channel)
    → IsCounted dev
    → get_elem? dev.channels k ≡ some ch
    → c.index ≡ ch.index
    → IsQueue c.queue
    → d.channels ≡ set dev.channels k c
    → d.channel_count ≡ dev.channel_count
    → d.active_channels + digit ch.started ≡ dev.active_channels + digit c.started
    → IsCounted d
replaced-IsCounted dev d k ch c v at i q e n a =
    let p = put_channel-IsValid dev k c v.valid (i ∙ v.valid.indexed k ch at) q in
    record {
      valid = record {
        counted = rw e (n ∙ p.counted);
        bounded = omega (arith, n, p.bounded);
        indexed = rw e p.indexed;
        queued = rw e p.queued;
      };
      active = rw e (omega (arith, a, v.active, count_started-set dev.channels k ch c at));
    }

active-IsCounted :
    (dev : Dev) → IsCounted dev → u32 (dev.active_channels + 1) ≡ dev.active_channels + 1
active-IsCounted dev v =
    omega (arith, v.active, count_started-le dev.channels, v.valid.counted, v.valid.bounded)

module _ (dev : Dev) (k : ℕ) (ch : Channel) (v : IsCounted dev)
    (at : get_elem? dev.channels k ≡ some ch) where
  abbrev on : Channel
  on = record ch { hw_ts_enabled = hw_ts ch; started = true }

  abbrev off : Channel
  off = record ch { hw_ts_enabled = hw_ts ch; started = false }

  launch-IsCounted :
      {W : Type 0} (usb : Usb W) (w : W)
      → ch.started ≡ false
      → IsCounted (launch usb (activate dev k ch) k on w).0.1
  unfolding launch
  launch-IsCounted usb w stopped =
      let no_wrap = active-IsCounted dev v in
      let queue = v.valid.queued k ch at in
      elim (Bool-cases dev.reader_running) [
        | inl run ↦
            rw run
              (replaced-IsCounted dev _ k ch on v at refl queue refl refl (ground (arith, stopped)))
        | inr idle ↦ elim (Bool-cases (usb.create_reader w).0) [
          | inl made ↦
              rw (idle, made)
                (replaced-IsCounted dev _ k ch on v at refl queue refl refl
                  (ground (arith, stopped)))
          | inr failed ↦
              rw (idle, failed)
                (replaced-IsCounted dev _ k ch off v at refl queue (set-set dev.channels k on off)
                  refl (ground (arith, stopped)))
        ]
      ]

  start-IsCounted :
      {W : Type 0} (usb : Usb W) (mode_flags : ℕ) (w : W)
      → (r : Status × Dev) × (w' : W) × (start usb dev k mode_flags w ≡ some (r, w'))
        × IsCounted r.1
  unfolding start
  start-IsCounted usb mode_flags w =
      let (buf, e) = mode_bytes_total mode_start (hw_flags ch mode_flags) in
      let (rc, w') = ctrl_out usb Breq.mode (u16 ch.index) 0 buf w in
      elim (Bool-cases ch.started) [
        | inl s ↦ ((Status.busy, dev), w, ground (arith, at, e), v)
        | inr s ↦
            elim (Bool-cases (has mode_flags ModeFlag.fd && not (has ch.feature Feature.fd))) [
              | inl u ↦ ((Status.invalid, dev), w, ground (arith, at, e), v)
              | inr u ↦ elim (Bool-cases (is_error rc)) [
                | inl x ↦ ((rc, dev), w', ground (arith, at, e, s, u, x), v)
                | inr x ↦ (
                  (launch usb (activate dev k ch) k on w').0,
                  (launch usb (activate dev k ch) k on w').1,
                  ground (arith, at, e, s, u, x),
                  launch-IsCounted usb w' s,
                )
              ]
            ]
      ]

  release-IsCounted : ch.started ≡ true → IsCounted (release dev k ch)
  release-IsCounted s =
      let some_active = count_positive dev.channels k ch at s in
      replaced-IsCounted dev (release dev k ch) k ch (record ch { started = false }) v at refl
        (v.valid.queued k ch at) refl refl (ground (arith, v.active, some_active, s))

  -- A channel whose queue alone changes.
  queue-IsCounted : (q : Rxq) → IsQueue q → IsCounted (put_channel dev k (record ch { queue = q }))
  queue-IsCounted q good =
      replaced-IsCounted dev _ k ch (record ch { queue = q }) v at refl good refl refl refl

Effect-IsCounted : {dev d : Dev} → IsCounted dev → Effect dev d → IsCounted d
Effect-IsCounted v (dropped e) = rw e v
Effect-IsCounted {dev} v (pushed k ch f lt at good e) =
    rw e (
      queue-IsCounted dev k ch v at (Rxq.push ch.queue f) (push-IsValid f (v.valid.queued k ch at)))

start-missing :
    {W : Type 0} (usb : Usb W) (dev : Dev) (k mode_flags : ℕ) (w : W)
    → get_elem? dev.channels k ≡ none
    → start usb dev k mode_flags w ≡ none
unfolding start
start-missing usb dev k mode_flags w e = rw (e, start) refl

Step-IsCounted : {s t : Shared} → IsCounted s.dev → Step s t → IsCounted t.dev
Step-IsCounted {s} v (starts usb k mode_flags w w' r e) =
    elim (Option-cases (get_elem? s.dev.channels k)) [
      | inl missing ↦ let nothing = start-missing usb s.dev k mode_flags w missing in absurd cc
      | inr (ch, at) ↦
          let (r', w2, e', good) = start-IsCounted s.dev k ch v at usb mode_flags w in
          let same : r' ≡ r = cc in subst (λ x. IsCounted x.1) same good
    ]
Step-IsCounted {s} v (releases k ch at started) = release-IsCounted s.dev k ch v at started
Step-IsCounted v (joins n e) = record {
  valid = record {
    counted = v.valid.counted;
    bounded = v.valid.bounded;
    indexed = v.valid.indexed;
    queued = v.valid.queued;
  };
  active = v.active;
}
Step-IsCounted {s} v (receives bytes d e) =
    let (d', e', effect) = handle_rx_packet-Effect s.dev bytes v.valid in
    let same : d' ≡ d = cc in subst IsCounted same (Effect-IsCounted v effect)
Step-IsCounted {s} v (takes k ch f q at ne e) =
    let (f', q', e', good, _) = contents-pop (v.valid.queued k ch at) ne in
    let same : q' ≡ q = cc in queue-IsCounted s.dev k ch v at q (subst IsQueue same good)

-- However the threads that start and stop channels, take frames and wait for the reader interleave
-- with each other and with the reader, and whatever libusb and pthreads answer, a well-formed device
-- whose `active_channels` is the number of its started channels stays one: no count wraps, and every
-- queue stays valid.
pub Reach-IsCounted : {s t : Shared} → IsCounted s.dev → Reach s t → IsCounted t.dev
Reach-IsCounted v here = v
Reach-IsCounted v (next steps step) = Step-IsCounted (Reach-IsCounted v steps) step
