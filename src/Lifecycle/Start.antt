-- ===== src/Lifecycle/Start.antt =====
-- `gsusb_channel_start` on every branch, from a device whose channels are used from one thread.
use gs_usb_user.Base.{
  ℕ, ◌+◌, ◌≡◌, refl, true, false, some, List, arith, not, ◌&&◌, has, u16, u32, replicate, get_elem?,
  set, get_elem?-set_self, lt-of-get_elem?, Bool-cases, inl, inr,
}
use gs_usb_user.Device.{Channel, Dev}
use gs_usb_user.Status.{Status, is_error}
use gs_usb_user.Usb.{Usb, ctrl_out}
use gs_usb_user.Wire.{Breq, mode_start}
use gs_usb_user.Wire.Feature
use gs_usb_user.Wire.RoundTrip.{with_le32, put_le32-eq, length-with_le32}
use gs_usb_user.Lifecycle.{hw_ts, hw_flags, mode_bytes, activate, launch, start}
use gs_usb_user.Lifecycle.ModeFlag
use gs_usb_user.Lifecycle.Started.{IsQuiescent, switched, switched-IsQuiescent, set-set, active-le}

pub mode_bytes_total : (mode flags : ℕ) → (buf : List ℕ) × (mode_bytes mode flags ≡ some buf)
unfolding mode_bytes
mode_bytes_total mode flags =
    let zeros = replicate {A = ℕ} 8 0 in
    (
      with_le32 (with_le32 zeros 0 mode) 4 flags,
      rw (put_le32-eq zeros 0 mode (omega arith)) (
          put_le32-eq (with_le32 zeros 0 mode) 4 flags
            (omega (arith, length-with_le32 zeros 0 mode))),
    )

-- The device that `start` leaves on each outcome.
pub data Started (dev : Dev) (k : ℕ) (ch : Channel) : Status × Dev → Type 0 where
  -- refused before or by the device
  unchanged : (s : Status) → is_error s ≡ true → Started dev k ch (s, dev)
  -- accepted by the device
  running :
      (d : Dev)
      → IsQuiescent d
      → get_elem? d.channels k ≡ some (record ch { started = true; hw_ts_enabled = hw_ts ch })
      → d.active_channels ≡ dev.active_channels + 1
      → d.reader_running ≡ true
      → Started dev k ch (Status.ok, d)
  -- the reader thread could not be created
  unread :
      (d : Dev)
      → IsQuiescent d
      → get_elem? d.channels k ≡ some (record ch { started = false; hw_ts_enabled = hw_ts ch })
      → d.active_channels ≡ dev.active_channels
      → d.reader_running ≡ false
      → Started dev k ch (Status.io, d)

module _ (dev : Dev) (k : ℕ) (ch : Channel) (q : IsQuiescent dev)
    (at : get_elem? dev.channels k ≡ some ch) (stopped : ch.started ≡ false) where
  abbrev on : Channel
  on = record ch { hw_ts_enabled = hw_ts ch; started = true }

  abbrev off : Channel
  off = record ch { hw_ts_enabled = hw_ts ch; started = false }

  no_wrap : u32 (dev.active_channels + 1) ≡ dev.active_channels + 1
  no_wrap = omega (arith, active-le dev q)

  read_back : (c : Channel) → get_elem? (set dev.channels k c) k ≡ some c
  read_back c = get_elem?-set_self dev.channels k c (lt-of-get_elem? dev.channels k at)

  on-Started :
      (d : Dev)
      → d ≡ switched dev k on (dev.active_channels + 1) true false
      → Started dev k ch (Status.ok, d)
  on-Started d e = rw e (
      running _
        (switched-IsQuiescent dev k ch on q at (record {
          same_index = refl;
          same_queue = refl;
          counts = ground (arith, stopped);
          none_left = λ h. absurd (omega arith);
          some_left = λ h. (refl, refl);
        }))
        (read_back on) refl refl)

  off-Started :
      (d : Dev)
      → d ≡ switched dev k off dev.active_channels false false
      → dev.reader_running ≡ false
      → Started dev k ch (Status.io, d)
  off-Started d e idle = rw e (
      unread _
        (switched-IsQuiescent dev k ch off q at (record {
          same_index = refl;
          same_queue = refl;
          counts = ground (arith, stopped);
          none_left = λ h. refl;
          some_left = λ h. absurd (ground (arith, q.reading h));
        }))
        (read_back off) refl refl)

  module _ {W : Type 0} (usb : Usb W) (w : W) where
    launch-run :
        dev.reader_running ≡ true
        → dev.stop_flag ≡ false
        → launch usb (activate dev k ch) k on w
          ≡ ((Status.ok, switched dev k on (dev.active_channels + 1) true false), w)
    unfolding launch
    launch-run run go = ground (arith, no_wrap)

    launch-made :
        dev.reader_running ≡ false
        → (usb.create_reader w).0 ≡ true
        → launch usb (activate dev k ch) k on w ≡ (
          (Status.ok, switched dev k on (dev.active_channels + 1) true false),
          (usb.create_reader w).1,
        )
    unfolding launch
    launch-made idle made = ground (arith, no_wrap)

    launch-failed :
        dev.reader_running ≡ false
        → (usb.create_reader w).0 ≡ false
        → launch usb (activate dev k ch) k on w ≡ (
          (Status.io, switched dev k off dev.active_channels false false),
          (usb.create_reader w).1,
        )
    unfolding launch
    launch-failed idle failed = ground (arith, no_wrap, set-set dev.channels k on off)

    launch-Started : Started dev k ch (launch usb (activate dev k ch) k on w).0
    launch-Started = elim (Bool-cases dev.reader_running) [
      | inl run ↦
          rw (launch-run run (q.unstopped λ z. ground (arith, q.idle z))) (on-Started _ refl)
      | inr idle ↦ elim (Bool-cases (usb.create_reader w).0) [
        | inl made ↦ rw (launch-made idle made) (on-Started _ refl)
        | inr failed ↦ rw (launch-failed idle failed) (off-Started _ refl idle)
      ]
    ]

-- From a device on which channels are started and stopped by one thread, `start` returns, whatever
-- libusb and pthreads answer, and leaves such a device: with an error the count of active channels is
-- as before, and without one the channel is started, the count is one more and the flag `reader_running`
-- is set, which does not say that a thread that was created before is still there.
pub start-Started :
    {W : Type 0} (usb : Usb W) (dev : Dev) (k : ℕ) (ch : Channel) (mode_flags : ℕ) (w : W)
    → IsQuiescent dev
    → get_elem? dev.channels k ≡ some ch
    → (r : Status × Dev) × (w' : W) × (start usb dev k mode_flags w ≡ some (r, w'))
      × Started dev k ch r
unfolding start
start-Started usb dev k ch mode_flags w q at =
    let (buf, e) = mode_bytes_total mode_start (hw_flags ch mode_flags) in
    let (rc, w') = ctrl_out usb Breq.mode (u16 ch.index) 0 buf w in
    elim (Bool-cases ch.started) [
      | inl s ↦ ((Status.busy, dev), w, ground (arith, e), unchanged Status.busy refl)
      | inr s ↦ elim (Bool-cases (has mode_flags ModeFlag.fd && not (has ch.feature Feature.fd))) [
        | inl u ↦ ((Status.invalid, dev), w, ground (arith, e), unchanged Status.invalid refl)
        | inr u ↦ elim (Bool-cases (is_error rc)) [
          | inl x ↦ ((rc, dev), w', ground (arith, at, e, s, u, x), unchanged rc x)
          | inr x ↦ (
            (launch usb (activate dev k ch) k (on dev k ch q at s) w').0,
            (launch usb (activate dev k ch) k (on dev k ch q at s) w').1,
            ground (arith, at, e, s, u, x),
            launch-Started dev k ch q at s usb w',
          )
        ]
      ]
    ]
