-- ===== src/Lifecycle/Stop.antt =====
-- `gsusb_channel_stop` on every branch, from a device whose channels are used from one thread, and
-- sequences of starts and stops.
use gs_usb_user.Base.{
  ℕ, ◌+◌, ◌-◌, ◌<◌, ◌≡◌, ◌≢◌, refl, Bool, true, false, some, arith, u16, get_elem?,
  get_elem?-set_self, lt-of-get_elem?, Bool-cases, ℕ_discrete, inl, inr,
}
use gs_usb_user.Device.{Channel, Dev}
use gs_usb_user.Usb.{Usb, ctrl_out}
use gs_usb_user.Wire.{Breq, mode_reset}
use gs_usb_user.Lifecycle.{stop}
use gs_usb_user.Lifecycle.Started.{IsQuiescent, switched, switched-IsQuiescent, count_positive}
use gs_usb_user.Lifecycle.Start.{mode_bytes_total}

-- The device that `stop` leaves.
pub data Stopped (dev : Dev) (k : ℕ) (ch : Channel) (d : Dev) : Type 0 where
  already : ch.started ≡ false → d ≡ dev → Stopped dev k ch d
  stopped :
      IsQuiescent d
      → ch.started ≡ true
      → get_elem? d.channels k ≡ some (record ch { started = false })
      → d.active_channels + 1 ≡ dev.active_channels
      → Stopped dev k ch d

module _ {W : Type 0} (usb : Usb W) (dev : Dev) (k : ℕ) (ch : Channel) (w : W) (q : IsQuiescent dev)
    (at : get_elem? dev.channels k ≡ some ch) where
  abbrev off : Channel
  off = record ch { started = false }

  -- the device after the last channel, or another, is stopped
  off-Stopped :
      (reader stop : Bool) (d : Dev)
      → ch.started ≡ true
      → (dev.active_channels - 1 ≡ 0 → reader ≡ false)
      → (dev.active_channels - 1 ≢ 0 → (reader ≡ true) × (stop ≡ false))
      → d ≡ switched dev k off (dev.active_channels - 1) reader stop
      → Stopped dev k ch d
  off-Stopped reader stop d s z nz e =
      let some_active : 0 < dev.active_channels =
        ground (arith, q.active, count_positive dev.channels k ch at s) in
      rw e (
        stopped
          (switched-IsQuiescent dev k ch off q at (record {
            same_index = refl;
            same_queue = refl;
            counts = ground (arith, s);
            none_left = z;
            some_left = nz;
          }))
          s (get_elem?-set_self dev.channels k off (lt-of-get_elem? dev.channels k at))
          (omega arith))

  -- From a device on which channels are started and stopped by one thread, `stop` returns, whatever
  -- libusb and pthreads answer: it changes nothing on a channel that is not started, and else leaves
  -- such a device, with this channel stopped and one active channel less.
  pub stop-Stopped : (d : Dev) × (w' : W) × (stop usb dev k w ≡ some (d, w')) × Stopped dev k ch d
  unfolding stop
  stop-Stopped =
      let (buf, e) = mode_bytes_total mode_reset 0 in
      let (rc, w') = ctrl_out usb Breq.mode (u16 ch.index) 0 buf w in
      elim (Bool-cases ch.started) [
        | inr s ↦ (dev, w, ground (arith, at, e, s), already s refl)
        | inl s ↦
            let some_active : 0 < dev.active_channels =
              ground (arith, q.active, count_positive dev.channels k ch at s) in
            elim (ℕ_discrete dev.active_channels 1) [
              | yes last ↦ (
                switched dev k off (dev.active_channels - 1) false true,
                usb.join_reader w',
                ground (arith, at, e, s, last),
                off-Stopped false true _ s (λ z. refl) (λ nz. absurd (omega arith)) refl,
              )
              | no more ↦ (
                switched dev k off (dev.active_channels - 1) dev.reader_running dev.stop_flag,
                w',
                ground (arith, at, e, s),
                off-Stopped dev.reader_running dev.stop_flag _ s (λ z. absurd (omega arith))
                    (λ nz. (q.reading (omega arith), q.unstopped (omega arith))) refl,
              )
            ]
      ]
