-- ===== src/Lifecycle/Race.antt =====
-- Two threads: a `start` that runs while a `stop` of the last channel waits for the reader.
use gs_usb_user.Base.{
  ℕ, ◌≡◌, true, false, some, arith, not, ◌&&◌, has, u16, get_elem?, Bool-cases, Option-cases, inl,
  inr,
}
use gs_usb_user.Device.{Channel, Dev}
use gs_usb_user.Status.{Status, is_error}
use gs_usb_user.Usb.{Usb, ctrl_out}
use gs_usb_user.Wire.{Breq, mode_start}
use gs_usb_user.Wire.Feature
use gs_usb_user.Lifecycle.{hw_flags, release, joined, start, launch}
use gs_usb_user.Lifecycle.ModeFlag
use gs_usb_user.Lifecycle.Started.{IsQuiescent}
use gs_usb_user.Lifecycle.Start.{mode_bytes_total}

-- From a device at one active channel, between the two locked sections of the `stop` of that
-- channel, another thread's `start` that succeeds leaves the request to stop in place, and after the
-- second section of `stop` one channel is active and `reader_running` is false.
pub release-start-joined :
    {W : Type 0} (usb : Usb W) (dev : Dev) (k : ℕ) (ch : Channel) (j mode_flags : ℕ) (w w' : W)
    (d : Dev)
    → IsQuiescent dev
    → get_elem? dev.channels k ≡ some ch
    → dev.active_channels ≡ 1
    → start usb (release dev k ch) j mode_flags w ≡ some ((Status.ok, d), w')
    → (d.stop_flag ≡ true) × ((joined d).active_channels ≡ 1) × ((joined d).reader_running ≡ false)
unfolding start launch
release-start-joined usb dev k ch j mode_flags w w' d q at one e =
    let run : dev.reader_running ≡ true = q.reading (omega arith) in
    elim (Option-cases (get_elem? (release dev k ch).channels j)) [
      | inl missing ↦ absurd (ground (arith, missing, e))
      | inr (c, here) ↦
          let (buf, b) = mode_bytes_total mode_start (hw_flags c mode_flags) in
          let (rc, w1) = ctrl_out usb Breq.mode (u16 c.index) 0 buf w in
          elim (Bool-cases c.started) [
            | inl s ↦ absurd (ground (arith, e, here, b, s))
            | inr s ↦
                elim (Bool-cases (has mode_flags ModeFlag.fd && not (has c.feature Feature.fd))) [
                  | inl u ↦ absurd (ground (arith, e, here, b, s, u))
                  | inr u ↦ elim (Bool-cases (is_error rc)) [
                    | inl x ↦ absurd (ground (arith, e, here, b, s, u, x))
                    | inr x ↦ ground (arith, e, here, b, s, u, x, run, one)
                  ]
                ]
          ]
    ]
