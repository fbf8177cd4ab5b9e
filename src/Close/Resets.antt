-- ===== src/Close/Resets.antt =====
-- What `gsusb_close` sends.
use gs_usb_user.Base.{
  ℕ, ◌≡◌, ◌≢◌, refl, ap, ◌∙◌, some, List, [], ◌∷◌, arith, u16, replicate, Bool-cases, ℕ_discrete,
  ◌⊎◌, inl, inr, if◌then◌else◌,
}
use gs_usb_user.Device.{Channel, Dev}
use gs_usb_user.Usb.{Usb, ctrl_out}
use gs_usb_user.Open.Device.{Libusb}
use gs_usb_user.Wire.{Breq, mode_reset, put_le32}
use gs_usb_user.Lifecycle.{mode_bytes}
use gs_usb_user.Lifecycle.Started.{IsQuiescent, count_started}
use gs_usb_user.Close.{reset_channel, reset_channels, wait_for_reader, signal_stop, gsusb_close}

-- the indices of the started channels, in order
pub started_indices : List Channel → List ℕ
started_indices [] = []
started_indices (ch ∷ chs) =
    if ch.started then ch.index ∷ started_indices chs else started_indices chs

-- one request per index: mode and flags, both zero
pub send_resets : {W : Type 0} → Usb W → List ℕ → W → W
send_resets usb [] w = w
send_resets usb (i ∷ is) w =
    send_resets usb is (ctrl_out usb Breq.mode (u16 i) 0 (replicate 8 0) w).1

mode_bytes-reset : mode_bytes mode_reset 0 ≡ some (replicate 8 0)
unfolding mode_bytes put_le32
mode_bytes-reset = refl

reset_channels-send_resets :
    {W : Type 0} (usb : Usb W) (chs : List Channel) (w : W)
    → reset_channels usb chs w ≡ some (send_resets usb (started_indices chs) w)
unfolding reset_channels reset_channel started_indices send_resets
reset_channels-send_resets usb [] w = refl
reset_channels-send_resets usb (ch ∷ chs) w =
    let sent = (ctrl_out usb Breq.mode (u16 ch.index) 0 (replicate 8 0) w).1 in
    ground (
      arith,
      mode_bytes-reset,
      reset_channels-send_resets usb chs w,
      reset_channels-send_resets usb chs sent,
    )

none_started : (chs : List Channel) → count_started chs ≡ 0 → started_indices chs ≡ []
unfolding count_started started_indices
none_started [] e = refl
none_started (ch ∷ chs) e = elim (Bool-cases ch.started) [
  | inl s ↦ absurd (ground (arith, e))
  | inr s ↦ ground (arith, none_started chs)
]

-- the interface released, and then the handle closed
abbrev pub handed_back : {W : Type 0} → Libusb W → W → W
handed_back lib w = lib.close_handle (lib.release_interface w)

-- `gsusb_close` returns for every device that satisfies the invariant of starts and stops. If no
-- channel is started it only releases the interface and closes the handle; else it tells the reader to
-- stop, waits for it and resets each started channel, in order, and no other, before it does so.
pub close_cases :
    {W : Type 0} (usb : Usb W) (lib : Libusb W) (dev : Dev) (w : W)
    → IsQuiescent dev
    → ((dev.active_channels ≡ 0) × (gsusb_close usb lib dev w ≡ some (handed_back lib w)))
      ⊎ ((dev.active_channels ≢ 0)
          × (gsusb_close usb lib dev w
              ≡ some (
                  handed_back lib
                    (send_resets usb (started_indices dev.channels) (usb.join_reader w)))))
unfolding gsusb_close wait_for_reader signal_stop send_resets
close_cases usb lib dev w q = elim (ℕ_discrete dev.active_channels 0) [
  | yes z ↦
      let nothing_sent : reset_channels usb dev.channels w ≡ some w =
        reset_channels-send_resets usb dev.channels w
        ∙ ap (λ is. some (send_resets usb is w))
            (none_started dev.channels (omega (arith, q.active))) in
      inl (z, rw (q.idle z, nothing_sent) refl)
  | no nz ↦
      inr (
        nz,
        rw (q.reading nz, reset_channels-send_resets usb dev.channels (usb.join_reader w)) refl,
      )
]
