-- ===== src/Tools/Session/Calls.antt =====
-- The calls of the driver behind a session of a tool: those that start the channel, when it is ready,
-- and those that end the session.
use gs_usb_user.Base.{
  ℕ, ◌≡◌, ◌∙◌, Bool, true, false, some, arith, has, not, ◌&&◌, ◌>>=◌, >>=-eq-some, Bool-cases,
  Option-cases, inl, inr, if◌then◌else◌,
}
use gs_usb_user.Base.Int.{pos}
use gs_usb_user.Device.{Channel, Dev, channel_get}
use gs_usb_user.Status.{Status, is_error}
use gs_usb_user.Usb.{Usb}
use gs_usb_user.Wire.Feature
use gs_usb_user.Timing.{Double}
use gs_usb_user.Control.{set_bitrate, set_data_bitrate}
use gs_usb_user.Lifecycle.{start, stop}
use gs_usb_user.Close.{gsusb_close}
use gs_usb_user.Open.Device.{Libusb}
use gs_usb_user.Tools.Common.{gsusb_exit}
use gs_usb_user.Tools.Session.{
  ready, give_up, set_fd_bitrate, start_channel, set_up, bring_up, shut_down,
}

module _ {W F : Type 0} (usb : Usb W) (d : Double F) (fuel : ℕ) where
  -- The channel of `found` was given its bitrate, with CAN-FD its data bitrate, and then started, each
  -- call at the world that the one before it left and none with an error.
  pub record Started (found : Dev) (channel : ℕ) (fd_mode : Bool) (bitrate data_bitrate mode : ℕ)
      (w : W) (dev : Dev) (w' : W) : Type 0 where
    pub old : Channel
    pub picked : channel_get found channel ≡ some old
    pub rate_status : Status
    pub after_rate : W
    pub rated :
        set_bitrate usb d fuel old bitrate (d.of_int (pos 0)) w ≡ some (rate_status, after_rate)
    pub rate_good : is_error rate_status ≡ false
    pub after_data : W
    pub classic : fd_mode ≡ false → after_data ≡ after_rate
    pub flexible :
        fd_mode ≡ true
        → (has old.feature Feature.fd ≡ true)
          × ((rc : Status) × (is_error rc ≡ false)
              × (set_data_bitrate usb d fuel old data_bitrate (d.of_int (pos 0)) after_rate
                  ≡ some (rc, after_data)))
    pub start_status : Status
    pub launched : start usb found channel mode after_data ≡ some ((start_status, dev), w')
    pub start_good : is_error start_status ≡ false

  start_channel-inv :
      (found : Dev) (channel mode : ℕ) (w : W) (dev : Dev) (w' : W)
      → start_channel usb d fuel found channel mode w ≡ some (ready dev w')
      → (rc : Status) × (start usb found channel mode w ≡ some ((rc, dev), w'))
        × (is_error rc ≡ false)
  unfolding start_channel
  start_channel-inv found channel mode w dev w' h =
      let (((rc, dev1), w1), e, h1) = >>=-eq-some (start usb found channel mode w) _ h in
      elim (Bool-cases (is_error rc)) [
        | inl bad ↦ absurd (ground (arith, bad, h1))
        | inr good ↦
            let same : dev1 ≡ dev = ground (arith, good, h1) in
            let end : w1 ≡ w' = ground (arith, good, h1) in
            (rc, e ∙ (λ i. some ((rc, same i), end i)), good)
      ]

  set_fd_bitrate-inv :
      (fd_mode : Bool) (old : Channel) (data_bitrate : ℕ) (w : W) (rc : Status) (w' : W)
      → set_fd_bitrate usb d fuel fd_mode old data_bitrate w ≡ some (rc, w')
      → (fd_mode ≡ true
          → set_data_bitrate usb d fuel old data_bitrate (d.of_int (pos 0)) w ≡ some (rc, w'))
        × (fd_mode ≡ false → w' ≡ w)
  unfolding set_fd_bitrate
  set_fd_bitrate-inv true old data_bitrate w rc w' h = (λ t. h, λ f. cc)
  set_fd_bitrate-inv false old data_bitrate w rc w' h = (λ t. cc, λ f. cc)

  pub bring_up-Started :
      (found : Dev) (channel : ℕ) (fd_mode : Bool) (bitrate data_bitrate mode : ℕ) (w : W)
      (dev : Dev) (w' : W)
      → bring_up usb d fuel found channel fd_mode bitrate data_bitrate mode w ≡ some (ready dev w')
      → Started found channel fd_mode bitrate data_bitrate mode w dev w'
  unfolding bring_up set_up
  bring_up-Started found channel fd_mode bitrate data_bitrate mode w dev w' h =
      elim (Option-cases (channel_get found channel)) [
        | inl e ↦ absurd (ground (arith, e, h))
        | inr (old, e) ↦ elim (Bool-cases (fd_mode && not (has old.feature Feature.fd))) [
          | inl bad ↦ absurd (ground (arith, e, bad, h))
          | inr fits ↦
              let h0 : set_up usb d fuel found channel old fd_mode bitrate data_bitrate mode w
                  ≡ some (ready dev w') =
                ground (arith, e, fits, h) in
              let ((rc, w1), rated, h1) =
                >>=-eq-some (set_bitrate usb d fuel old bitrate (d.of_int (pos 0)) w) _ h0 in
              elim (Bool-cases (is_error rc)) [
                | inl bad ↦ absurd (ground (arith, bad, h1))
                | inr good ↦
                    let h2 : (set_fd_bitrate usb d fuel fd_mode old data_bitrate w1 >>= (λ r.
                      if is_error r.0
                      then some (give_up r.1)
                      else start_channel usb d fuel found channel mode r.1))
                        ≡ some (ready dev w') =
                      ground (arith, good, h1) in
                    let ((rc2, w2), fast, h3) =
                      >>=-eq-some (set_fd_bitrate usb d fuel fd_mode old data_bitrate w1) _ h2 in
                    let (on_fd, on_classic) =
                      set_fd_bitrate-inv fd_mode old data_bitrate w1 rc2 w2 fast in
                    elim (Bool-cases (is_error rc2)) [
                      | inl bad ↦ absurd (ground (arith, bad, h3))
                      | inr good2 ↦
                          let h4 : start_channel usb d fuel found channel mode w2
                              ≡ some (ready dev w') =
                            ground (arith, good2, h3) in
                          let (rc3, launched, good3) =
                            start_channel-inv found channel mode w2 dev w' h4 in
                          record {
                            old = old;
                            picked = e;
                            rate_status = rc;
                            after_rate = w1;
                            rated = rated;
                            rate_good = good;
                            after_data = w2;
                            classic = on_classic;
                            flexible = λ on. (ground (arith, on, fits), (rc2, good2, on_fd on));
                            start_status = rc3;
                            launched = launched;
                            start_good = good3;
                          }
                    ]
              ]
        ]
      ]

module _ {W : Type 0} (usb : Usb W) (lib : Libusb W) where
  -- The channel was stopped, the device closed and libusb left, in this order.
  pub record Ended (dev : Dev) (channel : ℕ) (w w' : W) : Type 0 where
    pub idle : Dev
    pub after_stop : W
    pub after_close : W
    pub halted : stop usb dev channel w ≡ some (idle, after_stop)
    pub closed : gsusb_close usb lib idle after_stop ≡ some after_close
    pub left : gsusb_exit lib after_close ≡ w'

  pub shut_down-Ended :
      (dev : Dev) (channel : ℕ) (w w' : W)
      → shut_down usb lib dev channel w ≡ some w'
      → Ended dev channel w w'
  unfolding shut_down
  shut_down-Ended dev channel w w' h =
      let ((idle, w1), halted, h1) = >>=-eq-some (stop usb dev channel w) _ h in
      let (w2, closed, h2) = >>=-eq-some (gsusb_close usb lib idle w1) _ h1 in
      record {
        idle = idle;
        after_stop = w1;
        after_close = w2;
        halted = halted;
        closed = closed;
        left = ground (arith, h2);
      }
