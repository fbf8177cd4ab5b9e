-- ===== src/Tx/Send.antt =====
-- `gsusb_channel_send` on every branch.
use gs_usb_user.Base.{
  ◌↔◌, ap, ◌∙◌, ℕ, ◌+◌, ◌≡◌, refl, true, Option, some, arith, not, ◌&&◌, ◌==◌, has, length,
  Bool-cases, ◌⊎◌, inl, inr, if◌then◌else◌,
}
use gs_usb_user.Frame.{Frame}
use gs_usb_user.Device.{Channel, Dev}
use gs_usb_user.Status.{Status, LibusbCode, LibusbError, success, error}
use gs_usb_user.Status.Laws.{map_libusb_err-ne-ok}
use gs_usb_user.Usb.{Usb}
use gs_usb_user.Wire.Feature
use gs_usb_user.Wire.HostFrame.{host_frame_bytes}
use gs_usb_user.Tx.{ctrl_timeout_ms, is_fd, max_dlen_of, bulk_status, send}
use gs_usb_user.Tx.Encode.{host_frame_of, encode-host_frame_bytes}

-- Success is reported exactly when libusb reports it for the whole buffer.
bulk_status-ok :
    (rc : LibusbCode) (n size : ℕ)
    → (bulk_status rc n size ≡ Status.ok)
    → (rc ≡ success) × (n ≡ size)
unfolding bulk_status
bulk_status-ok success n size e = (refl, ground arith)
bulk_status-ok (error LibusbError.timeout) n size e = ground arith
bulk_status-ok (error LibusbError.access) n size e = absurd (map_libusb_err-ne-ok _ e)
bulk_status-ok (error LibusbError.no_device) n size e = absurd (map_libusb_err-ne-ok _ e)
bulk_status-ok (error LibusbError.not_found) n size e = absurd (map_libusb_err-ne-ok _ e)
bulk_status-ok (error LibusbError.busy) n size e = absurd (map_libusb_err-ne-ok _ e)
bulk_status-ok (error LibusbError.no_mem) n size e = absurd (map_libusb_err-ne-ok _ e)
bulk_status-ok (error LibusbError.invalid_param) n size e = absurd (map_libusb_err-ne-ok _ e)
bulk_status-ok (error LibusbError.io) n size e = absurd (map_libusb_err-ne-ok _ e)
bulk_status-ok (error (LibusbError.other x)) n size e = absurd (map_libusb_err-ne-ok _ e)

bulk_status-ok_iff :
    (rc : LibusbCode) (n size : ℕ)
    → (bulk_status rc n size ≡ Status.ok) ↔ ((rc ≡ success) × (n ≡ size))
unfolding bulk_status
bulk_status-ok_iff rc n size =
    (bulk_status-ok rc n size, λ h. ap (λ c. bulk_status c n size) h.0 ∙ ground arith)

-- The channel may send the frame.
abbrev pub IsAllowed : Channel → Frame → Type 0
IsAllowed ch f = (ch.started ≡ true) × (is_fd f ≡ true → has ch.feature Feature.fd ≡ true)

module _ {W : Type 0} (usb : Usb W) (dev : Dev) (ch : Channel) (f : Frame) (timeout_ms : ℕ)
    (w : W) where
  -- the one transfer that `send` makes
  abbrev pub sent_transfer : LibusbCode × ℕ × W
  sent_transfer =
      usb.bulk_out dev.ep_out (host_frame_bytes (host_frame_of ch f))
        (if timeout_ms == 0 then ctrl_timeout_ms else timeout_ms) w

  abbrev pub SendOutcome : Option (Status × W) → Type 0
  SendOutcome r =
      (¬ IsAllowed ch f × (r ≡ some (Status.invalid, w)))
      ⊎ (IsAllowed ch f
          × (s : Status) × (r ≡ some (s, sent_transfer.2))
          × ((s ≡ Status.ok)
              ↔ ((sent_transfer.0 ≡ success) × (sent_transfer.1 ≡ 12 + max_dlen_of f))))

  -- For a frame with its full array of 64 bytes, `send` makes no transfer and reports an invalid
  -- argument exactly when the channel is not started or the frame is FD and the channel has no FD;
  -- else it makes one bulk transfer, of the wire layout of the frame, and reports success exactly if
  -- libusb does and all bytes of the buffer went out.
  pub send_cases : length f.payload ≡ 64 → SendOutcome (send usb dev ch f timeout_ms w)
  unfolding send
  send_cases l =
      let e = encode-host_frame_bytes ch f l in
      elim (Bool-cases ch.started) [
        | inr s ↦ inl (λ a. ground (arith, a.0), ground (arith, s))
        | inl s ↦ elim (Bool-cases (is_fd f && not (has ch.feature Feature.fd))) [
          | inl u ↦ inl (λ a. ground (arith, a.1), ground (arith, s, u))
          | inr u ↦ inr (
            (s, λ h. ground (arith, u)),
            bulk_status sent_transfer.0 sent_transfer.1 (12 + max_dlen_of f),
            ground (arith, s, u, e),
            bulk_status-ok_iff sent_transfer.0 sent_transfer.1 (12 + max_dlen_of f),
          )
        ]
      ]
