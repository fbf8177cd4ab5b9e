-- ===== src/Tx.antt =====
-- driver/src/gsusb.c: `gsusb_channel_send`. The buffer has exactly the `bufsz` bytes that are sent;
-- a write outside it, or a read outside `frame->data`, is a fault: `none`.
pub mod Encode
pub mod Loopback
pub mod Send
use gs_usb_user.Base.{
  ℕ, ◌+◌, Bool, true, false, Option, none, some, List, ltb, ◌==◌, not, ◌&&◌, u8, has, or_if,
  replicate, store, memcpy, ◌>>=◌, if◌then◌else◌,
}
use gs_usb_user.Dlc.{len2dlc_cc, len2dlc_fd}
use gs_usb_user.Frame.{Frame, frame_fd, frame_brs, frame_esi}
use gs_usb_user.Device.{Channel, Dev}
use gs_usb_user.Status.{Status, LibusbCode, LibusbError, success, error, map_libusb_err}
use gs_usb_user.Usb.{Usb}
use gs_usb_user.Wire.{host_frame_hdr_size, classic_dlen, fd_dlen, put_le32}
use gs_usb_user.Wire.WireFlag
use gs_usb_user.Wire.Feature

abbrev pub ctrl_timeout_ms : ℕ
ctrl_timeout_ms = 1000

abbrev pub is_fd : Frame → Bool
is_fd f = has f.flags frame_fd

abbrev pub max_dlen_of : Frame → ℕ
max_dlen_of f = if is_fd f then fd_dlen else classic_dlen

-- `len`, cut to `max_dlen`
abbrev pub sent_len : Frame → ℕ
sent_len f = if ltb (max_dlen_of f) f.len then max_dlen_of f else f.len

abbrev pub sent_dlc : Frame → ℕ
sent_dlc f = if is_fd f then len2dlc_fd (sent_len f) else len2dlc_cc (sent_len f)

abbrev pub wire_flags : Frame → ℕ
wire_flags f =
    or_if (has f.flags frame_esi) WireFlag.esi
      (or_if (has f.flags frame_brs) WireFlag.brs (or_if (is_fd f) WireFlag.fd 0))

-- `memset` to zero has been done: the twelve bytes of the header
unfoldable pub write_header : Channel → Frame → List ℕ → Option (List ℕ)
write_header ch frame buf = do
  buf ← put_le32 buf 0 0
  buf ← put_le32 buf 4 frame.can_id
  buf ← store buf 8 (sent_dlc frame)
  buf ← store buf 9 (u8 ch.index)
  buf ← store buf 10 (wire_flags frame)
  store buf 11 0

-- `if (len) memcpy(buf + GS_HOST_FRAME_HDR_SIZE, frame->data, len);`
unfoldable pub write_data : ℕ → List ℕ → List ℕ → Option (List ℕ)
write_data len payload buf =
    if len == 0 then some buf else memcpy buf host_frame_hdr_size payload 0 len

-- the buffer that goes out on the bulk OUT endpoint
unfoldable pub encode : Channel → Frame → Option (List ℕ)
encode ch frame = do
  buf ← write_header ch frame (replicate (host_frame_hdr_size + max_dlen_of frame) 0)
  write_data (sent_len frame) frame.payload buf

-- what the return of `libusb_bulk_transfer` becomes
unfoldable pub bulk_status : LibusbCode → ℕ → ℕ → Status
bulk_status success transferred bufsz = if transferred == bufsz then Status.ok else Status.io
bulk_status (error LibusbError.timeout) transferred bufsz = Status.timeout
bulk_status (error e) transferred bufsz = map_libusb_err (error e)

-- `none` is the fault of `encode`; else the status and the world after the call.
unfoldable pub send : {W : Type 0} → Usb W → Dev → Channel → Frame → ℕ → W → Option (Status × W)
send usb dev ch frame timeout_ms w =
    if not ch.started
    then some (Status.invalid, w)
    else if is_fd frame && not (has ch.feature Feature.fd)
    then some (Status.invalid, w)
    else elim (encode ch frame) [
      | none ↦ none
      | some buf ↦
          let (rc, transferred, w') =
            usb.bulk_out dev.ep_out buf (if timeout_ms == 0 then ctrl_timeout_ms else timeout_ms)
              w in
          some (bulk_status rc transferred (host_frame_hdr_size + max_dlen_of frame), w')
    ]
