-- ===== src/Tx/Loopback/Stamped.antt =====
-- What is sent can be received on a channel with hardware timestamps: behind the data, and the zeros
-- up to the size of the packet, the device puts the time.
use gs_usb_user.Base.{
  length-drop, length-replicate, take-append_le, Bool, if◌then◌else◌, ℕ, ◌+◌, ◌<◌, ◌≡◌, refl, ap,
  ◌∙◌, true, some, List, ◌++◌, arith, u8, length, lt-of-get_elem?, length-append, length-take, take,
  drop, replicate, get_elem?, ◌^◌,
}
use gs_usb_user.Frame.{Frame}
use gs_usb_user.Device.{Channel, Dev}
use gs_usb_user.Device.Invariant.{IsValid}
use gs_usb_user.Wire.{get_le32}
use gs_usb_user.Wire.RoundTrip.{le32_bytes, get_le32-append}
use gs_usb_user.Wire.HostFrame.{HostFrame, host_frame_bytes}
use gs_usb_user.Rx.{max_dlen_of, decode_body, deliver, handle_rx_packet}
use gs_usb_user.Rx.Safety.{padded, received, build_frame-eq}
use gs_usb_user.Rx.Effect.{delivered}
use gs_usb_user.Tx.{max_dlen_of as sent_max, sent_len, encode}
use gs_usb_user.Tx.Encode.{host_frame_of, sent_len-le, encode-host_frame_bytes}
use gs_usb_user.Tx.Loopback.{
  IsSendable, hf, header_of, read_header-host_frame, frame_flags_back, same_fd, data_len-eq,
  handle_step, deliver_step, reported, padded-eq,
}

module _ (ch : Channel) (f : Frame) (s : IsSendable f) (ts : ℕ) where
  -- the report of a frame, with the time behind it
  abbrev stamped : HostFrame
  stamped = record (hf ch f s) { payload = (hf ch f s).payload ++ le32_bytes ts }

  length-packet : length (host_frame_bytes (hf ch f s)) ≡ 12 + sent_max f
  length-packet = omega (
    arith,
    sent_len-le f,
    length-append {0} (take (sent_len f) f.payload)
        (drop (sent_len f) (replicate {A = ℕ} (sent_max f) 0)),
    length-take {0} (sent_len f) f.payload,
    length-drop {0} (sent_len f) (replicate {A = ℕ} (sent_max f) 0),
    length-replicate {A = ℕ} (sent_max f) 0,
    s.good.array,
  )

  same_max : max_dlen_of (header_of stamped) ≡ sent_max f
  same_max = ap (λ (b : Bool). if b then 64 else 8) (same_fd ch f s)

  length-stamped : length (host_frame_bytes stamped) ≡ 12 + sent_max f + 4
  length-stamped =
      omega (arith, length-packet, length-append {0} (host_frame_bytes (hf ch f s)) (le32_bytes ts))

  stamp_read :
      ts < 2 ^ 32
      → get_le32 (host_frame_bytes stamped) (12 + max_dlen_of (header_of stamped)) ≡ some ts
  stamp_read h =
      ap (get_le32 (host_frame_bytes stamped)) (omega (arith, same_max, length-packet))
      ∙ get_le32-append (host_frame_bytes (hf ch f s)) ts h

  padded-stamped : padded (host_frame_bytes stamped) f.len ≡ f.payload
  padded-stamped =
      ap (λ l. l ++ drop f.len (replicate {A = ℕ} 64 0))
        (take-append_le (hf ch f s).payload (le32_bytes ts) f.len
          (omega (arith, length-packet, s.good.at_most)))
      ∙ padded-eq ch f s

  received-stamped :
      received (host_frame_bytes stamped) (header_of stamped) ts ≡ record f { timestamp_us = ts }
  received-stamped =
      let flags = frame_flags_back f s.flags_in (header_of stamped) refl in
      let bytes = ap (padded (host_frame_bytes stamped)) (data_len-eq ch f s) ∙ padded-stamped in
      λ i. record {
        can_id = f.can_id;
        len = data_len-eq ch f s i;
        flags = flags i;
        payload = bytes i;
        timestamp_us = ts;
      }

  decode-stamped :
      ts < 2 ^ 32
      → decode_body true (host_frame_bytes stamped) (header_of stamped)
        ≡ deliver (record f { timestamp_us = ts })
  unfolding decode_body
  decode-stamped h = ground (
    arith,
    length-stamped,
    same_max,
    stamp_read h,
    build_frame-eq (host_frame_bytes stamped) (header_of stamped) ts
        (omega (arith, length-stamped, data_len-eq ch f s, s.good.at_most)),
    ap deliver received-stamped,
  )

-- Round trip with hardware timestamps. On a channel of a well-formed device where they are enabled,
-- the bytes into which `gsusb_channel_send` encodes a frame that the wire can carry, reported by the
-- device as a received frame with a 32-bit time behind them, come out of `handle_rx_packet` as the
-- same frame with that time, pushed onto the queue of the same channel.
pub handle_rx_packet-encode_stamped :
    (dev : Dev) (k : ℕ) (ch : Channel) (f : Frame) (ts : ℕ)
    → IsValid dev
    → get_elem? dev.channels k ≡ some ch
    → ch.hw_ts_enabled ≡ true
    → IsSendable f
    → ts < 2 ^ 32
    → (bytes : List ℕ) × (encode ch f ≡ some bytes)
      × (handle_rx_packet dev (reported bytes ++ le32_bytes ts)
          ≡ some (delivered dev k ch (record f { timestamp_us = ts })))
handle_rx_packet-encode_stamped dev k ch f ts v at has_ts s small =
    let own : ch.index ≡ k = v.indexed k ch at in
    let inside : k < length dev.channels = lt-of-get_elem? dev.channels k at in
    let named : u8 ch.index ≡ k = omega (arith, v.counted, v.bounded) in
    let report = stamped ch f s ts in
    let header = header_of report in
    let packet = host_frame_bytes report in
    let body = ap (λ b. decode_body b packet header) has_ts ∙ decode-stamped ch f s ts small in
    let got : Frame = record f { timestamp_us = ts } in
    (
      host_frame_bytes (host_frame_of ch f),
      encode-host_frame_bytes ch f s.good.array,
      handle_step dev packet header (omega (arith, length-stamped ch f s ts))
            (read_header-host_frame report (omega arith) s.id_in)
          ∙ deliver_step dev packet header ch got (omega (arith, named, v.counted))
              (ap (get_elem? dev.channels) named ∙ at) refl body
          ∙ ap (λ (j : ℕ). some (delivered dev j ch got)) named,
    )
