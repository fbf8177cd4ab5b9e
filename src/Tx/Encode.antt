-- ===== src/Tx/Encode.antt =====
-- The buffer that `gsusb_channel_send` builds is the wire layout of the frame.
use gs_usb_user.Base.{
  ℕ, ◌+◌, ◌≤◌, ◌≡◌, refl, sym, ap, ◌∙◌, some, Option, suc, ◌>>=◌, length-replicate, List, ◌∷◌, ◌++◌,
  arith, u8, length, take, drop, replicate, drop-drop, drop-append_left, take-append_left,
  length-append, ℕ_discrete,
}
use gs_usb_user.Frame.{Frame}
use gs_usb_user.Device.{Channel}
use gs_usb_user.Wire.{put_le32}
use gs_usb_user.Wire.HostFrame.{HostFrame, header_bytes, host_frame_bytes}
use gs_usb_user.Tx.{max_dlen_of, sent_len, sent_dlc, wire_flags, write_header, write_data, encode}

-- The host frame that stands for a frame sent on a channel: echo id 0, and the data filled up with
-- zeros to 8 bytes, or to 64 for FD.
abbrev pub host_frame_of : Channel → Frame → HostFrame
host_frame_of ch f = record {
  echo_id = 0;
  can_id = f.can_id;
  can_dlc = sent_dlc f;
  channel = u8 ch.index;
  flags = wire_flags f;
  reserved = 0;
  payload = take (sent_len f) f.payload ++ drop (sent_len f) (replicate (max_dlen_of f) 0);
}

pub sent_len-le : (f : Frame) → (sent_len f ≤ max_dlen_of f) × (max_dlen_of f ≤ 64)
sent_len-le f = ground arith

write_header-eq :
    (ch : Channel) (f : Frame) (zs : List ℕ)
    → write_header ch f (0 ∷ 0 ∷ 0 ∷ 0 ∷ 0 ∷ 0 ∷ 0 ∷ 0 ∷ 0 ∷ 0 ∷ 0 ∷ 0 ∷ zs)
      ≡ some (host_frame_bytes (record (host_frame_of ch f) { payload = zs }))
unfolding write_header put_le32
write_header-eq ch f zs = ground arith

write_data-eq :
    (n : ℕ) (p hs zs : List ℕ)
    → 12 ≡ length hs
    → n ≤ length zs
    → n ≤ length p
    → write_data n p (hs ++ zs) ≡ some (hs ++ (take n p ++ drop n zs))
unfolding write_data
write_data-eq n p hs zs h l k = elim (ℕ_discrete n 0) [
  | yes z ↦ rw z refl
  | no ne ↦
      let rest : drop (12 + n) (hs ++ zs) ≡ drop n zs =
        sym (drop-drop n 12 (hs ++ zs)) ∙ ap (drop n) (drop-append_left hs zs 12 h) in
      ground (arith, length-append {0} hs zs, take-append_left hs zs 12 h, rest)
]

zero_buffer :
    (m : ℕ)
    → replicate {A = ℕ} (12 + m) 0 ≡ 0 ∷ 0 ∷ 0 ∷ 0 ∷ 0 ∷ 0 ∷ 0 ∷ 0 ∷ 0 ∷ 0 ∷ 0 ∷ 0 ∷ replicate m 0
zero_buffer m =
    let e : 12 + m ≡ suc (suc (suc (suc (suc (suc (suc (suc (suc (suc (suc (suc m))))))))))) =
      omega arith in
    ap (λ (t : ℕ). replicate {A = ℕ} t 0) e

-- For every frame with its full array of 64 bytes, building the buffer writes and reads nothing out of
-- bounds, and the bytes are exactly the wire layout of the frame.
pub encode-host_frame_bytes :
    (ch : Channel) (f : Frame)
    → length f.payload ≡ 64
    → encode ch f ≡ some (host_frame_bytes (host_frame_of ch f))
unfolding encode
encode-host_frame_bytes ch f l =
    let m = max_dlen_of f in
    let data_written : List ℕ → Option (List ℕ) = write_data (sent_len f) f.payload in
    let le = sent_len-le f in
    ap (λ buf. write_header ch f buf >>= data_written) (zero_buffer m)
    ∙ ap (λ o. o >>= data_written) (write_header-eq ch f (replicate m 0))
    ∙ write_data-eq (sent_len f) f.payload (header_bytes (host_frame_of ch f)) (replicate m 0) refl
        (omega (arith, le, length-replicate {A = ℕ} m 0)) (omega (arith, le))
