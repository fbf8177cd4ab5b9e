-- ===== src/Tx/Loopback.antt =====
-- What is sent can be received: the receive path reads back the frame that the send path wrote.
pub mod Stamped
use gs_usb_user.Base.{
  ℕ, ◌+◌, ◌≤◌, ◌<◌, ◌≡◌, refl, sym, ap, ap₂, zero, suc, ==_iff, or_if, ◌∙◌, Bool, true, false, some,
  List, [], ◌∷◌, ◌++◌, arith, ltb, ◌==◌, u8, has, length, lt-of-get_elem?, length-append,
  length-take, take-append_left, take, drop, replicate, get_or, get_elem?, ◌^◌, if◌then◌else◌,
}
use gs_usb_user.Base.Bits.{all_below, all_below_sound}
use gs_usb_user.Dlc.{len2dlc_cc, len2dlc_fd, dlc2len_cc, dlc2len_fd}
use gs_usb_user.Frame.{Frame, frame_fd, rtr_flag}
use gs_usb_user.Device.{Channel, Dev}
use gs_usb_user.Device.Invariant.{IsValid}
use gs_usb_user.Wire.{echo_id_rx}
use gs_usb_user.Wire.HostFrame.{HostFrame, host_frame_bytes, get_le32-echo_id, get_le32-can_id}
use gs_usb_user.Rx.{
  Header, read_header, is_fd, data_len_of, frame_flags, decode_body, deliver, receive_into,
  handle_rx_packet,
}
use gs_usb_user.Rx.Safety.{padded, received, build_frame-eq}
use gs_usb_user.Rx.Effect.{IsWellFormed, delivered}
use gs_usb_user.Tx.{
  is_fd as sends_fd, max_dlen_of as sent_max, sent_len, sent_dlc, wire_flags, encode,
}
use gs_usb_user.Tx.Encode.{host_frame_of, sent_len-le, encode-host_frame_bytes}

-- A frame that the wire can carry unchanged: its length is that of a code, it is no remote frame
-- unless it is FD, its flags are the three known ones, and no data hides behind its length.
pub record IsSendable (f : Frame) : Type 0 where
  pub good : IsWellFormed f
  pub id_in : f.can_id < 2 ^ 32
  pub flags_in : f.flags < 8
  pub coded : has f.flags frame_fd ≡ true → dlc2len_fd (len2dlc_fd f.len) ≡ f.len
  pub no_remote : has f.flags frame_fd ≡ false → has f.can_id rtr_flag ≡ false
  pub no_stamp : f.timestamp_us ≡ 0

-- the device's report of a frame: the same bytes with the echo id of a received frame
abbrev pub as_received : HostFrame → List ℕ
as_received hf = host_frame_bytes (record hf { echo_id = echo_id_rx })

abbrev pub header_of : HostFrame → Header
header_of hf = record {
  echo_id = hf.echo_id;
  can_id = hf.can_id;
  can_dlc = hf.can_dlc;
  channel = hf.channel;
  flags = hf.flags;
}

pub read_header-host_frame :
    (hf : HostFrame)
    → hf.echo_id < 2 ^ 32
    → hf.can_id < 2 ^ 32
    → read_header (host_frame_bytes hf) ≡ some (header_of hf)
unfolding read_header
read_header-host_frame hf e i = ground (arith, get_le32-echo_id hf e, get_le32-can_id hf i)

-- The flags written on the wire, read back.
wire_flags_bits :
    (f : Frame)
    → (has (wire_flags f) 2 ≡ has f.flags 1)
      × (has (wire_flags f) 4 ≡ has f.flags 2)
      × (has (wire_flags f) 8 ≡ has f.flags 4)
wire_flags_bits f = bits (has f.flags 1) (has f.flags 2) (has f.flags 4)
  where
    bits :
        (a b c : Bool)
        → (has (or_if c 8 (or_if b 4 (or_if a 2 0))) 2 ≡ a)
          × (has (or_if c 8 (or_if b 4 (or_if a 2 0))) 4 ≡ b)
          × (has (or_if c 8 (or_if b 4 (or_if a 2 0))) 8 ≡ c)
    bits true true true = (refl, refl, refl)
    bits true true false = (refl, refl, refl)
    bits true false true = (refl, refl, refl)
    bits true false false = (refl, refl, refl)
    bits false true true = (refl, refl, refl)
    bits false true false = (refl, refl, refl)
    bits false false true = (refl, refl, refl)
    bits false false false = (refl, refl, refl)

abbrev flags_of_bits : Bool → Bool → Bool → ℕ
flags_of_bits fd brs esi = or_if esi 4 (or_if brs 2 (or_if fd 1 0))

flags_table : all_below 8 (λ x. flags_of_bits (has x 1) (has x 2) (has x 4) == x) ≡ true
flags_table = refl

pub frame_flags_back :
    (f : Frame) → f.flags < 8 → (h : Header) → h.flags ≡ wire_flags f → frame_flags h ≡ f.flags
frame_flags_back f small h e =
    let b = wire_flags_bits f in
    let back : flags_of_bits (has f.flags 1) (has f.flags 2) (has f.flags 4) ≡ f.flags =
      (==_iff _ f.flags).0 (
        all_below_sound 8 (λ x. flags_of_bits (has x 1) (has x 2) (has x 4) == x) f.flags
          flags_table small) in
    rw (e, b.0, b.1, b.2) back

zeros-eq : (p : List ℕ) → ((i : ℕ) → get_or p i 0 ≡ 0) → replicate (length p) 0 ≡ p
zeros-eq [] h = refl
zeros-eq (x ∷ p) h = ap₂ ◌∷◌ (sym (h 0)) (zeros-eq p λ i. h (suc i))

-- The data and the zeros behind them make up the array again.
refill :
    (n : ℕ) (p : List ℕ)
    → ((i : ℕ) → n ≤ i → get_or p i 0 ≡ 0)
    → take n p ++ drop n (replicate (length p) 0) ≡ p
refill zero p h = zeros-eq p λ i. h i (omega arith)
refill (suc n) [] h = refl
refill (suc n) (x ∷ p) h = ap (λ l. x ∷ l) (refill n p λ i q. h (suc i) (omega arith))

-- The two computations of a length, over the tests that they make.
abbrev data_len_at : Bool → Bool → ℕ → ℕ
data_len_at fd remote dlc =
    let most : ℕ = if fd then 64 else 8 in
    let coded = if fd then dlc2len_fd dlc else if remote then 0 else dlc2len_cc dlc in
    if ltb most coded then most else coded

abbrev dlc_at : Bool → ℕ → ℕ
dlc_at fd len = if fd then len2dlc_fd len else len2dlc_cc len

data_len_at-dlc_at :
    (fd remote : Bool) (len : ℕ)
    → (fd ≡ true → dlc2len_fd (len2dlc_fd len) ≡ len)
    → (fd ≡ false → remote ≡ false)
    → len ≤ (if fd then 64 else 8)
    → data_len_at fd remote (dlc_at fd len) ≡ len
unfolding len2dlc_cc dlc2len_cc
data_len_at-dlc_at true remote len c r h = rw (c refl) (ground arith)
data_len_at-dlc_at false remote len c r h = ground (arith, r refl)

module _ (ch : Channel) (f : Frame) (s : IsSendable f) where
  abbrev pub hf : HostFrame
  hf = record (host_frame_of ch f) { echo_id = echo_id_rx }

  sent_len-eq : sent_len f ≡ f.len
  sent_len-eq = ground (arith, s.good.at_most)

  pub same_fd : is_fd (header_of hf) ≡ sends_fd f
  same_fd = (wire_flags_bits f).0

  pub data_len-eq : data_len_of (header_of hf) ≡ f.len
  data_len-eq =
      ap (λ b. data_len_at b (has f.can_id rtr_flag) (sent_dlc f)) same_fd
      ∙ ap (λ (n : ℕ). data_len_at (sends_fd f) (has f.can_id rtr_flag) (dlc_at (sends_fd f) n))
          sent_len-eq
      ∙ data_len_at-dlc_at (sends_fd f) (has f.can_id rtr_flag) f.len s.coded s.no_remote
          s.good.at_most

  pub padded-eq : padded (host_frame_bytes hf) f.len ≡ f.payload
  padded-eq =
      let kept : length (take f.len f.payload) ≡ f.len =
        ground (arith, s.good.array, s.good.at_most, length-take {0} f.len f.payload) in
      ap
        (λ (n : ℕ).
          take f.len (take n f.payload ++ drop n (replicate {A = ℕ} (sent_max f) 0))
          ++ drop f.len (replicate {A = ℕ} 64 0))
        sent_len-eq
      ∙ ap (λ l. l ++ drop f.len (replicate {A = ℕ} 64 0))
          (take-append_left (take f.len f.payload) (drop f.len (replicate {A = ℕ} (sent_max f) 0))
            f.len (sym kept))
      ∙ ap (λ (n : ℕ). take f.len f.payload ++ drop f.len (replicate {A = ℕ} n 0))
          (sym s.good.array)
      ∙ refill f.len f.payload s.good.zeros

  long_enough : 12 + data_len_of (header_of hf) ≤ length (host_frame_bytes hf)
  long_enough = omega (
    arith,
    data_len-eq,
    sent_len-eq,
    sent_len-le f,
    length-append {0} (take (sent_len f) f.payload)
        (drop (sent_len f) (replicate {A = ℕ} (sent_max f) 0)),
    length-take {0} (sent_len f) f.payload,
    s.good.array,
  )

  received-eq : received (host_frame_bytes hf) (header_of hf) 0 ≡ f
  received-eq =
      let flags = frame_flags_back f s.flags_in (header_of hf) refl in
      let bytes = ap (padded (host_frame_bytes hf)) data_len-eq ∙ padded-eq in
      λ i. record {
        can_id = f.can_id;
        len = data_len-eq i;
        flags = flags i;
        payload = bytes i;
        timestamp_us = sym s.no_stamp i;
      }

  decode-eq : decode_body false (host_frame_bytes hf) (header_of hf) ≡ deliver f
  unfolding decode_body
  decode-eq = ground (
    arith,
    long_enough,
    build_frame-eq (host_frame_bytes hf) (header_of hf) 0 long_enough,
    ap deliver received-eq,
  )

pub handle_step :
    (dev : Dev) (buf : List ℕ) (h : Header)
    → 12 ≤ length buf
    → read_header buf ≡ some h
    → handle_rx_packet dev buf ≡ receive_into dev buf h
unfolding handle_rx_packet
handle_step dev buf h l e = ground (arith, e)

pub deliver_step :
    (dev : Dev) (buf : List ℕ) (h : Header) (ch : Channel) (f : Frame)
    → h.channel < dev.channel_count
    → get_elem? dev.channels h.channel ≡ some ch
    → h.echo_id ≡ echo_id_rx
    → decode_body ch.hw_ts_enabled buf h ≡ deliver f
    → receive_into dev buf h ≡ some (delivered dev h.channel ch f)
unfolding receive_into
deliver_step dev buf h ch f lt at rx d = ground (arith, at, d)

-- The bytes that the device reports for a frame it was sent: only the echo id differs.
abbrev pub reported : List ℕ → List ℕ
reported bytes = 255 ∷ 255 ∷ 255 ∷ 255 ∷ drop 4 bytes

-- Round trip. On a channel without hardware timestamps of a well-formed device, `gsusb_channel_send`
-- encodes a frame that the wire can carry into bytes which, reported by the device as a received
-- frame, `handle_rx_packet` turns back into the same frame, pushed onto the queue of the same
-- channel.
pub handle_rx_packet-encode :
    (dev : Dev) (k : ℕ) (ch : Channel) (f : Frame)
    → IsValid dev
    → get_elem? dev.channels k ≡ some ch
    → ch.hw_ts_enabled ≡ false
    → IsSendable f
    → (bytes : List ℕ) × (encode ch f ≡ some bytes)
      × (handle_rx_packet dev (reported bytes) ≡ some (delivered dev k ch f))
handle_rx_packet-encode dev k ch f v at no_ts s =
    let own : ch.index ≡ k = v.indexed k ch at in
    let inside : k < length dev.channels = lt-of-get_elem? dev.channels k at in
    let named : u8 ch.index ≡ k = omega (arith, v.counted, v.bounded) in
    let packet = host_frame_bytes (hf ch f s) in
    let body = ap (λ b. decode_body b packet (header_of (hf ch f s))) no_ts ∙ decode-eq ch f s in
    (
      host_frame_bytes (host_frame_of ch f),
      encode-host_frame_bytes ch f s.good.array,
      handle_step dev packet (header_of (hf ch f s)) (omega (arith, long_enough ch f s))
            (read_header-host_frame (hf ch f s) (omega arith) s.id_in)
          ∙ deliver_step dev packet (header_of (hf ch f s)) ch f (omega (arith, named, v.counted))
              (ap (get_elem? dev.channels) named ∙ at) refl body
          ∙ ap (λ (j : ℕ). some (delivered dev j ch f)) named,
    )
