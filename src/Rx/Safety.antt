-- ===== src/Rx/Safety.antt =====
-- `handle_rx_packet` never reads outside what was received.
use gs_usb_user.Base.{
  ℕ, ◌+◌, ◌^◌, ◌*◌, ◌≤◌, ◌≡◌, refl, Bool, true, false, some, List, arith, bit_or, u32, has, or_if,
  length, get_or, get_elem?-eq-get_or, take, drop, ◌++◌, ◌⊎◌, ℕ_discrete, dec_lt, inl, inr,
}
use gs_usb_user.Dlc.{dlc2len_cc}
use gs_usb_user.Frame.{Frame, frame_fd, frame_brs, frame_esi, zero_frame}
use gs_usb_user.Wire.WireFlag
use gs_usb_user.Wire.{host_frame_hdr_size, host_frame_ts_size, get_le32}
use gs_usb_user.Rx.{
  Header, read_header, max_dlen_of, data_len_of, drop as drop_packet, deliver, frame_flags,
  copy_payload, build_frame, decode_body,
}

pub get_le32_total : (p : List ℕ) (at : ℕ) → at + 4 ≤ length p → (v : ℕ) × (get_le32 p at ≡ some v)
unfolding get_le32
get_le32_total p at h = (
  bit_or
      (bit_or (bit_or (get_or p at 0) (u32 (get_or p (at + 1) 0 * 2 ^ 8)))
        (u32 (get_or p (at + 2) 0 * 2 ^ 16)))
      (u32 (get_or p (at + 3) 0 * 2 ^ 24)),
  ground (
    arith,
    get_elem?-eq-get_or p at 0,
    get_elem?-eq-get_or p (at + 1) 0,
    get_elem?-eq-get_or p (at + 2) 0,
    get_elem?-eq-get_or p (at + 3) 0,
  ),
)

pub read_header_total : (buf : List ℕ) → 12 ≤ length buf → (h : Header) × (read_header buf ≡ some h)
unfolding read_header
read_header_total buf l =
    let (echo, e0) = get_le32_total buf 0 (omega arith) in
    let (id, e1) = get_le32_total buf 4 (omega arith) in
    (
      record {
        echo_id = echo;
        can_id = id;
        can_dlc = get_or buf 8 0;
        channel = get_or buf 9 0;
        flags = get_or buf 10 0;
      },
      ground (
        arith,
        e0,
        e1,
        get_elem?-eq-get_or buf 8 0,
        get_elem?-eq-get_or buf 9 0,
        get_elem?-eq-get_or buf 10 0,
      ),
    )

pub data_len-le : (h : Header) → (data_len_of h ≤ max_dlen_of h) × (max_dlen_of h ≤ 64)
unfolding dlc2len_cc
data_len-le h = ground arith

-- What a payload of `n` bytes becomes: the bytes, then zeros up to 64.
abbrev pub padded : List ℕ → ℕ → List ℕ
padded buf n = take n (drop host_frame_hdr_size buf) ++ drop n zero_frame.payload

copy_payload-eq :
    (buf : List ℕ) (n : ℕ) → n ≤ 64 → 12 + n ≤ length buf → copy_payload buf n ≡ some (padded buf n)
unfolding copy_payload
copy_payload-eq buf n h l = elim (ℕ_discrete n 0) [ yes e ↦ rw e refl | no ne ↦ ground arith ]

-- the frame that a packet with header `h` delivers
abbrev pub received : List ℕ → Header → ℕ → Frame
received buf h ts = record {
  can_id = h.can_id;
  len = data_len_of h;
  flags = frame_flags h;
  payload = padded buf (data_len_of h);
  timestamp_us = ts;
}

pub build_frame-eq :
    (buf : List ℕ) (h : Header) (ts : ℕ)
    → 12 + data_len_of h ≤ length buf
    → build_frame buf h ts ≡ deliver (received buf h ts)
unfolding build_frame
build_frame-eq buf h ts l =
    rw (copy_payload-eq buf (data_len_of h) (omega (arith, data_len-le h)) l, build_frame)

-- A body is dropped, or delivers what its bytes say, with the hardware timestamp if one is read.
pub decode_body_cases :
    (t : Bool) (buf : List ℕ) (h : Header)
    → (decode_body t buf h ≡ drop_packet)
      ⊎ ((ts : ℕ) × (12 + data_len_of h ≤ length buf)
          × (decode_body t buf h ≡ deliver (received buf h ts)))
unfolding decode_body
decode_body_cases true buf h =
    elim (dec_lt (length buf) (host_frame_hdr_size + max_dlen_of h + host_frame_ts_size)) [
      | yes k ↦ inl (ground arith)
      | no k ↦
          let (ts, e) = get_le32_total buf (host_frame_hdr_size + max_dlen_of h) (omega arith) in
          inr (
            ts,
            omega (arith, data_len-le h),
            ground (arith, e, build_frame-eq buf h ts, data_len-le h),
          )
    ]
decode_body_cases false buf h = elim (dec_lt (length buf) (host_frame_hdr_size + data_len_of h)) [
  | yes k ↦ inl (ground arith)
  | no k ↦ inr (0, omega arith, ground (arith, build_frame-eq buf h 0))
]

-- Every combination of the three wire flags comes out in the flags of the frame.
pub frame_flags_bits :
    (h : Header)
    → (has (frame_flags h) frame_fd ≡ has h.flags WireFlag.fd)
      × (has (frame_flags h) frame_brs ≡ has h.flags WireFlag.brs)
      × (has (frame_flags h) frame_esi ≡ has h.flags WireFlag.esi)
frame_flags_bits h =
    bits (has h.flags WireFlag.fd) (has h.flags WireFlag.brs) (has h.flags WireFlag.esi)
  where
    bits :
        (a b c : Bool)
        → (has (or_if c 4 (or_if b 2 (or_if a 1 0))) 1 ≡ a)
          × (has (or_if c 4 (or_if b 2 (or_if a 1 0))) 2 ≡ b)
          × (has (or_if c 4 (or_if b 2 (or_if a 1 0))) 4 ≡ c)
    bits true true true = (refl, refl, refl)
    bits true true false = (refl, refl, refl)
    bits true false true = (refl, refl, refl)
    bits true false false = (refl, refl, refl)
    bits false true true = (refl, refl, refl)
    bits false true false = (refl, refl, refl)
    bits false false true = (refl, refl, refl)
    bits false false false = (refl, refl, refl)
