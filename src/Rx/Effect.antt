-- ===== src/Rx/Effect.antt =====
-- What `handle_rx_packet` does to a device: it drops the packet, or pushes one well-formed frame onto
-- the queue of the channel that the packet names.
use gs_usb_user.Base.{
  ℕ, ◌+◌, ◌≤◌, ◌<◌, ◌≡◌, ◌≢◌, refl, ◌∙◌, Option, none, some, List, [], ◌∷◌, get_elem?_total, arith,
  has, length, length-append, length-take, length-drop, get_elem?, get_or, take, drop,
  get_or-append_right, get_or-drop, get_or-replicate_default, ◌-◌, ℕ_discrete, dec_lt, inl, inr,
  if◌then◌else◌,
}
use gs_usb_user.Frame.{Frame, frame_fd, zero_frame}
use gs_usb_user.Rxq
use gs_usb_user.Rxq.Invariant.{push-IsValid}
use gs_usb_user.Device.{Channel, Dev, put_channel}
use gs_usb_user.Device.Invariant.{IsValid, put_channel-IsValid}
use gs_usb_user.Wire.{echo_id_rx}
use gs_usb_user.Rx.{Header, read_header, data_len_of, receive_into, handle_rx_packet}
use gs_usb_user.Rx.Safety.{
  read_header_total, received, decode_body_cases, frame_flags_bits, data_len-le,
}

-- A frame as the library hands it out: a full array, at most 8 bytes of data unless it is FD, at
-- most 64 if it is, and zeros behind the data.
pub record IsWellFormed (f : Frame) : Type 0 where
  pub array : length f.payload ≡ 64
  pub at_most : f.len ≤ (if has f.flags frame_fd then 64 else 8)
  pub zeros : (i : ℕ) → f.len ≤ i → get_or f.payload i 0 ≡ 0

received-IsWellFormed :
    (buf : List ℕ) (h : Header) (ts : ℕ)
    → 12 + data_len_of h ≤ length buf
    → IsWellFormed (received buf h ts)
received-IsWellFormed buf h ts l =
    let n = data_len_of h in
    let data_bytes = take n (drop 12 buf) in
    let le = data_len-le h in
    let size : length data_bytes ≡ n =
      omega (arith, length-take {0} n (drop 12 buf), length-drop {0} 12 buf) in
    record {
      array = omega (
        arith,
        le,
        size,
        length-append {0} data_bytes (drop n zero_frame.payload),
        length-drop {0} n zero_frame.payload,
      );
      at_most = ground (arith, le, frame_flags_bits h);
      zeros = λ i p.
          get_or-append_right data_bytes (drop n zero_frame.payload) i 0 (omega (arith, size))
          ∙ get_or-drop n zero_frame.payload (i - length data_bytes) 0
          ∙ get_or-replicate_default 64 (n + (i - length data_bytes)) 0;
    }

-- the queue of one channel with one more frame
abbrev pub delivered : Dev → ℕ → Channel → Frame → Dev
delivered dev k ch f = put_channel dev k (record ch { queue = Rxq.push ch.queue f })

-- What a packet may do, on every branch.
pub data Effect (dev : Dev) (d : Dev) : Type 0 where
  dropped : d ≡ dev → Effect dev d
  pushed :
      (k : ℕ) (ch : Channel) (f : Frame)
      → k < dev.channel_count
      → get_elem? dev.channels k ≡ some ch
      → IsWellFormed f
      → d ≡ delivered dev k ch f
      → Effect dev d

receive_into-Effect :
    (dev : Dev) (buf : List ℕ) (h : Header)
    → IsValid dev
    → (d : Dev) × (receive_into dev buf h ≡ some d) × Effect dev d
unfolding receive_into
receive_into-Effect dev buf h v = elim (dec_lt h.channel dev.channel_count) [
  | no k ↦ (dev, ground arith, dropped refl)
  | yes k ↦
      let (ch, e) = get_elem?_total dev.channels h.channel (omega (arith, v.counted)) in
      elim (ℕ_discrete h.echo_id echo_id_rx) [
        | no ne ↦ (dev, ground (arith, e), dropped refl)
        | yes rx ↦ elim (decode_body_cases ch.hw_ts_enabled buf h) [
          | inl d ↦ (dev, ground (arith, e, d), dropped refl)
          | inr (ts, l, d) ↦ (
            delivered dev h.channel ch (received buf h ts),
            ground (arith, e, d),
            pushed h.channel ch (received buf h ts) k e (received-IsWellFormed buf h ts l) refl,
          )
        ]
      ]
]

-- On a well-formed device and any bytes, `handle_rx_packet` reads nothing outside the packet, the
-- table and the channel array, and either leaves the device as it was or pushes one well-formed frame
-- onto the queue of one of its channels and changes nothing else.
pub handle_rx_packet-Effect :
    (dev : Dev) (buf : List ℕ)
    → IsValid dev
    → (d : Dev) × (handle_rx_packet dev buf ≡ some d) × Effect dev d
unfolding handle_rx_packet
handle_rx_packet-Effect dev buf v = elim (dec_lt (length buf) 12) [
  | yes short ↦ (dev, ground arith, dropped refl)
  | no long ↦
      let (h, e) = read_header_total buf (omega arith) in
      let (d, r, f) = receive_into-Effect dev buf h v in (d, ground (arith, e, r), f)
]

Effect-IsValid : {dev d : Dev} → IsValid dev → Effect dev d → IsValid d
Effect-IsValid v (dropped e) = rw e v
Effect-IsValid {dev} v (pushed k ch f lt at good e) = rw e (
    put_channel-IsValid dev k (record ch { queue = Rxq.push ch.queue f }) v (v.indexed k ch at)
      (push-IsValid f (v.queued k ch at)))

pub handle_rx_packet-IsValid :
    (dev : Dev) (buf : List ℕ)
    → IsValid dev
    → (d : Dev) × (handle_rx_packet dev buf ≡ some d) × IsValid d
handle_rx_packet-IsValid dev buf v =
    let (d, e, f) = handle_rx_packet-Effect dev buf v in (d, e, Effect-IsValid v f)

-- Packets handled one after another.
receive_all : Dev → List (List ℕ) → Option Dev
receive_all dev [] = some dev
receive_all dev (buf ∷ bufs) = elim (handle_rx_packet dev buf) [
  | none ↦ none
  | some d ↦ receive_all d bufs
]

-- A well-formed device stays so through any sequence of packets, and no packet faults.
receive_all-IsValid :
    (bufs : List (List ℕ)) (dev : Dev)
    → IsValid dev
    → (d : Dev) × (receive_all dev bufs ≡ some d) × IsValid d
unfolding receive_all
receive_all-IsValid [] dev v = (dev, refl, v)
receive_all-IsValid (buf ∷ bufs) dev v =
    let (d, e, f) = handle_rx_packet-Effect dev buf v in
    let (d', e', v') = receive_all-IsValid bufs d (Effect-IsValid v f) in
    (d', ground (arith, e, e'), v')

-- On a well-formed device, a packet of at least twelve bytes whose echo id is not that of a received
-- frame, an acknowledgement of a frame sent, leaves the device as it was, whatever the rest of it
-- holds.
handle_rx_packet_ack :
    (dev : Dev) (buf : List ℕ) (h : Header)
    → IsValid dev
    → 12 ≤ length buf
    → read_header buf ≡ some h
    → h.echo_id ≢ echo_id_rx
    → handle_rx_packet dev buf ≡ some dev
unfolding handle_rx_packet receive_into
handle_rx_packet_ack dev buf h v l e ne = elim (dec_lt h.channel dev.channel_count) [
  | no k ↦ ground (arith, e)
  | yes k ↦
      let (ch, at) = get_elem?_total dev.channels h.channel (omega (arith, v.counted)) in
      ground (arith, e, at)
]
