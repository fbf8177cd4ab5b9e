-- ===== src/Rx.antt =====
-- driver/src/gsusb.c: `handle_rx_packet`, one packet of the bulk IN endpoint. The buffer is the
-- list of the bytes that were received, so `actual_length` is its length, and a read past it, where
-- stale or foreign memory lies, is a fault: `none`.
pub mod Safety
pub mod Effect
use gs_usb_user.Base.{
  ℕ, ◌+◌, Bool, true, false, Option, none, some, List, ltb, leb, ◌==◌, not, bit_or, has, or_if,
  length, get_elem?, memcpy, ◌>>=◌, if◌then◌else◌,
}
use gs_usb_user.Dlc.{dlc2len_cc, dlc2len_fd}
use gs_usb_user.Frame.{Frame, rtr_flag, frame_fd, frame_brs, frame_esi, zero_frame}
use gs_usb_user.Rxq
use gs_usb_user.Device.{Channel, Dev, put_channel}
use gs_usb_user.Wire.{
  echo_id_rx, host_frame_hdr_size, host_frame_ts_size, classic_dlen, fd_dlen, get_le32,
}
use gs_usb_user.Wire.WireFlag

-- the header that a packet begins with
pub record Header : Type 0 where
  pub echo_id : ℕ
  pub can_id : ℕ
  pub can_dlc : ℕ
  pub channel : ℕ
  pub flags : ℕ

unfoldable pub read_header : List ℕ → Option Header
read_header buf = do
  echo_id ← get_le32 buf 0
  can_id ← get_le32 buf 4
  can_dlc ← get_elem? buf 8
  channel ← get_elem? buf 9
  flags ← get_elem? buf 10
  some (record {
    echo_id = echo_id;
    can_id = can_id;
    can_dlc = can_dlc;
    channel = channel;
    flags = flags;
  })

abbrev pub is_fd : Header → Bool
is_fd h = has h.flags WireFlag.fd

abbrev pub max_dlen_of : Header → ℕ
max_dlen_of h = if is_fd h then fd_dlen else classic_dlen

-- `data_len`, before and after it is cut to `max_dlen`
abbrev pub coded_len : Header → ℕ
coded_len h =
    if is_fd h
    then dlc2len_fd h.can_dlc
    else if has h.can_id rtr_flag
    then 0
    else dlc2len_cc h.can_dlc

abbrev pub data_len_of : Header → ℕ
data_len_of h = if ltb (max_dlen_of h) (coded_len h) then max_dlen_of h else coded_len h

-- What becomes of a packet: a fault, a drop, or a frame for the queue.
pub data Verdict : Type 0 where
  fault drop : Verdict
  deliver : Frame → Verdict

-- `f.flags`, built bit by bit
abbrev pub frame_flags : Header → ℕ
frame_flags h =
    or_if (has h.flags WireFlag.esi) frame_esi
      (or_if (has h.flags WireFlag.brs) frame_brs (or_if (is_fd h) frame_fd 0))

-- `f.data` after the `memset` and the `memcpy`
unfoldable pub copy_payload : List ℕ → ℕ → Option (List ℕ)
copy_payload buf data_len =
    if data_len == 0
    then some zero_frame.payload
    else memcpy zero_frame.payload 0 buf host_frame_hdr_size data_len

-- from `memset(&f, ...)` on
unfoldable pub build_frame : List ℕ → Header → ℕ → Verdict
build_frame buf h ts = elim (copy_payload buf (data_len_of h)) [
  | none ↦ fault
  | some bytes ↦ deliver (record {
    can_id = h.can_id;
    len = data_len_of h;
    flags = frame_flags h;
    payload = bytes;
    timestamp_us = ts;
  })
]

-- the timestamp or the length check, and the frame
unfoldable pub decode_body : Bool → List ℕ → Header → Verdict
decode_body hw_ts_enabled buf h =
    if hw_ts_enabled
    then if ltb (length buf) (host_frame_hdr_size + max_dlen_of h + host_frame_ts_size)
      then drop
      else elim (get_le32 buf (host_frame_hdr_size + max_dlen_of h)) [
        | none ↦ fault
        | some ts ↦ build_frame buf h ts
      ]
    else if ltb (length buf) (host_frame_hdr_size + data_len_of h)
    then drop
    else build_frame buf h 0

-- `handle_rx_packet` up to `rxq_push`: the channel that the packet names, and its verdict
unfoldable pub receive_into : Dev → List ℕ → Header → Option Dev
receive_into dev buf h =
    if leb dev.channel_count h.channel then some dev else elim (get_elem? dev.channels h.channel) [
      | none ↦ none
      | some ch ↦
          if not (h.echo_id == echo_id_rx)
          then some dev
          else elim (decode_body ch.hw_ts_enabled buf h) [
            | fault ↦ none
            | drop ↦ some dev
            | deliver f ↦
                some (put_channel dev h.channel (record ch { queue = Rxq.push ch.queue f }))
          ]
    ]

unfoldable pub handle_rx_packet : Dev → List ℕ → Option Dev
handle_rx_packet dev buf =
    if ltb (length buf) host_frame_hdr_size
    then some dev
    else elim (read_header buf) [ none ↦ none | some h ↦ receive_into dev buf h ]
