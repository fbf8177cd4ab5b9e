-- ===== src/Examples/Packets.antt =====
-- Runs of the send and receive paths.
use gs_usb_user.Base.{
  true, ◌++◌, ℕ, zero, suc, get_or, get_or-replicate_default, ◌≤◌, ◌≡◌, refl, some, List, [], ◌∷◌,
  arith, drop,
}
use gs_usb_user.Device.{Channel, Dev}
use gs_usb_user.Wire.HostFrame.{host_frame_bytes}
use gs_usb_user.Rx.{Header, read_header, handle_rx_packet}
use gs_usb_user.Rx.Effect.{delivered, Effect, handle_rx_packet-Effect}
use gs_usb_user.Tx.{encode, send}
use gs_usb_user.Tx.Encode.{host_frame_of, encode-host_frame_bytes}
use gs_usb_user.Tx.Loopback.{IsSendable, reported, handle_rx_packet-encode}
use gs_usb_user.Tx.Loopback.Stamped.{handle_rx_packet-encode_stamped}
use gs_usb_user.Wire.RoundTrip.{le32_bytes}
use gs_usb_user.Tx.Send.{SendOutcome, send_cases}
use gs_usb_user.Examples.{
  two_bytes, bus, live_bus, at_rest, in_use, device_of, device_of-IsValid, three_slots-IsQueue,
  at_rest-IsValid, counting,
}

behind : (i : ℕ) → 2 ≤ i → get_or two_bytes.payload i 0 ≡ 0
behind zero h = absurd (omega arith)
behind (suc zero) h = absurd (omega arith)
behind (suc (suc i)) h = get_or-replicate_default 62 i 0

two_bytes-IsSendable : IsSendable two_bytes
two_bytes-IsSendable = record {
  good = record { array = refl; at_most = omega arith; zeros = behind };
  id_in = omega arith;
  flags_in = omega arith;
  coded = λ e. ground arith;
  no_remote = λ e. refl;
  no_stamp = refl;
}

handle_rx_packet-encode_example :
    (bytes : List ℕ) × (encode bus two_bytes ≡ some bytes)
    × (handle_rx_packet at_rest (reported bytes) ≡ some (delivered at_rest 0 bus two_bytes))
handle_rx_packet-encode_example =
    handle_rx_packet-encode at_rest 0 bus two_bytes at_rest-IsValid refl refl two_bytes-IsSendable

-- the channel as it is with hardware timestamps
abbrev timed_bus : Channel
timed_bus = record bus { hw_ts_enabled = true }

handle_rx_packet-encode_stamped_example :
    (bytes : List ℕ) × (encode timed_bus two_bytes ≡ some bytes)
    × (handle_rx_packet (device_of timed_bus) (reported bytes ++ le32_bytes 0x12345678)
        ≡ some (
            delivered
              (device_of timed_bus)
              0
              timed_bus
              (record two_bytes { timestamp_us = 0x12345678 })))
handle_rx_packet-encode_stamped_example =
    handle_rx_packet-encode_stamped (device_of timed_bus) 0 timed_bus two_bytes 0x12345678
      (device_of-IsValid timed_bus refl three_slots-IsQueue) refl refl two_bytes-IsSendable
      (omega arith)

-- a classic frame of two bytes for channel 0
abbrev packet : List ℕ
packet = 255 ∷ 255 ∷ 255 ∷ 255 ∷ 0x23 ∷ 1 ∷ 0 ∷ 0 ∷ 2 ∷ 0 ∷ 0 ∷ 0 ∷ 17 ∷ 34 ∷ []

handle_rx_packet-Effect_example :
    (d : Dev) × (handle_rx_packet at_rest packet ≡ some d) × Effect at_rest d
handle_rx_packet-Effect_example = handle_rx_packet-Effect at_rest packet at_rest-IsValid

-- the acknowledgement of a frame sent
abbrev ack : List ℕ
ack = 0 ∷ 0 ∷ 0 ∷ 0 ∷ drop 4 packet

abbrev ack_header : Header
ack_header = record { echo_id = 0; can_id = 0x123; can_dlc = 2; channel = 0; flags = 0 }

read_header-ack : read_header ack ≡ some ack_header
unfolding read_header gs_usb_user.Wire.get_le32
read_header-ack = refl

encode-host_frame_bytes_example :
    encode bus two_bytes ≡ some (host_frame_bytes (host_frame_of bus two_bytes))
encode-host_frame_bytes_example = encode-host_frame_bytes bus two_bytes refl

send_cases_example :
    SendOutcome counting in_use live_bus two_bytes 0 0 (send counting in_use live_bus two_bytes 0 0)
send_cases_example = send_cases counting in_use live_bus two_bytes 0 0 refl
