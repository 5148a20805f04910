-- ===== src/Tests/Packets.antt =====
-- A frame of two bytes, cut in two by the kernel, and a packet that `send` takes in two calls.
use cpp_chat.Base.{ℕ, ◌+◌, ◌<◌, ◌≡◌, refl, [], ◌∷◌, ◌++◌, some, arith, Bytes, codes, length}
use cpp_chat.PacketCodec.{
  Recvs, received, again, end_of_stream, incomplete, next_frame, payload_length, closed, finish,
  recv_packets_et, extract_packets, extract, encode_packet, net_length, max_packet_payload_size,
  packet_header_size, Sends, send_all, RecvPacketResult,
}
use cpp_chat.PacketCodec
use cpp_chat.PacketCodec.Stream.{prepend, recv_packets_et_twice, recv_packets_et_leftover}
use cpp_chat.PacketCodec.RoundTrip.{recv_packets_et-Encodes, nil, cons}
use cpp_chat.PacketCodec.Frames.{Frames, Stops, recv_packets_et-Frames}
use cpp_chat.PacketCodec.Sending.{IsPrefixSent, send_all-IsPrefixSent}

abbrev limit : ℕ
limit = max_packet_payload_size

-- The frame of "hi", in two parts.
abbrev first_part : Recvs
first_part = received 0 (0 ∷ 0 ∷ []) again

abbrev second_part : Recvs
second_part = received 2 (104 ∷ 105 ∷ []) again

abbrev whole : Recvs
whole = received 0 (0 ∷ 0 ∷ 2 ∷ 104 ∷ 105 ∷ []) again

abbrev hi_packet : Bytes
hi_packet = 0 ∷ 0 ∷ 0 ∷ 2 ∷ 104 ∷ 105 ∷ []

hi_encoded : encode_packet (codes "hi") ≡ some hi_packet
unfolding encode_packet
hi_encoded = refl

no_frame : next_frame limit [] ≡ incomplete
unfolding next_frame
no_frame = refl

recv_packets_et-Encodes_example : recv_packets_et whole [] limit ≡ finish [] (codes "hi" ∷ [])
recv_packets_et-Encodes_example =
    recv_packets_et-Encodes whole [] [] (hi_packet ++ []) (codes "hi" ∷ []) refl
      (cons hi_encoded nil) refl no_frame

recv_packets_et_twice_example :
    recv_packets_et whole [] limit
    ≡ prepend
        (recv_packets_et first_part [] limit).0.packets
        (recv_packets_et second_part (recv_packets_et first_part [] limit).1 limit)
unfolding recv_packets_et
recv_packets_et_twice_example =
    recv_packets_et_twice first_part second_part whole [] limit refl refl refl refl refl

recv_packets_et_leftover_example :
    length (recv_packets_et first_part [] limit).1 < packet_header_size + limit
unfolding recv_packets_et
recv_packets_et_leftover_example =
    recv_packets_et_leftover first_part [] limit refl (omega arith) refl

abbrev two_calls : Sends
two_calls = cpp_chat.PacketCodec.accepted 2 (
    cpp_chat.PacketCodec.Sends.interrupted
      (cpp_chat.PacketCodec.accepted 2 cpp_chat.PacketCodec.Sends.again))

send_all-IsPrefixSent_example :
    IsPrefixSent hi_packet (send_all two_calls hi_packet).0 (send_all two_calls hi_packet).1
send_all-IsPrefixSent_example =
    send_all-IsPrefixSent two_calls hi_packet (omega arith, (omega arith, tt))

-- A frame, and the first byte of the next one.
abbrev frame_and_more : Recvs
frame_and_more = received 0 (0 ∷ 0 ∷ 2 ∷ 104 ∷ 105 ∷ 0 ∷ []) again

recv_packets_et-Frames_example :
    Frames limit
      (0 ∷ 0 ∷ 0 ∷ 2 ∷ 104 ∷ 105 ∷ 0 ∷ [])
      (recv_packets_et frame_and_more [] limit).0.packets
      (recv_packets_et frame_and_more [] limit).1
    × Stops limit
        (recv_packets_et frame_and_more [] limit).0.status
        (recv_packets_et frame_and_more [] limit).0.packets
        (recv_packets_et frame_and_more [] limit).1
recv_packets_et-Frames_example = recv_packets_et-Frames frame_and_more [] limit refl
