-- ===== src/PacketCodec/RoundTrip.antt =====
-- What `encode_packet` writes, `recv_packets_et` reads back.
use cpp_chat.Base.{
  ℕ, suc, ◌+◌, ◌^◌, ◌≤◌, ◌<◌, ◌≡◌, refl, ap, ◌∙◌, some, List, [], ◌∷◌, ◌++◌, arith, append_assoc,
  append-nil, Bytes, length, take, drop, length-append, take-append, drop-append,
}
use native.Mathlib.Nat.{mod-eq_of_lt}
use cpp_chat.PacketCodec.Extract.{extract_at}
use cpp_chat.PacketCodec.Stream.{bytes_of, ending_of, recv_packets_et-again}
use cpp_chat.PacketCodec.{
  incomplete, frame, next_frame, extract_packets, finish, Recvs, again, recv_packets_et,
  encode_packet, net_length, payload_length, max_packet_payload_size,
}

pub payload_length-net_length :
    (n : ℕ) (rest : Bytes) → n < 2 ^ 32 → payload_length (net_length n ++ rest) ≡ n
unfolding payload_length net_length
payload_length-net_length n rest h = omega arith

-- A complete frame of an allowed size is cut off.
next_frame_complete :
    (limit size : ℕ) (buffer : Bytes)
    → payload_length buffer ≡ size
    → 0 < size
    → size ≤ limit
    → 4 + size ≤ length buffer
    → next_frame limit buffer ≡ frame (take size (drop 4 buffer)) (drop (4 + size) buffer)
unfolding next_frame
next_frame_complete limit size buffer e h h' h'' = ground arith

drop-net_length :
    (n k : ℕ) (rest : Bytes)
    → (drop 4 (net_length n ++ rest) ≡ rest) × (drop (4 + k) (net_length n ++ rest) ≡ drop k rest)
unfolding net_length
drop-net_length n k rest = let e : 4 + k ≡ suc (suc (suc (suc k))) = omega arith in (refl, rw e)

length-net_length : (n : ℕ) (rest : Bytes) → length (net_length n ++ rest) ≡ 4 + length rest
unfolding net_length
length-net_length n rest = omega arith

next_frame-net_length :
    (payload rest : Bytes)
    → 0 < length payload
    → length payload ≤ max_packet_payload_size
    → next_frame max_packet_payload_size (net_length (length payload) ++ (payload ++ rest))
      ≡ frame payload rest
next_frame-net_length payload rest h h' =
    let size = length payload in
    let (head, tail) = drop-net_length size size (payload ++ rest) in
    next_frame_complete max_packet_payload_size size (net_length size ++ (payload ++ rest))
      (payload_length-net_length size (payload ++ rest) (omega arith)) h h'
      (omega (arith, length-net_length size (payload ++ rest), length-append payload rest))
    ∙ rw (head, tail, take-append payload rest, drop-append payload rest)

-- The packet that `encode_packet` makes, when it makes one.
encode_packet-net_length :
    (payload packet : Bytes)
    → encode_packet payload ≡ some packet
    → (0 < length payload)
      × (length payload ≤ max_packet_payload_size)
      × (packet ≡ net_length (length payload) ++ payload)
unfolding encode_packet
encode_packet-net_length [] packet e = absurd (cc)
encode_packet-net_length (x ∷ xs) packet e =
    ground (arith, mod-eq_of_lt {n = length (x ∷ xs)} {m = 2 ^ 32})

pub next_frame-encode_packet :
    (payload packet rest : Bytes)
    → encode_packet payload ≡ some packet
    → next_frame max_packet_payload_size (packet ++ rest) ≡ frame payload rest
next_frame-encode_packet payload packet rest e =
    let (some_byte, fits, is) = encode_packet-net_length payload packet e in
    rw is (rw append_assoc (next_frame-net_length payload rest some_byte fits))

-- The stream that a client writes for a row of payloads.
pub data Encodes : List Bytes → Bytes → Type 0 where
  nil : Encodes [] []
  cons :
      {payload packet stream : Bytes} {payloads : List Bytes}
      → encode_packet payload ≡ some packet
      → Encodes payloads stream
      → Encodes (payload ∷ payloads) (packet ++ stream)

extract_packets-Encodes :
    {payloads : List Bytes} {stream : Bytes} (tail : Bytes) (front : List Bytes)
    → Encodes payloads stream
    → next_frame max_packet_payload_size tail ≡ incomplete
    → extract_packets max_packet_payload_size (stream ++ tail) front
      ≡ finish tail (front ++ payloads)
extract_packets-Encodes tail front nil h =
    rw append-nil (extract_at max_packet_payload_size tail front h)
extract_packets-Encodes tail front (cons {payload} {packet} {stream} e s) h = rw append_assoc (
    extract_at max_packet_payload_size (packet ++ (stream ++ tail)) front
      (next_frame-encode_packet payload packet (stream ++ tail) e)
    ∙ extract_packets-Encodes tail (front ++ payload ∷ []) s h
    ∙ rw append_assoc)

-- When a call that drains the socket has in its buffer the packets of some payloads and then an
-- incomplete frame, it returns the payloads in order and keeps the incomplete frame, whatever the
-- cuts.
pub recv_packets_et-Encodes :
    (recvs : Recvs) (buffer tail stream : Bytes) (payloads : List Bytes)
    → ending_of recvs ≡ again
    → Encodes payloads stream
    → buffer ++ bytes_of recvs ≡ stream ++ tail
    → next_frame max_packet_payload_size tail ≡ incomplete
    → recv_packets_et recvs buffer max_packet_payload_size ≡ finish tail payloads
recv_packets_et-Encodes recvs buffer tail stream payloads h s e rest =
    recv_packets_et-again recvs buffer max_packet_payload_size h
    ∙ ap (λ b. extract_packets max_packet_payload_size b []) e
    ∙ extract_packets-Encodes tail [] s rest
