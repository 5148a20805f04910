-- ===== src/PacketCodec/Frames.antt =====
-- How `recv_packets_et` of src/network/packet_codec.cpp cuts any stream of bytes into packets,
-- against a description of the wire format that does not mention its loop.
use cpp_chat.Base.{
  ℕ, zero, suc, ◌+◌, ◌*◌, ◌^◌, ◌≤◌, ◌<◌, ◌≡◌, refl, sym, ◌∙◌, ◌⊎◌, inl, inr, List, [], ◌∷◌, ◌++◌,
  arith, Bytes, length, drop, take-append-drop, length-take,
}
use cpp_chat.PacketCodec.Extract.{
  Frame-cases, next_frame-Cuts, next_frame_shorter, extract_at, Cuts,
}
use cpp_chat.PacketCodec.Stream.{
  bytes_of, ending_of, extract_packets-prepend, recv_packets_et-again,
}
use cpp_chat.PacketCodec.{
  incomplete, malformed, frame, next_frame, payload_length, extract_packets, finish,
  RecvPacketStatus, protocol_error, ok, would_block, Recvs, again, recv_packets_et,
}

-- The number that four bytes hold, the most significant one first.
abbrev pub big_endian : ℕ → ℕ → ℕ → ℕ → ℕ
big_endian a b c d = a * 2 ^ 24 + b * 2 ^ 16 + c * 2 ^ 8 + d

-- A stream that starts with these packets, each behind its length; the rest follows them.
pub data Frames (limit : ℕ) : Bytes → List Bytes → Bytes → Type 0 where
  nil : {rest : Bytes} → Frames limit rest [] rest
  cons :
      {a b c d : ℕ} {payload stream rest : Bytes} {packets : List Bytes}
      → length payload ≡ big_endian a b c d
      → 0 < length payload
      → length payload ≤ limit
      → Frames limit stream packets rest
      → Frames limit (a ∷ b ∷ c ∷ d ∷ (payload ++ stream)) (payload ∷ packets) rest

-- Why no more packets are read from `rest`: the length that comes next is not allowed, or the next
-- packet has not come as a whole.
pub data Stops (limit : ℕ) : RecvPacketStatus → List Bytes → Bytes → Type 0 where
  not_allowed :
      {a b c d : ℕ} {bytes : Bytes} {packets : List Bytes}
      → (big_endian a b c d ≡ 0) ⊎ (limit < big_endian a b c d)
      → Stops limit protocol_error packets (a ∷ b ∷ c ∷ d ∷ bytes)
  no_length :
      {status : RecvPacketStatus} {rest : Bytes} {packets : List Bytes}
      → length rest < 4
      → ((status ≡ would_block) × (packets ≡ [])) ⊎ ((status ≡ ok) × (0 < length packets))
      → Stops limit status packets rest
  no_payload :
      {status : RecvPacketStatus} {a b c d : ℕ} {bytes : Bytes} {packets : List Bytes}
      → length bytes < big_endian a b c d
      → big_endian a b c d ≤ limit
      → ((status ≡ would_block) × (packets ≡ [])) ⊎ ((status ≡ ok) × (0 < length packets))
      → Stops limit status packets (a ∷ b ∷ c ∷ d ∷ bytes)

frame_shape :
    (limit a b c d : ℕ) (bytes payload rest : Bytes)
    → next_frame limit (a ∷ b ∷ c ∷ d ∷ bytes) ≡ frame payload rest
    → (length payload ≡ big_endian a b c d)
      × (0 < length payload)
      × (length payload ≤ limit)
      × (payload ++ rest ≡ bytes)
unfolding next_frame payload_length
frame_shape limit a b c d bytes payload rest e =
    let size = big_endian a b c d in
    let step : 4 + size ≡ suc (suc (suc (suc size))) = omega arith in
    let tail : drop (4 + size) (a ∷ b ∷ c ∷ d ∷ bytes) ≡ drop size bytes = rw step in
    ground (arith, tail, take-append-drop size bytes, length-take size bytes)

-- A frame is at least its length field.
frame-Frames :
    (limit : ℕ) (buffer payload rest leftover : Bytes) (packets : List Bytes)
    → next_frame limit buffer ≡ frame payload rest
    → Frames limit rest packets leftover
    → Frames limit buffer (payload ∷ packets) leftover
frame-Frames limit (a ∷ b ∷ c ∷ d ∷ bytes) payload rest leftover packets e frames =
    let (size, some_byte, fits, same) = frame_shape limit a b c d bytes payload rest e in
    rw (sym same) (cons size some_byte fits frames)
frame-Frames limit (a ∷ b ∷ c ∷ []) payload rest leftover packets e frames =
    unfold next_frame in absurd (cc)
frame-Frames limit (a ∷ b ∷ []) payload rest leftover packets e frames =
    unfold next_frame in absurd (cc)
frame-Frames limit (a ∷ []) payload rest leftover packets e frames =
    unfold next_frame in absurd (cc)
frame-Frames limit [] payload rest leftover packets e frames = unfold next_frame in absurd (cc)

finish_status :
    (packets : List Bytes) (buffer : Bytes)
    → (((finish buffer packets).0.status ≡ would_block) × (packets ≡ []))
      ⊎ (((finish buffer packets).0.status ≡ ok) × (0 < length packets))
finish_status [] buffer = inl (refl, refl)
finish_status (p ∷ packets) buffer = inr (refl, omega arith)

incomplete-Stops :
    (limit : ℕ) (buffer : Bytes) (packets : List Bytes)
    → next_frame limit buffer ≡ incomplete
    → Stops limit (finish buffer packets).0.status packets buffer
incomplete-Stops limit (a ∷ b ∷ c ∷ d ∷ bytes) packets e =
    let cuts : Cuts limit (a ∷ b ∷ c ∷ d ∷ bytes) incomplete =
      rw e at (next_frame-Cuts limit (a ∷ b ∷ c ∷ d ∷ bytes)) in
    unfold payload_length in
    no_payload {a = a} {b = b} {c = c} {d = d} {bytes = bytes} (omega arith) (omega arith)
      (finish_status packets (a ∷ b ∷ c ∷ d ∷ bytes))
incomplete-Stops limit (a ∷ b ∷ c ∷ []) packets e =
    no_length (omega arith) (finish_status packets (a ∷ b ∷ c ∷ []))
incomplete-Stops limit (a ∷ b ∷ []) packets e =
    no_length (omega arith) (finish_status packets (a ∷ b ∷ []))
incomplete-Stops limit (a ∷ []) packets e = no_length (omega arith) (finish_status packets (a ∷ []))
incomplete-Stops limit [] packets e = no_length (omega arith) (finish_status packets [])

malformed-Stops :
    (limit : ℕ) (buffer : Bytes) (packets : List Bytes)
    → next_frame limit buffer ≡ malformed
    → Stops limit protocol_error packets buffer
malformed-Stops limit (a ∷ b ∷ c ∷ d ∷ bytes) packets e =
    let cuts : Cuts limit (a ∷ b ∷ c ∷ d ∷ bytes) malformed =
      rw e at (next_frame-Cuts limit (a ∷ b ∷ c ∷ d ∷ bytes)) in
    unfold payload_length in not_allowed cuts.1
malformed-Stops limit (a ∷ b ∷ c ∷ []) packets e = unfold next_frame in absurd (cc)
malformed-Stops limit (a ∷ b ∷ []) packets e = unfold next_frame in absurd (cc)
malformed-Stops limit (a ∷ []) packets e = unfold next_frame in absurd (cc)
malformed-Stops limit [] packets e = unfold next_frame in absurd (cc)

-- The loop behind packets that it has cut off already.
loop-Stops :
    (n limit : ℕ) (buffer : Bytes) (packets : List Bytes)
    → length buffer < n
    → let (r, rest) = extract_packets limit buffer packets in Stops limit r.status r.packets rest
loop-Stops zero limit buffer packets h = absurd (omega arith)
loop-Stops (suc n) limit buffer packets h = elim (Frame-cases (next_frame limit buffer)) [
  | inl e ↦ rw (extract_at limit buffer packets e) (incomplete-Stops limit buffer packets e)
  | inr (inl e) ↦ rw (extract_at limit buffer packets e) (malformed-Stops limit buffer packets e)
  | inr (inr (payload, rest, e)) ↦
      let shorter = next_frame_shorter limit buffer payload rest e in
      rw (extract_at limit buffer packets e)
        (loop-Stops n limit rest (packets ++ payload ∷ []) (omega arith))
]

loop-Frames :
    (n limit : ℕ) (buffer : Bytes)
    → length buffer < n
    → let (r, rest) = extract_packets limit buffer [] in Frames limit buffer r.packets rest
loop-Frames zero limit buffer h = absurd (omega arith)
loop-Frames (suc n) limit buffer h = elim (Frame-cases (next_frame limit buffer)) [
  | inl e ↦ rw (extract_at limit buffer [] e) nil
  | inr (inl e) ↦ rw (extract_at limit buffer [] e) nil
  | inr (inr (payload, rest, e)) ↦
      let shorter = next_frame_shorter limit buffer payload rest e in
      rw (extract_at limit buffer [] e ∙ extract_packets-prepend limit rest (payload ∷ [])) (
        frame-Frames limit buffer payload rest (extract_packets limit rest []).1
          (extract_packets limit rest []).0.packets e (loop-Frames n limit rest (omega arith)))
]

-- A call that drains the socket cuts whatever bytes it has, those left over and those received, into
-- allowed packets, each behind its four bytes of length, and a rest that it keeps. It stops there
-- because the length that comes next is zero or above the limit, and only then reports a protocol
-- error, or because the next packet is not there as a whole; it then reports whether there are
-- packets.
pub recv_packets_et-Frames :
    (recvs : Recvs) (buffer : Bytes) (limit : ℕ)
    → ending_of recvs ≡ again
    → let (r, rest) = recv_packets_et recvs buffer limit in
      Frames limit (buffer ++ bytes_of recvs) r.packets rest × Stops limit r.status r.packets rest
recv_packets_et-Frames recvs buffer limit e =
    let stream = buffer ++ bytes_of recvs in
    rw (recv_packets_et-again recvs buffer limit e) (
      loop-Frames (suc (length stream)) limit stream (omega arith),
      loop-Stops (suc (length stream)) limit stream [] (omega arith),
    )
