-- ===== src/PacketCodec/Stream.antt =====
-- `recv_packets_et` reads a stream: how the kernel cuts it into answers, and when the server asks,
-- does not matter.
use cpp_chat.Base.{
  ℕ, zero, suc, ◌+◌, ◌<◌, max, ◌≡◌, refl, sym, ap, ◌∙◌, inl, inr, Bool, true, false, List, [], ◌∷◌,
  ◌++◌, arith, append_assoc, append-nil, if◌then◌else◌, Bytes, length, is_empty,
}
use cpp_chat.PacketCodec.Extract.{
  Frame-cases, next_frame-Cuts, next_frame-append, next_frame_shorter, extract_at, extend, Cuts,
}
use cpp_chat.PacketCodec.{
  incomplete, next_frame, extract_packets, finish, RecvPacketResult, RecvPacketStatus,
  protocol_error, ok, would_block, packet_header_size, Recvs, received, interrupted, again,
  recv_packets_et,
}

abbrev pub is_refusal : RecvPacketStatus → Bool
is_refusal protocol_error = true
is_refusal _ = false

-- The loop taken up again when the bytes `more` have come.
abbrev pub resume : ℕ → Bytes → RecvPacketResult × Bytes → RecvPacketResult × Bytes
resume limit more (r, rest) =
    if is_refusal r.status
    then (r, rest ++ more)
    else extract_packets limit (rest ++ more) r.packets

resume-finish :
    (limit : ℕ) (buffer more : Bytes) (packets : List Bytes)
    → resume limit more (finish buffer packets) ≡ extract_packets limit (buffer ++ more) packets
resume-finish limit buffer more [] = refl
resume-finish limit buffer more (p ∷ packets) = refl

append_bounded :
    (n limit : ℕ) (buffer more : Bytes) (packets : List Bytes)
    → length buffer < n
    → extract_packets limit (buffer ++ more) packets
      ≡ resume limit more (extract_packets limit buffer packets)
append_bounded zero limit buffer more packets h = absurd (omega arith)
append_bounded (suc n) limit buffer more packets h = elim (Frame-cases (next_frame limit buffer)) [
  | inl e ↦ rw (extract_at limit buffer packets e) (sym (resume-finish limit buffer more packets))
  | inr (inl e) ↦
      let later = next_frame-append limit buffer more (λ q. cc) ∙ ap (λ f. extend f more) e in
      rw (extract_at limit buffer packets e) (extract_at limit (buffer ++ more) packets later)
  | inr (inr (payload, rest, e)) ↦
      let later = next_frame-append limit buffer more (λ q. cc) ∙ ap (λ f. extend f more) e in
      let shorter = next_frame_shorter limit buffer payload rest e in
      rw (extract_at limit buffer packets e) (
        extract_at limit (buffer ++ more) packets later
        ∙ append_bounded n limit rest more (packets ++ payload ∷ []) (omega arith))
]

-- Bytes that come later are read as if they had been there at once.
pub extract_packets-append :
    (limit : ℕ) (buffer more : Bytes) (packets : List Bytes)
    → extract_packets limit (buffer ++ more) packets
      ≡ resume limit more (extract_packets limit buffer packets)
extract_packets-append limit buffer more packets =
    append_bounded (suc (length buffer)) limit buffer more packets (omega arith)

-- What a loop that starts with `packets` returns, from what one that starts with none returns.
abbrev pub prepend : List Bytes → RecvPacketResult × Bytes → RecvPacketResult × Bytes
prepend packets (r, rest) = (
  record {
    status =
        if is_refusal r.status
        then protocol_error
        else if is_empty (packets ++ r.packets)
        then would_block
        else ok;
    packets = packets ++ r.packets;
    error_code = r.error_code;
  },
  rest,
)

prepend-finish :
    (buffer : Bytes) (front packets : List Bytes)
    → finish buffer (front ++ packets) ≡ prepend front (finish buffer packets)
prepend-finish buffer front [] = refl
prepend-finish buffer front (p ∷ packets) = refl

prepend_bounded :
    (n limit : ℕ) (buffer : Bytes) (front packets : List Bytes)
    → length buffer < n
    → extract_packets limit buffer (front ++ packets)
      ≡ prepend front (extract_packets limit buffer packets)
prepend_bounded zero limit buffer front packets h = absurd (omega arith)
prepend_bounded (suc n) limit buffer front packets h =
    elim (Frame-cases (next_frame limit buffer)) [
      | inl e ↦
          rw (extract_at limit buffer packets e)
            (extract_at limit buffer (front ++ packets) e ∙ prepend-finish buffer front packets)
      | inr (inl e) ↦
          rw (extract_at limit buffer packets e) (extract_at limit buffer (front ++ packets) e)
      | inr (inr (payload, rest, e)) ↦
          let shorter = next_frame_shorter limit buffer payload rest e in
          rw (extract_at limit buffer packets e) (
            extract_at limit buffer (front ++ packets) e
            ∙ rw append_assoc
                (prepend_bounded n limit rest front (packets ++ payload ∷ []) (omega arith)))
    ]

pub extract_packets-prepend :
    (limit : ℕ) (buffer : Bytes) (packets : List Bytes)
    → extract_packets limit buffer packets ≡ prepend packets (extract_packets limit buffer [])
extract_packets-prepend limit buffer packets =
    ap (extract_packets limit buffer) (sym (append-nil packets))
    ∙ prepend_bounded (suc (length buffer)) limit buffer packets [] (omega arith)

-- All bytes that a run of `recv` delivers, and the answer that ends it.
abbrev pub bytes_of : Recvs → Bytes
bytes_of (received byte bytes recvs) = (byte ∷ bytes) ++ bytes_of recvs
bytes_of (interrupted recvs) = bytes_of recvs
bytes_of _ = []

abbrev pub ending_of : Recvs → Recvs
ending_of (received byte bytes recvs) = ending_of recvs
ending_of (interrupted recvs) = ending_of recvs
ending_of recvs = recvs

-- Only the bytes and the ending count, not the cuts and the interruptions.
pub recv_packets_et-bytes_of :
    (recvs : Recvs) (buffer : Bytes) (limit : ℕ)
    → recv_packets_et recvs buffer limit
      ≡ recv_packets_et (ending_of recvs) (buffer ++ bytes_of recvs) limit
unfolding recv_packets_et
recv_packets_et-bytes_of (received byte bytes recvs) buffer limit =
    recv_packets_et-bytes_of recvs (buffer ++ byte ∷ bytes) limit ∙ rw append_assoc
recv_packets_et-bytes_of (interrupted recvs) buffer limit =
    recv_packets_et-bytes_of recvs buffer limit
recv_packets_et-bytes_of _ buffer limit = rw append-nil

pub recv_packets_et-again :
    (recvs : Recvs) (buffer : Bytes) (limit : ℕ)
    → ending_of recvs ≡ again
    → recv_packets_et recvs buffer limit ≡ extract_packets limit (buffer ++ bytes_of recvs) []
unfolding recv_packets_et
recv_packets_et-again recvs buffer limit h =
    recv_packets_et-bytes_of recvs buffer limit
    ∙ ap (λ r. recv_packets_et r (buffer ++ bytes_of recvs) limit) h

resume_taken :
    (limit : ℕ) (more : Bytes) (x : RecvPacketResult × Bytes)
    → is_refusal x.0.status ≡ false
    → resume limit more x ≡ prepend x.0.packets (extract_packets limit (x.1 ++ more) [])
resume_taken limit more x taken = rw taken (extract_packets-prepend limit (x.1 ++ more) x.0.packets)

-- Two calls that each drain the socket give what one call gives that gets all the bytes at once,
-- unless the first one refuses them.
pub recv_packets_et_twice :
    (first second once : Recvs) (buffer : Bytes) (limit : ℕ)
    → ending_of first ≡ again
    → ending_of second ≡ again
    → ending_of once ≡ again
    → bytes_of once ≡ bytes_of first ++ bytes_of second
    → is_refusal (recv_packets_et first buffer limit).0.status ≡ false
    → let (r, rest) = recv_packets_et first buffer limit in
      recv_packets_et once buffer limit ≡ prepend r.packets (recv_packets_et second rest limit)
recv_packets_et_twice first second once buffer limit e e' e'' bytes taken =
    let one = recv_packets_et-again first buffer limit e in
    recv_packets_et-again once buffer limit e''
    ∙ ap (λ b. extract_packets limit (buffer ++ b) []) bytes
    ∙ ap (λ b. extract_packets limit b [])
        (sym (append_assoc buffer (bytes_of first) (bytes_of second)))
    ∙ extract_packets-append limit (buffer ++ bytes_of first) (bytes_of second) []
    ∙ ap (resume limit (bytes_of second)) (sym one)
    ∙ resume_taken limit (bytes_of second) (recv_packets_et first buffer limit) taken
    ∙ ap (prepend (recv_packets_et first buffer limit).0.packets)
        (sym (recv_packets_et-again second (recv_packets_et first buffer limit).1 limit e'))

-- Below this many bytes a buffer holds no whole frame that is allowed.
leftover_bounded :
    (n limit : ℕ) (buffer : Bytes) (packets : List Bytes)
    → length buffer < n
    → is_refusal (extract_packets limit buffer packets).0.status ≡ false
    → length (extract_packets limit buffer packets).1 < packet_header_size + max limit 1
leftover_bounded zero limit buffer packets h taken = absurd (omega arith)
leftover_bounded (suc n) limit buffer packets h taken =
    elim (Frame-cases (next_frame limit buffer)) [
      | inl e ↦
          let cuts : Cuts limit buffer incomplete = rw e at (next_frame-Cuts limit buffer) in
          rw (extract_at limit buffer packets e) (omega arith)
      | inr (inl e) ↦ absurd (ground (arith, extract_at limit buffer packets e))
      | inr (inr (payload, rest, e)) ↦
          let shorter = next_frame_shorter limit buffer payload rest e in
          rw (extract_at limit buffer packets e) (
            leftover_bounded n limit rest (packets ++ payload ∷ []) (omega arith)
              (rw (extract_at limit buffer packets e) at taken))
    ]

-- After a call that drains the socket and refuses nothing, less than one frame of the largest
-- allowed size is left in the read buffer.
pub recv_packets_et_leftover :
    (recvs : Recvs) (buffer : Bytes) (limit : ℕ)
    → ending_of recvs ≡ again
    → 0 < limit
    → is_refusal (recv_packets_et recvs buffer limit).0.status ≡ false
    → length (recv_packets_et recvs buffer limit).1 < packet_header_size + limit
recv_packets_et_leftover recvs buffer limit e pos taken =
    let same = recv_packets_et-again recvs buffer limit e in
    let h =
      leftover_bounded (suc (length (buffer ++ bytes_of recvs))) limit (buffer ++ bytes_of recvs) []
        (omega arith) (rw same at taken) in
    rw same (omega arith)
