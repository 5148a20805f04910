-- ===== src/PacketCodec/Extract.antt =====
-- The packet loop of `recv_packets_et`: it has rounds enough, its result does not depend on how
-- the stream was cut, and it leaves less than one frame behind.
use cpp_chat.Base.{
  ℕ, zero, suc, ◌+◌, ◌≤◌, ◌<◌, ◌≡◌, ◌≢◌, refl, ap, ◌∙◌, ◌⊎◌, inl, inr, List, [], ◌∷◌, ◌++◌, arith,
  Bytes, length, drop, length-drop, length-take, length-append, take-append_left, drop-append_left,
}
use cpp_chat.PacketCodec.{
  Frame, incomplete, malformed, frame, next_frame, payload_length, extract, extract_packets, finish,
  RecvPacketResult, protocol_error,
}

-- What a round says of the buffer.
abbrev pub Cuts : ℕ → Bytes → Frame → Type 0
Cuts limit buffer incomplete =
    (length buffer < 4)
    ⊎ ((length buffer < 4 + payload_length buffer) × (payload_length buffer ≤ limit))
Cuts limit buffer malformed =
    (4 ≤ length buffer) × ((payload_length buffer ≡ 0) ⊎ (limit < payload_length buffer))
Cuts limit buffer (frame payload rest) =
    (length buffer ≡ 4 + length payload + length rest)
    × (0 < length payload)
    × (length payload ≤ limit)

pub next_frame-Cuts : (limit : ℕ) (buffer : Bytes) → Cuts limit buffer (next_frame limit buffer)
unfolding next_frame
next_frame-Cuts limit buffer = ground (
  arith,
  length-drop 4 buffer,
  length-take (payload_length buffer) (drop 4 buffer),
  length-drop (4 + payload_length buffer) buffer,
)

-- The length field stands in the first four bytes.
pub payload_length-append :
    (buffer more : Bytes)
    → 4 ≤ length buffer
    → payload_length (buffer ++ more) ≡ payload_length buffer
unfolding payload_length
payload_length-append (a ∷ b ∷ c ∷ d ∷ rest) more h = refl
payload_length-append (a ∷ b ∷ c ∷ []) more h = absurd (omega arith)
payload_length-append (a ∷ b ∷ []) more h = absurd (omega arith)
payload_length-append (a ∷ []) more h = absurd (omega arith)
payload_length-append [] more h = absurd (omega arith)

-- A round's verdict other than `incomplete` is not changed by bytes that come later.
abbrev pub extend : Frame → Bytes → Frame
extend incomplete more = incomplete
extend malformed more = malformed
extend (frame payload rest) more = frame payload (rest ++ more)

pub next_frame-append :
    (limit : ℕ) (buffer more : Bytes)
    → next_frame limit buffer ≢ incomplete
    → next_frame limit (buffer ++ more) ≡ extend (next_frame limit buffer) more
unfolding next_frame
next_frame-append limit buffer more h = ground (
  arith,
  length-append buffer more,
  payload_length-append buffer more,
  length-drop 4 buffer,
  drop-append_left 4 buffer more,
  take-append_left (payload_length buffer) (drop 4 buffer) more,
  drop-append_left (4 + payload_length buffer) buffer more,
)

pub Frame-cases :
    (f : Frame) → (f ≡ incomplete) ⊎ (f ≡ malformed) ⊎ ((p : Bytes) × (r : Bytes) × (f ≡ frame p r))
Frame-cases incomplete = inl refl
Frame-cases malformed = inr (inl refl)
Frame-cases (frame p r) = inr (inr (p, r, refl))

-- The result of a round, and of all that follow it.
abbrev pub after_round : ℕ → Bytes → List Bytes → Frame → RecvPacketResult × Bytes
after_round limit buffer packets incomplete = finish buffer packets
after_round limit buffer packets malformed =
    (record { status = protocol_error; packets = packets; error_code = 0 }, buffer)
after_round limit buffer packets (frame payload rest) =
    extract_packets limit rest (packets ++ payload ∷ [])

-- What a round leaves is shorter than the buffer was.
pub next_frame_shorter :
    (limit : ℕ) (buffer payload rest : Bytes)
    → next_frame limit buffer ≡ frame payload rest
    → length rest < length buffer
next_frame_shorter limit buffer payload rest e =
    let cuts : Cuts limit buffer (frame payload rest) = rw e at (next_frame-Cuts limit buffer) in
    omega arith

-- More rounds than bytes change nothing.
extract_rounds :
    (k n limit : ℕ) (buffer : Bytes) (packets : List Bytes)
    → length buffer ≤ k
    → length buffer ≤ n
    → extract k limit buffer packets ≡ extract n limit buffer packets
unfolding extract
extract_rounds zero zero limit buffer packets h h' = refl
extract_rounds zero (suc n) limit [] packets h h' = unfold next_frame in refl
extract_rounds zero (suc n) limit (x ∷ buffer) packets h h' = absurd (omega arith)
extract_rounds (suc k) zero limit [] packets h h' = unfold next_frame in refl
extract_rounds (suc k) zero limit (x ∷ buffer) packets h h' = absurd (omega arith)
extract_rounds (suc k) (suc n) limit buffer packets h h' =
    elim (Frame-cases (next_frame limit buffer)) [
      | inl e ↦ rw (e, extract)
      | inr (inl e) ↦ rw (e, extract)
      | inr (inr (payload, rest, e)) ↦
          let shorter = next_frame_shorter limit buffer payload rest e in
          rw (e, extract)
            (extract_rounds k n limit rest (packets ++ payload ∷ []) (omega arith) (omega arith))
    ]

-- The packet loop is what one round says, followed by the loop on the rest: its bound on the rounds
-- is never reached.
pub extract_packets_lem :
    (limit : ℕ) (buffer : Bytes) (packets : List Bytes)
    → extract_packets limit buffer packets
      ≡ after_round limit buffer packets (next_frame limit buffer)
unfolding extract_packets extract
extract_packets_lem limit [] packets = unfold next_frame in refl
extract_packets_lem limit (x ∷ buffer) packets =
    elim (Frame-cases (next_frame limit (x ∷ buffer))) [
      | inl e ↦ rw (e, extract)
      | inr (inl e) ↦ rw (e, extract)
      | inr (inr (payload, rest, e)) ↦
          let shorter = next_frame_shorter limit (x ∷ buffer) payload rest e in
          rw (e, extract)
            (extract_rounds (length buffer) (length rest) limit rest (packets ++ payload ∷ [])
              (omega arith) (omega arith))
    ]

pub extract_at :
    (limit : ℕ) (buffer : Bytes) (packets : List Bytes) {f : Frame}
    → next_frame limit buffer ≡ f
    → extract_packets limit buffer packets ≡ after_round limit buffer packets f
extract_at limit buffer packets e =
    extract_packets_lem limit buffer packets ∙ ap (after_round limit buffer packets) e
