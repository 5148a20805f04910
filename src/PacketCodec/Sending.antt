-- ===== src/PacketCodec/Sending.antt =====
-- `send_all` hands the kernel a prefix of the packet, and says how long it is.
use cpp_chat.Base.{
  ℕ, suc, ◌+◌, ◌-◌, ◌≤◌, ◌≡◌, ◌↔◌, refl, sym, [], ◌++◌, arith, Bytes, length, take, drop,
  length-drop, take-add, take_all,
}
use cpp_chat.PacketCodec.{
  sent_all, SendResult, Sends, accepted, interrupted, again, failed, send_loop, send_all,
}

-- `send` never takes more bytes than it is given.
abbrev pub IsHonest : Sends → ℕ → Type 0
IsHonest (accepted n sends) left = (suc n ≤ left) × IsHonest sends (left - suc n)
IsHonest (interrupted sends) left = IsHonest sends left
IsHonest _ left = Unit

-- What a result says of the packet and of the bytes that were taken.
pub record IsPrefixSent (packet : Bytes) (r : SendResult) (wire : Bytes) : Type 0 where
  pub taken : wire ≡ take r.sent packet
  pub bounded : r.sent ≤ length packet
  pub finished : (r.status ≡ sent_all) ↔ (r.sent ≡ length packet)

send_loop-IsPrefixSent :
    (sends : Sends) (packet : Bytes) (sent : ℕ) (wire : Bytes)
    → sent ≤ length packet
    → wire ≡ take sent packet
    → (left : ℕ) → left ≡ length packet - sent
    → IsHonest sends left
    → IsPrefixSent packet (send_loop sends packet sent wire).0 (send_loop sends packet sent wire).1
unfolding send_loop
send_loop-IsPrefixSent (accepted n sends) packet sent wire h e left l honest =
    let whole =
      take_all (length packet - sent) (drop sent packet) (omega (arith, length-drop sent packet)) in
    let grown : wire ++ take (suc n) (take (length packet - sent) (drop sent packet))
        ≡ take (sent + suc n) packet =
      rw (e, whole) (sym (take-add sent (suc n) packet)) in
    ground (
      arith,
      send_loop-IsPrefixSent sends packet (sent + suc n) _ (omega arith) grown (left - suc n)
          (omega arith) honest.1,
    )
send_loop-IsPrefixSent (interrupted sends) packet sent wire h e left l honest =
    ground (arith, send_loop-IsPrefixSent sends packet sent wire h e left l honest)
send_loop-IsPrefixSent again packet sent wire h e left l honest = ground arith
send_loop-IsPrefixSent (failed errno) packet sent wire h e left l honest = ground arith

-- If `send` never takes more than it is given, the bytes taken are the first `sent` bytes of the
-- packet, and all of them are taken exactly when the status says so.
pub send_all-IsPrefixSent :
    (sends : Sends) (packet : Bytes)
    → IsHonest sends (length packet)
    → IsPrefixSent packet (send_all sends packet).0 (send_all sends packet).1
unfolding send_all
send_all-IsPrefixSent sends packet honest =
    send_loop-IsPrefixSent sends packet 0 [] (omega arith) refl (length packet) (omega arith) honest
