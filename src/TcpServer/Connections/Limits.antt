-- ===== src/TcpServer/Connections/Limits.antt =====
-- Writing to a connection leaves its numbers alone and keeps its buffers within their limits.
use cpp_chat.Base.{
  ℕ, zero, suc, take, ◌+◌, ◌-◌, ◌<◌, ◌≡◌, refl, true, false, Bool, Bool-cases, inl, inr, [], ◌∷◌,
  ◌++◌, Option, none, some, arith, Bytes, length, drop, is_empty, length-drop,
}
use cpp_chat.PacketCodec.{
  SendStatus, sent_all, would_block, io_error, SendResult, Sends, accepted, interrupted, again,
  failed, send_loop, send_all, encode_packet,
}
use cpp_chat.ServerConfig.{ServerConfig}
use cpp_chat.TcpServer.Connections.{
  ConnectionState, Answer, Sending, append_packet, after_send, send_packet, send_to_client,
  after_flush, flush_connection,
}
use cpp_chat.TcpServer.Connections.Links.{IsWithinLimits}

-- The numbers of the connection, and what it was read.
pub record IsSame (c c' : ConnectionState) : Type 0 where
  pub connection_id : c'.connection_id ≡ c.connection_id
  pub fd : c'.fd ≡ c.fd
  pub generation : c'.generation ≡ c.generation
  pub read_buffer : c'.read_buffer ≡ c.read_buffer

-- What a call leaves of a connection: the same numbers, and its limits if it succeeds.
pub record IsKept (config : ServerConfig) (c : ConnectionState) (o : Sending) : Type 0 where
  pub same : IsSame c o.connection
  pub limits : o.success ≡ true → IsWithinLimits config o.connection

IsSame-refl : (c : ConnectionState) → IsSame c c
IsSame-refl c = record { connection_id = refl; fd = refl; generation = refl; read_buffer = refl }

-- A call that would block has bytes left.
send_loop_waits :
    (sends : Sends) (packet : Bytes) (sent : ℕ) (wire : Bytes)
    → (send_loop sends packet sent wire).0.status ≡ would_block
    → (send_loop sends packet sent wire).0.sent < length packet
unfolding send_loop
send_loop_waits (accepted n sends) packet sent wire h = ground (
  arith,
  send_loop_waits sends packet (sent + suc n)
      (wire ++ take (suc n) (take (length packet - sent) (drop sent packet))),
)
send_loop_waits (interrupted sends) packet sent wire h =
    ground (arith, send_loop_waits sends packet sent wire)
send_loop_waits again packet sent wire h = ground arith
send_loop_waits (failed errno) packet sent wire h = ground arith

send_all_waits :
    (sends : Sends) (packet : Bytes)
    → (send_all sends packet).0.status ≡ would_block
    → (send_all sends packet).0.sent < length packet
unfolding send_all
send_all_waits sends packet = send_loop_waits sends packet 0 []

drop_not_empty : (n : ℕ) (xs : Bytes) → n < length xs → is_empty (drop n xs) ≡ false
drop_not_empty n [] h = absurd (omega arith)
drop_not_empty zero (x ∷ xs) h = refl
drop_not_empty (suc n) (x ∷ xs) h = drop_not_empty n xs (omega arith)

append_not_empty : (xs ys : Bytes) → is_empty xs ≡ false → is_empty (xs ++ ys) ≡ false
append_not_empty [] ys h = absurd (cc)
append_not_empty (x ∷ xs) ys h = refl

module _ (config : ServerConfig) (c : ConnectionState) (v : IsWithinLimits config c) where
  after_send-IsKept :
      (mode_set : Bool) (packet : Bytes) (result : SendResult) (wire : Bytes) (status : SendStatus)
      → result.status ≡ status
      → is_empty c.write_buffer ≡ true
      → IsKept config c (after_send config mode_set c packet result wire)
  unfolding after_send
  after_send-IsKept mode_set packet result wire sent_all e h =
      rw e (record { same = IsSame-refl c; limits = λ ok. v })
  after_send-IsKept mode_set packet result wire would_block e h = rw e (record {
    same = record { connection_id = refl; fd = refl; generation = refl; read_buffer = refl };
    limits = λ ok. record {
      read_bounded = v.read_bounded;
      write_bounded = ground arith;
      closing_waits = λ closing. absurd (let w = v.closing_waits closing in cc);
    };
  })
  after_send-IsKept mode_set packet result wire io_error e h =
      rw e (record { same = IsSame-refl c; limits = λ ok. absurd (cc) })

  send_packet-IsKept :
      (answer : Answer) (packet : Option Bytes)
      → IsKept config c (send_packet config answer c packet)
  unfolding send_packet append_packet
  send_packet-IsKept answer none = record { same = IsSame-refl c; limits = λ ok. absurd (cc) }
  send_packet-IsKept answer (some packet) = elim (Bool-cases (is_empty c.write_buffer)) [
    | inl e ↦ rw e (
        after_send-IsKept answer.mode_set packet (send_all answer.sends packet).0
          (send_all answer.sends packet).1 _ refl e)
    | inr e ↦ rw e (record {
      same = record { connection_id = refl; fd = refl; generation = refl; read_buffer = refl };
      limits = λ ok. record {
        read_bounded = v.read_bounded;
        write_bounded = ground arith;
        closing_waits = λ closing. append_not_empty c.write_buffer packet e;
      };
    })
  ]

  pub send_to_client-IsKept :
      (answer : Answer) (payload : Bytes) → IsKept config c (send_to_client config answer c payload)
  unfolding send_to_client
  send_to_client-IsKept answer payload = send_packet-IsKept answer (encode_packet payload)

  after_flush-IsKept :
      (mode_set : Bool) (result : SendResult) (wire : Bytes) (status : SendStatus)
      → result.status ≡ status
      → (result.status ≡ would_block → result.sent < length c.write_buffer)
      → IsKept config c (after_flush mode_set c result wire)
  unfolding after_flush
  after_flush-IsKept mode_set result wire sent_all e h = rw e (record {
    same = record { connection_id = refl; fd = refl; generation = refl; read_buffer = refl };
    limits = λ ok. record {
      read_bounded = v.read_bounded;
      write_bounded = omega arith;
      closing_waits = λ closing. ground arith;
    };
  })
  after_flush-IsKept mode_set result wire would_block e h = rw e (record {
    same = record { connection_id = refl; fd = refl; generation = refl; read_buffer = refl };
    limits = λ ok. record {
      read_bounded = v.read_bounded;
      write_bounded =
          let w = v.write_bounded in omega (arith, length-drop result.sent c.write_buffer);
      closing_waits = λ closing. drop_not_empty result.sent c.write_buffer (h e);
    };
  })
  after_flush-IsKept mode_set result wire io_error e h =
      rw e (record { same = IsSame-refl c; limits = λ ok. absurd (cc) })

  pub flush_connection-IsKept : (answer : Answer) → IsKept config c (flush_connection answer c)
  unfolding flush_connection
  flush_connection-IsKept answer =
      after_flush-IsKept answer.mode_set (send_all answer.sends c.write_buffer).0
        (send_all answer.sends c.write_buffer).1 _ refl (send_all_waits answer.sends c.write_buffer)
