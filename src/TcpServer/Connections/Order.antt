-- ===== src/TcpServer/Connections/Order.antt =====
-- What the kernel takes of a connection's packets, in which order, and how much waits.
use cpp_chat.Base.{
  ◌≡◌, refl, sym, ap, subst, ◌∙◌, true, false, Bool, Bool-cases, inl, inr, List, [], ◌∷◌, ◌++◌,
  Option, none, some, arith, Bytes, length, drop, is_empty, if◌then◌else◌, append-nil, append_assoc,
  take-append-drop, take_all,
}
use cpp_chat.PacketCodec.{
  SendStatus, sent_all, would_block, io_error, SendResult, send_all, encode_packet,
}
use cpp_chat.PacketCodec.Sending.{IsHonest, IsPrefixSent, send_all-IsPrefixSent}
use cpp_chat.ServerConfig.{ServerConfig}
use cpp_chat.TcpServer.Connections.{
  ConnectionState, Answer, Sending, append_packet, after_send, send_packet, send_to_client,
  after_flush, flush_connection,
}

-- What happens to a connection that is kept: a payload is sent to it, or it can be written to again.
pub data Operation : Type 0 where
  send : Answer → Bytes → Operation
  flush : Answer → Operation

unfoldable pub operate : ServerConfig → Operation → ConnectionState → Sending
unfolding send_to_client flush_connection
operate config (send answer payload) connection = send_to_client config answer connection payload
operate config (flush answer) connection = flush_connection answer connection

abbrev packet_or_none : Option Bytes → Bytes
packet_or_none none = []
packet_or_none (some packet) = packet

-- The packet of an operation; a payload that is refused has none.
unfoldable pub packet_of : Operation → Bytes
unfolding encode_packet
packet_of (send answer payload) = packet_or_none (encode_packet payload)
packet_of (flush answer) = []

-- The calls of `send` are answered with no more bytes than they were given.
unfoldable pub IsAnswered : Operation → ConnectionState → Type 0
unfolding packet_of
IsAnswered (send answer payload) connection =
    IsHonest answer.sends (length (packet_of (send answer payload)))
IsAnswered (flush answer) connection = IsHonest answer.sends (length connection.write_buffer)

-- The bytes that are not yet taken, behind those that are, are all bytes there are; of a connection
-- that is kept they wait in its write buffer.
pub record IsOrdered (stream : Bytes) (o : Sending) : Type 0 where
  pub rest : Bytes
  pub complete : o.wire ++ rest ≡ stream
  pub waiting : o.success ≡ true → rest ≡ o.connection.write_buffer

module _ (packet : Bytes) (result : SendResult) (wire : Bytes)
    (p : IsPrefixSent packet result wire) where
  sent_and_rest : wire ++ drop result.sent packet ≡ packet
  sent_and_rest = rw p.taken (take-append-drop result.sent packet)

  all_sent : result.status ≡ sent_all → wire ≡ packet
  all_sent e = let h = p.finished.0 e in p.taken ∙ take_all result.sent packet (omega arith)

is_empty_nil : (xs : Bytes) → is_empty xs ≡ true → xs ≡ []
is_empty_nil [] h = refl
is_empty_nil (x ∷ xs) h = absurd (cc)

after_send-IsOrdered :
    (config : ServerConfig) (mode_set : Bool) (c : ConnectionState) (packet : Bytes)
    (result : SendResult) (wire : Bytes) (status : SendStatus)
    → result.status ≡ status
    → IsPrefixSent packet result wire
    → c.write_buffer ≡ []
    → IsOrdered packet (after_send config mode_set c packet result wire)
unfolding after_send
after_send-IsOrdered config mode_set c packet result wire sent_all e p h = rw e (record {
  rest = [];
  complete = append-nil wire ∙ all_sent packet result wire p e;
  waiting = λ _. sym h;
})
after_send-IsOrdered config mode_set c packet result wire would_block e p h = rw e (record {
  rest = drop result.sent packet;
  complete = sent_and_rest packet result wire p;
  waiting = λ _. refl;
})
after_send-IsOrdered config mode_set c packet result wire io_error e p h = rw e (record {
  rest = drop result.sent packet;
  complete = sent_and_rest packet result wire p;
  waiting = λ ok. absurd (cc);
})

after_flush-IsOrdered :
    (mode_set : Bool) (c : ConnectionState) (result : SendResult) (wire : Bytes)
    (status : SendStatus)
    → result.status ≡ status
    → IsPrefixSent c.write_buffer result wire
    → IsOrdered c.write_buffer (after_flush mode_set c result wire)
unfolding after_flush
after_flush-IsOrdered mode_set c result wire sent_all e p = rw e (record {
  rest = [];
  complete = append-nil wire ∙ all_sent c.write_buffer result wire p e;
  waiting = λ _. refl;
})
after_flush-IsOrdered mode_set c result wire would_block e p = rw e (record {
  rest = drop result.sent c.write_buffer;
  complete = sent_and_rest c.write_buffer result wire p;
  waiting = λ _. refl;
})
after_flush-IsOrdered mode_set c result wire io_error e p = rw e (record {
  rest = drop result.sent c.write_buffer;
  complete = sent_and_rest c.write_buffer result wire p;
  waiting = λ ok. absurd (cc);
})

send_packet-IsOrdered :
    (config : ServerConfig) (answer : Answer) (c : ConnectionState) (packet : Option Bytes)
    → IsHonest answer.sends (length (packet_or_none packet))
    → IsOrdered (c.write_buffer ++ packet_or_none packet) (send_packet config answer c packet)
unfolding send_packet append_packet
send_packet-IsOrdered config answer c none honest = record {
  rest = c.write_buffer ++ [];
  complete = refl;
  waiting = λ ok. append-nil c.write_buffer;
}
send_packet-IsOrdered config answer c (some packet) honest =
    elim (Bool-cases (is_empty c.write_buffer)) [
      | inl e ↦
          let e' = is_empty_nil c.write_buffer e in
          let (result, wire) = send_all answer.sends packet in
          let h =
            after_send-IsOrdered config answer.mode_set c packet result wire _ refl
              (send_all-IsPrefixSent answer.sends packet honest) e' in
          rw e (
            subst
              (λ b.
                IsOrdered (b ++ packet) (after_send config answer.mode_set c packet result wire))
              (sym e') h)
      | inr e ↦
          rw e (record { rest = c.write_buffer ++ packet; complete = refl; waiting = λ _. refl })
    ]

operate-IsOrdered :
    (config : ServerConfig) (op : Operation) (c : ConnectionState)
    → IsAnswered op c
    → IsOrdered (c.write_buffer ++ packet_of op) (operate config op c)
unfolding operate packet_of IsAnswered send_to_client flush_connection
operate-IsOrdered config (send answer payload) c honest =
    send_packet-IsOrdered config answer c (encode_packet payload) honest
operate-IsOrdered config (flush answer) c honest = rw (append-nil c.write_buffer) (
    after_flush-IsOrdered answer.mode_set c (send_all answer.sends c.write_buffer).0
      (send_all answer.sends c.write_buffer).1 _ refl
      (send_all-IsPrefixSent answer.sends c.write_buffer honest))

-- One operation after the other, up to the first that ends the connection.
unfoldable pub run : ServerConfig → List Operation → Sending → Sending
unfolding operate
run config [] o = o
run config (op ∷ ops) o =
    let next = operate config op o.connection in
    let later = run config ops (record next { wire = o.wire ++ next.wire }) in
    if o.success then later else o

unfoldable pub packets_of : List Operation → Bytes
unfolding packet_of
packets_of [] = []
packets_of (op ∷ ops) = packet_of op ++ packets_of ops

-- Each operation that is reached is answered with no more bytes than it gave.
unfoldable pub AreAnswered : ServerConfig → List Operation → Sending → Type 0
unfolding IsAnswered operate
AreAnswered config [] o = Unit
AreAnswered config (op ∷ ops) o =
    let next = operate config op o.connection in
    let later = AreAnswered config ops (record next { wire = o.wire ++ next.wire }) in
    if o.success then IsAnswered op o.connection × later else Unit

-- More bytes behind a connection that has ended, and one more operation on one that is kept.
ended-IsOrdered :
    (stream more : Bytes) (o : Sending)
    → o.success ≡ false
    → IsOrdered stream o
    → IsOrdered (stream ++ more) o
ended-IsOrdered stream more o e v = record {
  rest = v.rest ++ more;
  complete = sym (append_assoc o.wire v.rest more) ∙ ap (λ b. b ++ more) v.complete;
  waiting = λ ok. absurd (cc);
}

next-IsOrdered :
    (config : ServerConfig) (stream : Bytes) (op : Operation) (o : Sending)
    → o.success ≡ true
    → IsAnswered op o.connection
    → IsOrdered stream o
    → IsOrdered (stream ++ packet_of op) (record (operate config op o.connection) {
      wire = o.wire ++ (operate config op o.connection).wire;
    })
next-IsOrdered config stream op o e honest v =
    let w = operate-IsOrdered config op o.connection honest in
    let next = operate config op o.connection in
    record {
      rest = w.rest;
      complete =
          append_assoc o.wire next.wire w.rest
          ∙ (ap (λ b. o.wire ++ b) (w.complete ∙ ap (λ b. b ++ packet_of op) (sym (v.waiting e)))
              ∙ (sym (append_assoc o.wire v.rest (packet_of op))
                  ∙ ap (λ b. b ++ packet_of op) v.complete));
      waiting = w.waiting;
    }

-- One operation, whether the connection was kept before it or not.
reached-IsOrdered :
    (config : ServerConfig) (stream more : Bytes) (op : Operation) (o later : Sending) (kept : Bool)
    → o.success ≡ kept
    → {Later : Type 0} → (if kept then IsAnswered op o.connection × Later else Unit)
    → IsOrdered stream o
    → (Later
        → IsOrdered (stream ++ packet_of op) (record (operate config op o.connection) {
          wire = o.wire ++ (operate config op o.connection).wire;
        })
        → IsOrdered ((stream ++ packet_of op) ++ more) later)
    → IsOrdered (stream ++ (packet_of op ++ more)) (if kept then later else o)
reached-IsOrdered config stream more op o later false e honest v goes_on =
    ended-IsOrdered stream (packet_of op ++ more) o e v
reached-IsOrdered config stream more op o later true e (honest, honest') v goes_on =
    subst (λ b. IsOrdered b later) (append_assoc stream (packet_of op) more)
      (goes_on honest' (next-IsOrdered config stream op o e honest v))

-- Whatever a connection is sent, and whenever it can be written to: the bytes that the kernel has
-- taken are at each moment a prefix of the connection's packets, whole and in the order in which they
-- were sent, and as long as the connection is kept the rest of them waits in its write buffer. The
-- kernel is taken never to accept more bytes than it is given.
pub run-IsOrdered :
    (config : ServerConfig) (ops : List Operation) (stream : Bytes) (o : Sending)
    → AreAnswered config ops o
    → IsOrdered stream o
    → IsOrdered (stream ++ packets_of ops) (run config ops o)
unfolding run packets_of AreAnswered
run-IsOrdered config [] stream o honest v = rw (append-nil stream) v
run-IsOrdered config (op ∷ ops) stream o honest v =
    let next = operate config op o.connection in
    let o' = record next { wire = o.wire ++ next.wire } in
    reached-IsOrdered config stream (packets_of ops) op o (run config ops o') o.success refl honest
      v (λ h w. run-IsOrdered config ops (stream ++ packet_of op) o' h w)
