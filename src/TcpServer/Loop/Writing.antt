-- ===== src/TcpServer/Loop/Writing.antt =====
-- Writing the responses and closing connections keep the maps linked.
use cpp_chat.Base.{
  ℕ, suc, ◌≡◌, refl, true, false, not, Bool, Bool-cases, Option-cases, inl, inr, List, [], ◌∷◌,
  some, is_empty, if◌then◌else◌, nat_eq,
}
use cpp_chat.Base.Maps.{lookup}
use cpp_chat.TcpServer.Queues.{QueuedResponse, QueuedClose}
use cpp_chat.TcpServer.Connections.{
  ConnectionState, TcpServer, Answer, Sending, send_to_client, find_connection, has_generation,
  is_current_connection, close_connection, put_sending,
}
use cpp_chat.TcpServer.Connections.Links.{IsLinked}
use cpp_chat.TcpServer.Connections.Limits.{IsKept, send_to_client-IsKept}
use cpp_chat.TcpServer.Connections.Changes.{
  close_connection-IsLinked, put_sending-IsLinked, close_put_sending-IsLinked,
}
use cpp_chat.TcpServer.Loop.{
  close_requested, drain_close_requests, after_response, respond_found, respond, respond_all,
  drain_responses, close_all,
}

close_if-IsLinked :
    (s : TcpServer) (id : ℕ) (current : Bool)
    → IsLinked s
    → IsLinked (if current then close_connection s id else s)
close_if-IsLinked s id true v = close_connection-IsLinked s id v
close_if-IsLinked s id false v = v

close_requested-IsLinked :
    (s : TcpServer) (pending : List QueuedClose) → IsLinked s → IsLinked (close_requested s pending)
unfolding close_requested
close_requested-IsLinked s [] v = v
close_requested-IsLinked s (request ∷ pending) v =
    let current = is_current_connection s request.connection_id request.generation in
    close_requested-IsLinked (if current then close_connection s request.connection_id else s)
      pending (close_if-IsLinked s request.connection_id current v)

drain_close_requests-IsLinked : (s : TcpServer) → IsLinked s → IsLinked (drain_close_requests s)
unfolding drain_close_requests
drain_close_requests-IsLinked s v =
    close_requested-IsLinked (record s { queues = record s.queues { close_queue = [] } })
      s.queues.close_queue v

module _ (s : TcpServer) (c : ConnectionState) (response : QueuedResponse) (sending : Sending)
    (v : IsLinked s) (e : lookup response.connection_id s.connections ≡ some c)
    (w : IsKept s.config c sending) where
  -- The connection is marked to be closed when its buffer is written.
  marked-IsLinked :
      sending.success ≡ true
      → is_empty sending.connection.write_buffer ≡ false
      → IsLinked (
          put_sending s response.connection_id
            (record sending { connection = record sending.connection { closing = true } }))
  marked-IsLinked sent waits =
      put_sending-IsLinked s response.connection_id c
        (record sending { connection = record sending.connection { closing = true } }) v e
        (record {
          same = record {
            connection_id = w.same.connection_id;
            fd = w.same.fd;
            generation = w.same.generation;
            read_buffer = w.same.read_buffer;
          };
          limits = λ sent'.
              let l = w.limits sent' in
              record {
                read_bounded = l.read_bounded;
                write_bounded = l.write_bounded;
                closing_waits = λ closing. waits;
              };
        })
        sent

  after_response-cases :
      (success close_after_send empty : Bool)
      → sending.success ≡ success
      → is_empty sending.connection.write_buffer ≡ empty
      → IsLinked (
          if not success
          then close_connection
              (put_sending s response.connection_id sending)
              response.connection_id
          else if not close_after_send
          then put_sending s response.connection_id sending
          else if empty
          then close_connection
              (put_sending s response.connection_id sending)
              response.connection_id
          else put_sending s response.connection_id
              (record sending { connection = record sending.connection { closing = true } }))
  after_response-cases false close_after_send empty sent waits =
      close_put_sending-IsLinked s response.connection_id c sending v e w
  after_response-cases true false empty sent waits =
      put_sending-IsLinked s response.connection_id c sending v e w sent
  after_response-cases true true true sent waits =
      close_put_sending-IsLinked s response.connection_id c sending v e w
  after_response-cases true true false sent waits = marked-IsLinked sent waits

  after_response-IsLinked : IsLinked (after_response s response sending)
  unfolding after_response
  after_response-IsLinked =
      after_response-cases sending.success response.close_after_send _ refl refl

respond-IsLinked :
    (s : TcpServer) (answer : Answer) (response : QueuedResponse)
    → IsLinked s
    → IsLinked (respond s answer response)
unfolding respond respond_found find_connection
respond-IsLinked s answer response v =
    elim (Option-cases (lookup response.connection_id s.connections)) [
      | inl e ↦ rw e v
      | inr (c, e) ↦ rw e (elim (Bool-cases (has_generation (some c) response.generation)) [
        | inl e' ↦ rw e' (
            after_response-IsLinked s c response (send_to_client s.config answer c response.payload)
              v e
              (send_to_client-IsKept s.config c (v.sound response.connection_id c e).within_limits
                answer response.payload))
        | inr e' ↦ rw e' v
      ])
    ]

respond_all-IsLinked :
    (s : TcpServer) (answers : ℕ → Answer) (n : ℕ) (pending : List QueuedResponse)
    → IsLinked s
    → IsLinked (respond_all s answers n pending)
unfolding respond_all
respond_all-IsLinked s answers n [] v = v
respond_all-IsLinked s answers n (response ∷ pending) v =
    respond_all-IsLinked (respond s (answers n) response) answers (suc n) pending
      (respond-IsLinked s (answers n) response v)

pub drain_responses-IsLinked :
    (s : TcpServer) (answers : ℕ → Answer) → IsLinked s → IsLinked (drain_responses s answers)
unfolding drain_responses
drain_responses-IsLinked s answers v =
    let s1 = drain_close_requests s in
    let s2 = record s1 { queues = record s1.queues { response_queue = [] } } in
    drain_close_requests-IsLinked (respond_all s2 answers 0 s1.queues.response_queue) (
      respond_all-IsLinked s2 answers 0 s1.queues.response_queue
        (drain_close_requests-IsLinked s v))

pub close_all-IsLinked :
    (s : TcpServer) (connection_ids : List ℕ) → IsLinked s → IsLinked (close_all s connection_ids)
unfolding close_all
close_all-IsLinked s [] v = v
close_all-IsLinked s (connection_id ∷ connection_ids) v =
    close_all-IsLinked (close_connection s connection_id) connection_ids
      (close_connection-IsLinked s connection_id v)
