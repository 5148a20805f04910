-- ===== src/TcpServer/Loop/Overloaded.antt =====
-- What becomes of a connection whose responses do not fit into the queue.
use cpp_chat.Base.{
  ℕ, suc, ◌+◌, ◌≡◌, refl, sym, ap, ◌∙◌, true, false, Bool-cases, inl, inr, List, [], ◌∷◌, ◌++◌,
  Option, none, some, arith, ◌==◌, if◌then◌else◌, nat_eq, ltb, length,
}
use cpp_chat.Base.Maps.{lookup}
use cpp_chat.Chat.Commands.{OutboundMessage}
use cpp_chat.TcpServer.Queues.{QueuedResponse, QueuedClose, ResponseQueues, push_responses}
use cpp_chat.TcpServer.Connections.{
  ConnectionState, TcpServer, Answer, find_connection, close_connection, has_generation,
  is_current_connection, send_to_client,
}
use cpp_chat.TcpServer.Connections.Changes.{lookup-close_connection}
use cpp_chat.TcpServer.Loop.{
  close_requested, drain_close_requests, respond_found, respond, respond_all, drain_responses,
}
use cpp_chat.TcpServer.Loop.Drained.{
  means, no_close_for, after_response-other, queues-close_requested, queues-respond_all,
  requested-other,
}

-- A connection that is gone does not come back.
module _ (j : ℕ) where
  gone-close_connection :
      (s : TcpServer) (id : ℕ)
      → lookup j s.connections ≡ none
      → lookup j (close_connection s id).connections ≡ none
  gone-close_connection s id h = ground (arith, lookup-close_connection s id j, h)

  gone-close_requested :
      (s : TcpServer) (pending : List QueuedClose)
      → lookup j s.connections ≡ none
      → lookup j (close_requested s pending).connections ≡ none
  unfolding close_requested
  gone-close_requested s [] h = h
  gone-close_requested s (request ∷ pending) h =
      let current = is_current_connection s request.connection_id request.generation in
      gone-close_requested (if current then close_connection s request.connection_id else s) pending
        (ground (arith, gone-close_connection s request.connection_id h))

  gone-found :
      (s : TcpServer) (answer : Answer) (response : QueuedResponse) (o : Option ConnectionState)
      → lookup response.connection_id s.connections ≡ o
      → lookup j s.connections ≡ none
      → lookup j (respond_found s answer response o).connections ≡ none
  unfolding respond_found
  gone-found s answer response none found h = h
  gone-found s answer response (some d) found h = elim (Bool-cases (response.connection_id == j)) [
    | inl e ↦
        let same : response.connection_id ≡ j = ground arith in
        let there : lookup j s.connections ≡ some d =
          ap (λ k. lookup k s.connections) (sym same) ∙ found in
        absurd (cc)
    | inr e ↦ ground (
      arith,
      after_response-other s response (send_to_client s.config answer d response.payload) j e,
      h,
    )
  ]

  gone-respond_all :
      (s : TcpServer) (answers : ℕ → Answer) (n : ℕ) (pending : List QueuedResponse)
      → lookup j s.connections ≡ none
      → lookup j (respond_all s answers n pending).connections ≡ none
  unfolding respond_all respond find_connection
  gone-respond_all s answers n [] h = h
  gone-respond_all s answers n (response ∷ pending) h =
      gone-respond_all (respond s (answers n) response) answers (suc n) pending
        (gone-found s (answers n) response _ refl h)

module _ (j : ℕ) (c : ConnectionState) where
  requested-closes :
      (s : TcpServer) (request : QueuedClose)
      → means j c request.connection_id request.generation ≡ true
      → lookup j s.connections ≡ some c
      → lookup j
          (if is_current_connection s request.connection_id request.generation
            then close_connection s request.connection_id
            else s).connections
        ≡ none
  unfolding is_current_connection find_connection
  requested-closes s request h e =
      let same : request.connection_id ≡ j = ground arith in
      let current : has_generation (lookup request.connection_id s.connections) request.generation
          ≡ true =
        ap (λ k. has_generation (lookup k s.connections) request.generation) same
        ∙ (ap (λ o. has_generation o request.generation) e ∙ ground arith) in
      rw current (ground (arith, lookup-close_connection s request.connection_id j))

  close_requested-closes :
      (s : TcpServer) (pending : List QueuedClose)
      → no_close_for j c pending ≡ false
      → lookup j s.connections ≡ some c
      → lookup j (close_requested s pending).connections ≡ none
  unfolding close_requested no_close_for
  close_requested-closes s [] h e = absurd (cc)
  close_requested-closes s (request ∷ pending) h e =
      let current = is_current_connection s request.connection_id request.generation in
      let s' = if current then close_connection s request.connection_id else s in
      elim (Bool-cases (means j c request.connection_id request.generation)) [
        | inl m ↦ gone-close_requested j s' pending (requested-closes s request m e)
        | inr m ↦
            close_requested-closes s' pending (ground arith) (requested-other j c s request m e)
      ]

  asked-to_close :
      (pending : List QueuedClose) (request : QueuedClose)
      → means j c request.connection_id request.generation ≡ true
      → no_close_for j c (pending ++ request ∷ []) ≡ false
  unfolding no_close_for
  asked-to_close [] request h = ground (arith, h)
  asked-to_close (r ∷ pending) request h = ground (arith, asked-to_close pending request h)

  drain_responses-closes :
      (s : TcpServer) (answers : ℕ → Answer)
      → no_close_for j c s.queues.close_queue ≡ false
      → lookup j s.connections ≡ some c
      → lookup j (drain_responses s answers).connections ≡ none
  unfolding drain_responses drain_close_requests
  drain_responses-closes s answers h e =
      let s0 = record s { queues = record s.queues { close_queue = [] } } in
      let s1 = close_requested s0 s.queues.close_queue in
      let s2 = record s1 { queues = record s1.queues { response_queue = [] } } in
      let s3 = respond_all s2 answers 0 s1.queues.response_queue in
      let closed = close_requested-closes s0 s.queues.close_queue h e in
      gone-close_requested j (record s3 { queues = record s3.queues { close_queue = [] } })
        s3.queues.close_queue (gone-respond_all j s2 answers 0 s1.queues.response_queue closed)

-- After a drain nothing waits in the queues.
drained_queues :
    (s : TcpServer) (answers : ℕ → Answer)
    → (drain_responses s answers).queues ≡ record { response_queue = []; close_queue = [] }
unfolding drain_responses drain_close_requests
drained_queues s answers =
    let s0 = record s { queues = record s.queues { close_queue = [] } } in
    let s1 = close_requested s0 s.queues.close_queue in
    let s2 = record s1 { queues = record s1.queues { response_queue = [] } } in
    let s3 = respond_all s2 answers 0 s1.queues.response_queue in
    let same : s3.queues ≡ s2.queues = queues-respond_all s2 answers 0 s1.queues.response_queue in
    queues-close_requested (record s3 { queues = record s3.queues { close_queue = [] } })
      s3.queues.close_queue
    ∙ ap {A = ResponseQueues} (λ q. record q { close_queue = [] }) same

-- A connection whose responses do not fit into the response queue is gone after the next drain of
-- the queues, whatever else they hold, and then nothing waits in them.
pub overloaded_closed :
    (s : TcpServer) (limit id : ℕ) (c : ConnectionState) (outbound : List OutboundMessage)
    (answers : ℕ → Answer)
    → lookup id s.connections ≡ some c
    → ltb limit (length s.queues.response_queue + length outbound) ≡ true
    → let queues = push_responses limit id c.generation outbound s.queues in
      let s' = drain_responses (record s { queues = queues }) answers in
      (lookup id s'.connections ≡ none)
      × (s'.queues ≡ record { response_queue = []; close_queue = [] })
unfolding push_responses
overloaded_closed s limit id c outbound answers e h = rw h (
  drain_responses-closes id c _ answers (asked-to_close id c s.queues.close_queue _ (ground arith))
      e,
  drained_queues _ answers,
)
