-- ===== src/TcpServer/Loop/Drained.antt =====
-- Which connections a drain of the queues may change.
use cpp_chat.Base.{
  ◌||◌, ℕ, suc, ◌≡◌, refl, sym, ap, ◌∙◌, true, false, not, ◌&&◌, Bool, Bool-cases, Option-cases,
  inl, inr, List, [], ◌∷◌, Option, none, some, arith, ◌==◌, if◌then◌else◌, nat_eq,
}
use cpp_chat.Base.Maps.{lookup, insert_other}
use cpp_chat.TcpServer.Queues.{QueuedResponse, QueuedClose}
use cpp_chat.TcpServer.Connections.{
  ConnectionState, TcpServer, Answer, Sending, find_connection, close_connection, has_generation,
  is_current_connection, put_sending, send_to_client,
}
use cpp_chat.TcpServer.Connections.Changes.{lookup-close_connection}
use cpp_chat.TcpServer.Loop.{
  close_requested, drain_close_requests, after_response, respond_found, respond, respond_all,
  drain_responses,
}

-- Whether a queued response or close request means the connection `c` under `id`: it carries the
-- generation of the connection, or 0.
abbrev pub means : ℕ → ConnectionState → ℕ → ℕ → Bool
means id c connection_id generation =
    connection_id == id && (generation == 0 || c.generation == generation)

unfoldable pub no_response_for : ℕ → ConnectionState → List QueuedResponse → Bool
no_response_for id c [] = true
no_response_for id c (response ∷ pending) =
    not (means id c response.connection_id response.generation) && no_response_for id c pending

unfoldable pub no_close_for : ℕ → ConnectionState → List QueuedClose → Bool
no_close_for id c [] = true
no_close_for id c (request ∷ pending) =
    not (means id c request.connection_id request.generation) && no_close_for id c pending

put_other :
    (s : TcpServer) (id j : ℕ) (sending : Sending)
    → (id == j) ≡ false
    → lookup j (put_sending s id sending).connections ≡ lookup j s.connections
unfolding put_sending
put_other s id j sending h =
    insert_other id j sending.connection s.connections (λ e. absurd (ground (arith, e)))

closed_other :
    (s : TcpServer) (id j : ℕ)
    → (id == j) ≡ false
    → lookup j (close_connection s id).connections ≡ lookup j s.connections
closed_other s id j h = ground (arith, lookup-close_connection s id j)

module _ (s : TcpServer) (response : QueuedResponse) (sending : Sending) (j : ℕ)
    (h : (response.connection_id == j) ≡ false) where
  pub after_response-other :
      lookup j (after_response s response sending).connections ≡ lookup j s.connections
  unfolding after_response
  after_response-other = ground (
    arith,
    put_other s response.connection_id j sending h,
    put_other s response.connection_id j
        (record sending { connection = record sending.connection { closing = true } }) h,
    closed_other (put_sending s response.connection_id sending) response.connection_id j h,
  )

-- Neither writing nor closing touches the queues.
queues-close_connection : (s : TcpServer) (id : ℕ) → (close_connection s id).queues ≡ s.queues
unfolding close_connection
queues-close_connection s id = elim (Option-cases (find_connection s id)) [
  | inl e ↦ rw e refl
  | inr (c, e) ↦ rw e refl
]

pub queues-close_requested :
    (s : TcpServer) (pending : List QueuedClose) → (close_requested s pending).queues ≡ s.queues
unfolding close_requested
queues-close_requested s [] = refl
queues-close_requested s (request ∷ pending) =
    let current = is_current_connection s request.connection_id request.generation in
    queues-close_requested (if current then close_connection s request.connection_id else s) pending
    ∙ ground (arith, queues-close_connection s request.connection_id)

queues-after_response :
    (s : TcpServer) (response : QueuedResponse) (sending : Sending)
    → (after_response s response sending).queues ≡ s.queues
unfolding after_response put_sending
queues-after_response s response sending = ground (
  arith,
  queues-close_connection (put_sending s response.connection_id sending) response.connection_id,
)

queues-found :
    (s : TcpServer) (answer : Answer) (response : QueuedResponse) (o : Option ConnectionState)
    → (respond_found s answer response o).queues ≡ s.queues
unfolding respond_found
queues-found s answer response none = refl
queues-found s answer response (some c) =
    ground
      (arith, queues-after_response s response (send_to_client s.config answer c response.payload))

queues-respond :
    (s : TcpServer) (answer : Answer) (response : QueuedResponse)
    → (respond s answer response).queues ≡ s.queues
unfolding respond
queues-respond s answer response =
    queues-found s answer response (find_connection s response.connection_id)

pub queues-respond_all :
    (s : TcpServer) (answers : ℕ → Answer) (n : ℕ) (pending : List QueuedResponse)
    → (respond_all s answers n pending).queues ≡ s.queues
unfolding respond_all
queues-respond_all s answers n [] = refl
queues-respond_all s answers n (response ∷ pending) =
    queues-respond_all (respond s (answers n) response) answers (suc n) pending
    ∙ queues-respond s (answers n) response

module _ (j : ℕ) (c : ConnectionState) where
  means_no :
      (s : TcpServer) (connection_id generation : ℕ)
      → means j c connection_id generation ≡ false
      → (connection_id == j) ≡ true
      → lookup j s.connections ≡ some c
      → has_generation (lookup connection_id s.connections) generation ≡ false
  means_no s connection_id generation h e e' =
      let same : connection_id ≡ j = ground arith in
      let found : lookup connection_id s.connections ≡ some c =
        ap (λ k. lookup k s.connections) same ∙ e' in
      ap (λ o. has_generation o generation) found ∙ ground arith

  found-other :
      (s : TcpServer) (answer : Answer) (response : QueuedResponse) (o : Option ConnectionState)
      → lookup response.connection_id s.connections ≡ o
      → means j c response.connection_id response.generation ≡ false
      → lookup j s.connections ≡ some c
      → lookup j (respond_found s answer response o).connections ≡ some c
  unfolding respond_found
  found-other s answer response none found h e = e
  found-other s answer response (some d) found h e =
      elim (Bool-cases (response.connection_id == j)) [
        | inl e' ↦
            let stale : has_generation (some d) response.generation ≡ false =
              ap (λ o. has_generation o response.generation) (sym found)
              ∙ means_no s response.connection_id response.generation h e' e in
            ground (arith, stale)
        | inr e' ↦ ground (
          arith,
          after_response-other s response (send_to_client s.config answer d response.payload) j e',
        )
      ]

  respond-other :
      (s : TcpServer) (answer : Answer) (response : QueuedResponse)
      → means j c response.connection_id response.generation ≡ false
      → lookup j s.connections ≡ some c
      → lookup j (respond s answer response).connections ≡ some c
  unfolding respond find_connection
  respond-other s answer response = found-other s answer response _ refl

  pub respond_all-other :
      (s : TcpServer) (answers : ℕ → Answer) (n : ℕ) (pending : List QueuedResponse)
      → no_response_for j c pending ≡ true
      → lookup j s.connections ≡ some c
      → lookup j (respond_all s answers n pending).connections ≡ some c
  unfolding respond_all no_response_for
  respond_all-other s answers n [] h e = e
  respond_all-other s answers n (response ∷ pending) h e =
      respond_all-other (respond s (answers n) response) answers (suc n) pending (ground arith)
        (respond-other s (answers n) response (ground arith) e)

  pub requested-other :
      (s : TcpServer) (request : QueuedClose)
      → means j c request.connection_id request.generation ≡ false
      → lookup j s.connections ≡ some c
      → lookup j
          (if is_current_connection s request.connection_id request.generation
            then close_connection s request.connection_id
            else s).connections
        ≡ some c
  unfolding is_current_connection find_connection
  requested-other s request h e = elim (Bool-cases (request.connection_id == j)) [
    | inl e' ↦ ground (arith, means_no s request.connection_id request.generation h e' e)
    | inr e' ↦ ground (arith, closed_other s request.connection_id j e')
  ]

  close_requested-other :
      (s : TcpServer) (pending : List QueuedClose)
      → no_close_for j c pending ≡ true
      → lookup j s.connections ≡ some c
      → lookup j (close_requested s pending).connections ≡ some c
  unfolding close_requested no_close_for
  close_requested-other s [] h e = e
  close_requested-other s (request ∷ pending) h e =
      let current = is_current_connection s request.connection_id request.generation in
      close_requested-other (if current then close_connection s request.connection_id else s)
        pending (ground arith) (requested-other s request (ground arith) e)

  -- A drain of the queues leaves a connection as it is, unless a queued response or close request
  -- carries its id and, besides, its generation or the generation 0.
  pub drain_responses-other :
      (s : TcpServer) (answers : ℕ → Answer)
      → no_response_for j c s.queues.response_queue ≡ true
      → no_close_for j c s.queues.close_queue ≡ true
      → lookup j s.connections ≡ some c
      → lookup j (drain_responses s answers).connections ≡ some c
  unfolding drain_responses drain_close_requests no_close_for
  drain_responses-other s answers h h' e =
      let s0 = record s { queues = record s.queues { close_queue = [] } } in
      let s1 = close_requested s0 s.queues.close_queue in
      let same1 : s1.queues ≡ s0.queues = queues-close_requested s0 s.queues.close_queue in
      let s2 = record s1 { queues = record s1.queues { response_queue = [] } } in
      let s3 = respond_all s2 answers 0 s1.queues.response_queue in
      let same3 : s3.queues ≡ s2.queues =
        queues-respond_all s2 answers 0 s1.queues.response_queue in
      let kept =
        respond_all-other s2 answers 0 s1.queues.response_queue
          (ap (λ q. no_response_for j c q.response_queue) same1 ∙ h)
          (close_requested-other s0 s.queues.close_queue h' e) in
      close_requested-other (record s3 { queues = record s3.queues { close_queue = [] } })
        s3.queues.close_queue
        (ap (λ q. no_close_for j c q.close_queue) same3
          ∙ ap (λ q. no_close_for j c q.close_queue) same1)
        kept
