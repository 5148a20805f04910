-- ===== src/TcpServer/Loop.antt =====
-- The handlers of the event loop of src/network/tcp_server.cpp. What the system calls answer while
-- an event is handled is an argument. `drain_wake_events` only reads the counter of the wake
-- descriptor and is left out.
pub mod Reading
pub mod Writing
pub mod Linked
pub mod Drained
pub mod Overloaded
pub mod Heartbeat
use cpp_chat.Base.{
  ℕ, suc, ◌+◌, Bool, true, false, not, ◌&&◌, ◌||◌, List, [], ◌∷◌, ◌++◌, Option, none, some, ltb,
  ◌==◌, if◌then◌else◌, Bytes, length, is_empty, nat_eq,
}
use cpp_chat.Base.Maps.{insert}
use cpp_chat.PacketCodec.{
  RecvPacketStatus, ok, would_block, closed, protocol_error, io_error, RecvPacketResult, Recvs,
  recv_packets_et, max_packet_payload_size,
}
use cpp_chat.ThreadPool.{ThreadPool, enqueue}
use cpp_chat.ServerConfig.{ServerConfig}
use cpp_chat.TcpServer.Queues.{QueuedResponse, QueuedClose, ResponseQueues, process_packet_async}
use cpp_chat.TcpServer.Connections.{
  ConnectionState, SystemCall, sent_bytes, closed_fd, Batch, TcpServer, Answer, Sending,
  send_to_client, find_connection, find_connection_by_fd, has_generation, is_current_connection,
  close_connection, close_client, put_sending, flush_write_buffer,
}

-- A descriptor that `accept4` answers, whether `epoll_ctl` adds it, and the time then. The answer -1
-- ends the list.
pub record Accepted : Type 0 where
  pub fd : ℕ
  pub added : Bool
  pub now : ℕ

-- One round of the loop of `accept_connections`.
unfoldable pub accept_one : TcpServer → Accepted → TcpServer
unfolding insert
accept_one s accepted =
    let connection_id = s.next_connection_id in
    let generation = s.next_generation in
    let numbered = record s {
      next_connection_id = connection_id + 1;
      next_generation = generation + 1;
    } in
    if accepted.added
    then record numbered {
      connection_by_fd = insert accepted.fd connection_id s.connection_by_fd;
      connections =
          insert connection_id
            (record {
              connection_id = connection_id;
              fd = accepted.fd;
              read_buffer = [];
              write_buffer = [];
              last_active_at = accepted.now;
              closing = false;
              generation = generation;
            })
            s.connections;
    }
    else record numbered { trace = s.trace ++ closed_fd accepted.fd ∷ [] }

unfoldable pub accept_connections : TcpServer → List Accepted → TcpServer
unfolding accept_one
accept_connections s [] = s
accept_connections s (accepted ∷ more) = accept_connections (accept_one s accepted) more

-- The tail of `handle_client_read`, behind `enqueue`.
unfoldable pub after_enqueue : TcpServer → ℕ → ThreadPool Batch × Bool → TcpServer
unfolding close_client
after_enqueue s fd (thread_pool, true) = record s { thread_pool = thread_pool }
after_enqueue s fd (thread_pool, false) = close_client (record s { thread_pool = thread_pool }) fd

-- `handle_client_read` from the test on the packets on; the connection is in the map with its new
-- read buffer.
unfoldable pub submit_packets : TcpServer → ℕ → ConnectionState → List Bytes → ℕ → TcpServer
unfolding after_enqueue enqueue insert
submit_packets s fd connection packets now =
    if is_empty packets
    then s
    else after_enqueue
        (record s {
          connections =
              insert connection.connection_id (record connection { last_active_at = now })
                s.connections;
        })
        fd
        (enqueue s.thread_pool (record {
          connection_id = connection.connection_id;
          generation = connection.generation;
          packets = packets;
        }))

-- Behind `recv_packets_et`, which has changed the read buffer of the connection.
unfoldable pub after_recv : TcpServer → ℕ → ConnectionState → RecvPacketResult → ℕ → TcpServer
unfolding submit_packets close_client insert
after_recv s fd connection result now =
    let s' = record s { connections = insert connection.connection_id connection s.connections } in
    let overflows = ltb s.config.max_read_buffer_bytes (length connection.read_buffer) in
    let submitted =
      if overflows
      then close_client s' fd
      else submit_packets s' fd connection result.packets now in
    elim result.status [
      | closed ↦ close_client s' fd
      | protocol_error ↦ close_client s' fd
      | io_error ↦ close_client s' fd
      | _ ↦ submitted
    ]

read_found : TcpServer → ℕ → Recvs → ℕ → Option ConnectionState → TcpServer
unfolding after_recv recv_packets_et
read_found s fd recvs now none = s
read_found s fd recvs now (some connection) =
    let (result, read_buffer) =
      recv_packets_et recvs connection.read_buffer max_packet_payload_size in
    if connection.closing
    then s
    else after_recv s fd (record connection { read_buffer = read_buffer }) result now

unfoldable pub handle_client_read : TcpServer → ℕ → Recvs → ℕ → TcpServer
unfolding read_found find_connection_by_fd
handle_client_read s fd recvs now = read_found s fd recvs now (find_connection_by_fd s fd)

unfoldable pub close_requested : TcpServer → List QueuedClose → TcpServer
unfolding is_current_connection close_connection
close_requested s [] = s
close_requested s (request ∷ pending) =
    close_requested
      (if is_current_connection s request.connection_id request.generation
        then close_connection s request.connection_id
        else s)
      pending

unfoldable pub drain_close_requests : TcpServer → TcpServer
unfolding close_requested
drain_close_requests s =
    close_requested (record s { queues = record s.queues { close_queue = [] } })
      s.queues.close_queue

-- Behind the call of `send_to_client` in `drain_responses`.
unfoldable pub after_response : TcpServer → QueuedResponse → Sending → TcpServer
unfolding put_sending close_connection
after_response s response sending =
    let s' = put_sending s response.connection_id sending in
    let marked = record sending { connection = record sending.connection { closing = true } } in
    if not sending.success
    then close_connection s' response.connection_id
    else if not response.close_after_send
    then s'
    else if is_empty sending.connection.write_buffer
    then close_connection s' response.connection_id
    else put_sending s response.connection_id marked

respond_found : TcpServer → Answer → QueuedResponse → Option ConnectionState → TcpServer
unfolding after_response send_to_client
respond_found s answer response none = s
respond_found s answer response (some connection) =
    let sending = send_to_client s.config answer connection response.payload in
    if has_generation (some connection) response.generation
    then after_response s response sending
    else s

-- One round of the loop of `drain_responses`.
unfoldable pub respond : TcpServer → Answer → QueuedResponse → TcpServer
unfolding respond_found find_connection
respond s answer response =
    respond_found s answer response (find_connection s response.connection_id)

-- The `n`-th response and those behind it; the kernel's answers are numbered.
unfoldable pub respond_all : TcpServer → (ℕ → Answer) → ℕ → List QueuedResponse → TcpServer
unfolding respond
respond_all s answers n [] = s
respond_all s answers n (response ∷ pending) =
    respond_all (respond s (answers n) response) answers (suc n) pending

unfoldable pub drain_responses : TcpServer → (ℕ → Answer) → TcpServer
unfolding drain_close_requests respond_all
drain_responses s answers =
    let s1 = drain_close_requests s in
    let s2 = record s1 { queues = record s1.queues { response_queue = [] } } in
    drain_close_requests (respond_all s2 answers 0 s1.queues.response_queue)

-- `now - last_active_at > timeout`
abbrev pub is_timed_out : ℕ → ℕ → ConnectionState → Bool
is_timed_out now timeout connection = ltb (connection.last_active_at + timeout) now

unfoldable pub timed_out : ℕ → ℕ → List (ℕ × ConnectionState) → List ℕ
timed_out now timeout [] = []
timed_out now timeout ((connection_id, connection) ∷ connections) =
    let rest = timed_out now timeout connections in
    if is_timed_out now timeout connection then connection_id ∷ rest else rest

unfoldable pub close_all : TcpServer → List ℕ → TcpServer
unfolding close_connection
close_all s [] = s
close_all s (connection_id ∷ connection_ids) =
    close_all (close_connection s connection_id) connection_ids

unfoldable pub check_heartbeats : TcpServer → ℕ → TcpServer
unfolding close_all timed_out
check_heartbeats s now =
    close_all s (timed_out now s.config.heartbeat_timeout_seconds s.connections)

unfoldable pub keys : List (ℕ × ConnectionState) → List ℕ
keys [] = []
keys ((connection_id, connection) ∷ connections) = connection_id ∷ keys connections

-- `stop`, but for the three descriptors of the server itself.
unfoldable pub stop : TcpServer → TcpServer
unfolding close_all keys
stop s = close_all (record s { running = false }) (keys s.connections)

-- What `epoll_wait` answers: nothing, or the events that are ready. An event of the listening
-- descriptor, of the wake descriptor, of a client that is gone, or of a client that can be read from
-- or written to.
pub data ReadyEvent : Type 0 where
  connecting : List Accepted → ReadyEvent
  woken : (ℕ → Answer) → ReadyEvent
  hung_up : ℕ → ReadyEvent
  ready : ℕ → Option (Recvs × ℕ) → Option Answer → ReadyEvent

read_if : TcpServer → ℕ → Option (Recvs × ℕ) → TcpServer
unfolding handle_client_read
read_if s fd none = s
read_if s fd (some (recvs, now)) = handle_client_read s fd recvs now

flush_if : TcpServer → ℕ → Option Answer → TcpServer
unfolding flush_write_buffer
flush_if s fd none = s
flush_if s fd (some answer) = flush_write_buffer s answer fd

-- The body of the loop over the events.
unfoldable pub handle_event : TcpServer → ReadyEvent → TcpServer
unfolding accept_connections drain_responses close_client read_if flush_if
handle_event s (connecting accepts) = accept_connections s accepts
handle_event s (woken answers) = drain_responses s answers
handle_event s (hung_up fd) = close_client s fd
handle_event s (ready fd readable writable) = flush_if (read_if s fd readable) fd writable

unfoldable pub handle_events : TcpServer → List ReadyEvent → TcpServer
unfolding handle_event
handle_events s [] = s
handle_events s (event ∷ events) = handle_events (handle_event s event) events

-- One round of `run_event_loop`, whose `epoll_wait` is answered with these events, at the time `now`.
unfoldable pub loop_round : TcpServer → List ReadyEvent → ℕ → (ℕ → Answer) → TcpServer
unfolding check_heartbeats drain_responses handle_events
loop_round s [] now answers = drain_responses (check_heartbeats s now) answers
loop_round s (event ∷ events) now answers =
    drain_responses (handle_events s (event ∷ events)) answers

-- The task that `handle_client_read` makes, on a worker: the packets of a batch in their order. The
-- salts are what `RAND_bytes` answers to a registration.
module _ (pbkdf2 : Bytes → ℕ → Bytes → Option Bytes) where
  unfoldable pub process_packets :
      TcpServer → (ℕ → Option Bytes) → ℕ → ℕ → ℕ → List Bytes → TcpServer
  unfolding process_packet_async
  process_packets s salts n connection_id generation [] = s
  process_packets s salts n connection_id generation (payload ∷ packets) =
      let (chat_service, queues) =
        process_packet_async pbkdf2 s.config.max_response_queue_size s.chat_service (salts n)
          connection_id generation payload s.queues in
      process_packets (record s { chat_service = chat_service; queues = queues }) salts (suc n)
        connection_id generation packets

  unfoldable pub process_batch : TcpServer → (ℕ → Option Bytes) → Batch → TcpServer
  unfolding process_packets
  process_batch s salts batch =
      process_packets s salts 0 batch.connection_id batch.generation batch.packets
