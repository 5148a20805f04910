-- ===== src/TcpServer/Loop/Linked.antt =====
-- In every state the server reaches, the maps are linked and the buffers within their limits.
use cpp_chat.Base.{ℕ, suc, ◌≡◌, false, List, [], ◌∷◌, Option, none, some, Bytes, nat_eq}
use cpp_chat.Base.Maps.{lookup}
use cpp_chat.PacketCodec.{Recvs}
use cpp_chat.ThreadPool.{ThreadPool, worker_turn, runs}
use cpp_chat.Chat.Commands.{ChatService}
use cpp_chat.ServerConfig.{ServerConfig}
use cpp_chat.TcpServer.Queues.{process_packet_async}
use cpp_chat.TcpServer.Connections.{Batch, TcpServer, Answer}
use cpp_chat.TcpServer.Connections.Links.{IsLinked}
use cpp_chat.TcpServer.Connections.Changes.{close_client-IsLinked, flush_write_buffer-IsLinked}
use cpp_chat.TcpServer.Loop.{
  ReadyEvent, connecting, woken, hung_up, ready, read_if, flush_if, handle_event, drain_responses,
  check_heartbeats, stop, process_packets, process_batch, timed_out, keys,
}
use cpp_chat.TcpServer.Loop.Reading.{
  AreNew, accept_connections-IsLinked, handle_client_read-IsLinked,
}
use cpp_chat.TcpServer.Loop.Writing.{drain_responses-IsLinked, close_all-IsLinked}

-- The constructor of `TcpServer`.
unfoldable pub new_server : ServerConfig → ChatService → ThreadPool Batch → TcpServer
new_server config chat_service thread_pool = record {
  config = config;
  chat_service = chat_service;
  thread_pool = thread_pool;
  connection_by_fd = [];
  connections = [];
  next_connection_id = 1;
  next_generation = 1;
  queues = record { response_queue = []; close_queue = [] };
  running = false;
  trace = [];
}

-- What the kernel may report.
unfoldable pub IsPossible : TcpServer → ReadyEvent → Type 0
unfolding AreNew
IsPossible s (connecting accepts) = AreNew s accepts
IsPossible s _ = Unit

read_if-IsLinked :
    (s : TcpServer) (fd : ℕ) (readable : Option (Recvs × ℕ))
    → IsLinked s
    → IsLinked (read_if s fd readable)
unfolding read_if
read_if-IsLinked s fd none v = v
read_if-IsLinked s fd (some (recvs, now)) v = handle_client_read-IsLinked s fd recvs now v

flush_if-IsLinked :
    (s : TcpServer) (fd : ℕ) (writable : Option Answer)
    → IsLinked s
    → IsLinked (flush_if s fd writable)
unfolding flush_if
flush_if-IsLinked s fd none v = v
flush_if-IsLinked s fd (some answer) v = flush_write_buffer-IsLinked s answer fd v

handle_event-IsLinked :
    (s : TcpServer) (event : ReadyEvent)
    → IsPossible s event
    → IsLinked s
    → IsLinked (handle_event s event)
unfolding IsPossible handle_event
handle_event-IsLinked s (connecting accepts) h v = accept_connections-IsLinked s accepts h v
handle_event-IsLinked s (woken answers) h v = drain_responses-IsLinked s answers v
handle_event-IsLinked s (hung_up fd) h v = close_client-IsLinked s fd v
handle_event-IsLinked s (ready fd readable writable) h v =
    flush_if-IsLinked (read_if s fd readable) fd writable (read_if-IsLinked s fd readable v)

module _ (pbkdf2 : Bytes → ℕ → Bytes → Option Bytes) where
  process_packets-IsLinked :
      (s : TcpServer) (salts : ℕ → Option Bytes) (n connection_id generation : ℕ)
      (packets : List Bytes)
      → IsLinked s
      → IsLinked (process_packets pbkdf2 s salts n connection_id generation packets)
  unfolding process_packets
  process_packets-IsLinked s salts n connection_id generation [] v = v
  process_packets-IsLinked s salts n connection_id generation (payload ∷ packets) v =
      let r =
        process_packet_async pbkdf2 s.config.max_response_queue_size s.chat_service (salts n)
          connection_id generation payload s.queues in
      process_packets-IsLinked (record s { chat_service = r.0; queues = r.1 }) salts (suc n)
        connection_id generation packets v

  -- The states the server reaches: the network thread handles an event, writes the responses or looks
  -- for idle connections, a worker takes a batch off the queue and, later, handles it, and the server
  -- stops.
  pub data Reaches (config : ServerConfig) (chat_service : ChatService) (pool : ThreadPool Batch)
      : TcpServer → Type 0 where
    started : Reaches config chat_service pool (new_server config chat_service pool)
    handled :
        {s : TcpServer} (event : ReadyEvent)
        → Reaches config chat_service pool s
        → IsPossible s event
        → Reaches config chat_service pool (handle_event s event)
    drained :
        {s : TcpServer} (answers : ℕ → Answer)
        → Reaches config chat_service pool s
        → Reaches config chat_service pool (drain_responses s answers)
    checked :
        {s : TcpServer} (now : ℕ)
        → Reaches config chat_service pool s
        → Reaches config chat_service pool (check_heartbeats s now)
    taken :
        {s : TcpServer} {batch : Batch} {thread_pool : ThreadPool Batch}
        → Reaches config chat_service pool s
        → worker_turn s.thread_pool ≡ runs batch thread_pool
        → Reaches config chat_service pool (record s { thread_pool = thread_pool })
    worked :
        {s : TcpServer} (salts : ℕ → Option Bytes) (batch : Batch)
        → Reaches config chat_service pool s
        → Reaches config chat_service pool (process_batch pbkdf2 s salts batch)
    stopped :
        {s : TcpServer}
        → Reaches config chat_service pool s
        → Reaches config chat_service pool (stop s)

  -- In every state that the server reaches, as long as the kernel gives no connection a descriptor
  -- that is in use: each descriptor of the index belongs to one connection, and each connection is in
  -- the index under its own descriptor; ids and generations were handed out before; no read or write
  -- buffer is longer than its limit; and a connection that is closing has bytes left to write.
  pub Reaches-IsLinked :
      {config : ServerConfig} {chat_service : ChatService} {pool : ThreadPool Batch} {s : TcpServer}
      → Reaches config chat_service pool s
      → IsLinked s
  unfolding new_server check_heartbeats stop process_batch lookup
  Reaches-IsLinked started = record {
    indexed = λ fd id h. absurd (cc);
    sound = λ id c h. absurd (cc);
  }
  Reaches-IsLinked (handled {s} event r h) = handle_event-IsLinked s event h (Reaches-IsLinked r)
  Reaches-IsLinked (drained {s} answers r) = drain_responses-IsLinked s answers (Reaches-IsLinked r)
  Reaches-IsLinked (checked {s} now r) =
      close_all-IsLinked s (timed_out now s.config.heartbeat_timeout_seconds s.connections)
        (Reaches-IsLinked r)
  Reaches-IsLinked (taken r h) = Reaches-IsLinked r
  Reaches-IsLinked (worked {s} salts batch r) =
      process_packets-IsLinked s salts 0 batch.connection_id batch.generation batch.packets
        (Reaches-IsLinked r)
  Reaches-IsLinked (stopped {s} r) =
      close_all-IsLinked (record s { running = false }) (keys s.connections) (Reaches-IsLinked r)
