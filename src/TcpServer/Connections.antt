-- ===== src/TcpServer/Connections.antt =====
-- The connections of src/network/tcp_server.cpp: one connection's write buffer, and the maps of the
-- connections. Descriptors are numbers. What `epoll_ctl` and the calls of `send` answer is an
-- argument; the bytes the kernel takes and the descriptors that are closed are kept in a trace.
pub mod Order
pub mod Links
pub mod Limits
pub mod Changes
use cpp_chat.Base.{
  ℕ, ◌+◌, Bool, true, false, not, ◌&&◌, ◌||◌, List, [], ◌∷◌, ◌++◌, Option, none, some, ltb, ◌==◌,
  if◌then◌else◌, Bytes, length, drop, is_empty, nat_eq,
}
use cpp_chat.Base.Maps.{lookup, insert, erase}
use cpp_chat.PacketCodec.{
  SendStatus, sent_all, would_block, io_error, SendResult, Sends, send_all, encode_packet,
}
use cpp_chat.Chat.Commands.{ChatService}
use cpp_chat.Chat.{handle_disconnect}
use cpp_chat.ThreadPool.{ThreadPool}
use cpp_chat.ServerConfig.{ServerConfig}
use cpp_chat.TcpServer.Queues.{ResponseQueues}

pub record ConnectionState : Type 0 where
  pub connection_id : ℕ
  pub fd : ℕ
  pub read_buffer : Bytes
  pub write_buffer : Bytes
  pub last_active_at : ℕ
  pub closing : Bool
  pub generation : ℕ

-- What the kernel sees of a client's descriptor.
pub data SystemCall : Type 0 where
  sent_bytes : ℕ → Bytes → SystemCall
  closed_fd : ℕ → SystemCall

-- The packets of one read, which a task of the pool handles.
pub record Batch : Type 0 where
  pub connection_id : ℕ
  pub generation : ℕ
  pub packets : List Bytes

-- The fields of `TcpServer` but for the three descriptors and the logger.
pub record TcpServer : Type 0 where
  pub config : ServerConfig
  pub chat_service : ChatService
  pub thread_pool : ThreadPool Batch
  pub connection_by_fd : List (ℕ × ℕ)
  pub connections : List (ℕ × ConnectionState)
  pub next_connection_id : ℕ
  pub next_generation : ℕ
  pub queues : ResponseQueues
  pub running : Bool
  pub trace : List SystemCall

-- What the kernel answers while one response is written: to `send`, and whether `epoll_ctl` succeeds.
pub record Answer : Type 0 where
  pub sends : Sends
  pub mode_set : Bool

-- The connection afterwards, the answer of the function, and the bytes the kernel has taken.
pub record Sending : Type 0 where
  pub connection : ConnectionState
  pub success : Bool
  pub wire : Bytes

-- `send_to_client` where bytes are waiting: the packet goes behind them.
unfoldable pub append_packet : ServerConfig → ConnectionState → Bytes → Sending
append_packet config connection packet =
    let write_buffer = connection.write_buffer ++ packet in
    record {
      connection = record connection { write_buffer = write_buffer };
      success = not (ltb config.max_write_buffer_bytes (length write_buffer));
      wire = [];
    }

-- Behind `send_all`.
unfoldable pub after_send :
    ServerConfig → Bool → ConnectionState → Bytes → SendResult → Bytes → Sending
after_send config mode_set connection packet result wire = elim result.status [
  | sent_all ↦ record { connection = connection; success = true; wire = wire }
  | would_block ↦
      let write_buffer = drop result.sent packet in
      record {
        connection = record connection { write_buffer = write_buffer };
        success =
            if ltb config.max_write_buffer_bytes (length write_buffer) then false else mode_set;
        wire = wire;
      }
  | io_error ↦ record { connection = connection; success = false; wire = wire }
]

unfoldable pub send_packet : ServerConfig → Answer → ConnectionState → Option Bytes → Sending
unfolding append_packet after_send send_all
send_packet config answer connection none = record {
  connection = connection;
  success = false;
  wire = [];
}
send_packet config answer connection (some packet) =
    if not (is_empty connection.write_buffer)
    then append_packet config connection packet
    else let (result, wire) = send_all answer.sends packet in
      after_send config answer.mode_set connection packet result wire

unfoldable pub send_to_client : ServerConfig → Answer → ConnectionState → Bytes → Sending
unfolding send_packet encode_packet
send_to_client config answer connection payload =
    send_packet config answer connection (encode_packet payload)

-- Behind the call of `send_all` in `flush_write_buffer`: the connection is kept or closed.
unfoldable pub after_flush : Bool → ConnectionState → SendResult → Bytes → Sending
after_flush mode_set connection result wire = elim result.status [
  | would_block ↦ record {
    connection = record connection { write_buffer = drop result.sent connection.write_buffer };
    success = true;
    wire = wire;
  }
  | io_error ↦ record { connection = connection; success = false; wire = wire }
  | sent_all ↦ record {
    connection = record connection { write_buffer = [] };
    success = mode_set && not connection.closing;
    wire = wire;
  }
]

unfoldable pub flush_connection : Answer → ConnectionState → Sending
unfolding after_flush send_all
flush_connection answer connection =
    let (result, wire) = send_all answer.sends connection.write_buffer in
    after_flush answer.mode_set connection result wire

unfoldable pub find_connection : TcpServer → ℕ → Option ConnectionState
unfolding lookup
find_connection s connection_id = lookup connection_id s.connections

-- `find_connection` of what was found for the descriptor.
find_by_id : TcpServer → Option ℕ → Option ConnectionState
unfolding find_connection
find_by_id s none = none
find_by_id s (some connection_id) = find_connection s connection_id

unfoldable pub find_connection_by_fd : TcpServer → ℕ → Option ConnectionState
unfolding find_by_id lookup
find_connection_by_fd s fd = find_by_id s (lookup fd s.connection_by_fd)

abbrev pub has_generation : Option ConnectionState → ℕ → Bool
has_generation none generation = false
has_generation (some connection) generation = generation == 0 || connection.generation == generation

unfoldable pub is_current_connection : TcpServer → ℕ → ℕ → Bool
unfolding find_connection
is_current_connection s connection_id generation =
    has_generation (find_connection s connection_id) generation

-- `close_connection` of a connection that is there.
unfoldable pub close_found : TcpServer → ℕ → ConnectionState → TcpServer
unfolding handle_disconnect erase
close_found s connection_id connection = record s {
  chat_service = handle_disconnect s.chat_service connection_id;
  connection_by_fd = erase connection.fd s.connection_by_fd;
  connections = erase connection_id s.connections;
  trace = s.trace ++ closed_fd connection.fd ∷ [];
}

close_if_found : TcpServer → ℕ → Option ConnectionState → TcpServer
unfolding close_found
close_if_found s connection_id none = s
close_if_found s connection_id (some connection) = close_found s connection_id connection

unfoldable pub close_connection : TcpServer → ℕ → TcpServer
unfolding close_if_found find_connection
close_connection s connection_id = close_if_found s connection_id (find_connection s connection_id)

close_client_found : TcpServer → ℕ → Option ℕ → TcpServer
unfolding close_connection
close_client_found s fd none = record s { trace = s.trace ++ closed_fd fd ∷ [] }
close_client_found s fd (some connection_id) = close_connection s connection_id

unfoldable pub close_client : TcpServer → ℕ → TcpServer
unfolding close_client_found lookup
close_client s fd = close_client_found s fd (lookup fd s.connection_by_fd)

-- The write to a connection of the map through a pointer into it.
abbrev pub put_connection : TcpServer → ℕ → ConnectionState → TcpServer
put_connection s connection_id connection = record s {
  connections = insert connection_id connection s.connections;
}

-- A connection that was sent to goes back into the map, and its bytes to the kernel.
unfoldable pub put_sending : TcpServer → ℕ → Sending → TcpServer
unfolding insert
put_sending s connection_id sending = record s {
  connections = insert connection_id sending.connection s.connections;
  trace = s.trace ++ sent_bytes sending.connection.fd sending.wire ∷ [];
}

-- A connection that was written to is kept, or closed if the call has failed.
unfoldable pub keep_or_close : TcpServer → ℕ → Sending → TcpServer
unfolding put_sending close_connection
keep_or_close s connection_id sending =
    let s' = put_sending s connection_id sending in
    if sending.success then s' else close_connection s' connection_id

flush_found : TcpServer → Answer → Option ConnectionState → TcpServer
unfolding keep_or_close flush_connection
flush_found s answer none = s
flush_found s answer (some connection) =
    if is_empty connection.write_buffer
    then s
    else keep_or_close s connection.connection_id (flush_connection answer connection)

unfoldable pub flush_write_buffer : TcpServer → Answer → ℕ → TcpServer
unfolding flush_found find_connection_by_fd
flush_write_buffer s answer fd = flush_found s answer (find_connection_by_fd s fd)
