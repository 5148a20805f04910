-- ===== src/TcpServer/Queues.antt =====
-- The response queue of src/network/tcp_server.cpp: what a worker does with one packet. Both queues
-- are changed under `response_mutex_`; the call of `wake_event_loop` behind it is left out.
pub mod Bounds
use cpp_chat.Base.{
  ℕ, ◌+◌, Bool, List, [], ◌∷◌, ◌++◌, Option, map, ltb, ◌==◌, if◌then◌else◌, Bytes, length,
}
use cpp_chat.Chat.Commands.{ChatService, OutboundMessage}
use cpp_chat.Chat.{handle_client_line}

pub record QueuedResponse : Type 0 where
  pub connection_id : ℕ
  pub generation : ℕ
  pub payload : Bytes
  pub close_after_send : Bool

pub record QueuedClose : Type 0 where
  pub connection_id : ℕ
  pub generation : ℕ

pub record ResponseQueues : Type 0 where
  pub response_queue : List QueuedResponse
  pub close_queue : List QueuedClose

-- Only replies to the sender carry the generation of its connection.
abbrev pub queued : ℕ → ℕ → OutboundMessage → QueuedResponse
queued connection_id generation message = record {
  connection_id = message.connection_id;
  generation = if message.connection_id == connection_id then generation else 0;
  payload = message.payload;
  close_after_send = message.close_after_send;
}

unfoldable pub push_responses : ℕ → ℕ → ℕ → List OutboundMessage → ResponseQueues → ResponseQueues
push_responses max_response_queue_size connection_id generation outbound_messages q =
    if ltb max_response_queue_size (length q.response_queue + length outbound_messages)
    then record q {
      close_queue =
          q.close_queue ++ (record { connection_id = connection_id; generation = generation }) ∷ [];
    }
    else record q {
      response_queue = q.response_queue ++ map (queued connection_id generation) outbound_messages;
    }

module _ (pbkdf2 : Bytes → ℕ → Bytes → Option Bytes) where
  unfoldable pub process_packet_async :
      ℕ → ChatService → Option Bytes → ℕ → ℕ → Bytes → ResponseQueues → ChatService × ResponseQueues
  unfolding handle_client_line push_responses
  process_packet_async max_response_queue_size s salt connection_id generation payload q =
      let (s', outbound_messages) = handle_client_line pbkdf2 s salt connection_id payload in
      (s', push_responses max_response_queue_size connection_id generation outbound_messages q)
