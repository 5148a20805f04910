-- ===== src/TcpServer/Queues/Bounds.antt =====
-- The response queue keeps its bound.
use cpp_chat.Base.{
  ℕ, ◌≤◌, ◌≡◌, refl, arith, List, [], ◌∷◌, map, Option, Bytes, length, length-append,
}
use cpp_chat.Chat.Commands.{ChatService, OutboundMessage}
use cpp_chat.Chat.{handle_client_line}
use cpp_chat.TcpServer.Queues.{ResponseQueues, queued, push_responses, process_packet_async}

length-map {ℓ κ} :
    {A : Type ℓ} {B : Type κ} (f : A → B) (xs : List A) → length (map f xs) ≡ length xs
length-map f [] = refl
length-map f (x ∷ xs) = omega (arith, length-map f xs)

push_responses_bounded :
    (max_size connection_id generation : ℕ) (messages : List OutboundMessage) (q : ResponseQueues)
    → length q.response_queue ≤ max_size
    → length (push_responses max_size connection_id generation messages q).response_queue ≤ max_size
unfolding push_responses
push_responses_bounded max_size connection_id generation messages q h = ground (
  arith,
  length-append q.response_queue (map (queued connection_id generation) messages),
  length-map (queued connection_id generation) messages,
)

-- A worker that handles a packet never makes the response queue longer than its limit, if it was not
-- longer before.
pub process_packet_async_bounded :
    (pbkdf2 : Bytes → ℕ → Bytes → Option Bytes) (max_size : ℕ) (s : ChatService)
    (salt : Option Bytes) (connection_id generation : ℕ) (payload : Bytes) (q : ResponseQueues)
    → length q.response_queue ≤ max_size
    → length
        (process_packet_async pbkdf2 max_size s salt connection_id generation payload
          q).1.response_queue
      ≤ max_size
unfolding process_packet_async
process_packet_async_bounded pbkdf2 max_size s salt connection_id generation payload q h =
    push_responses_bounded max_size connection_id generation
      (handle_client_line pbkdf2 s salt connection_id payload).1 q h
