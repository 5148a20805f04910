-- ===== src/Tests/Chats.antt =====
-- A server with no users, whose first client registers, and one whose client is not logged in.
use cpp_chat.TcpServer.Queues.{ResponseQueues, process_packet_async}
use cpp_chat.TcpServer.Queues.Bounds.{process_packet_async_bounded}
use cpp_chat.Base.{
  length, ◌≤◌, ℕ, refl, [], ◌∷◌, Option, some, arith, Bytes, codes, string_eq, nat_eq,
}
use cpp_chat.Base.Maps.{lookup}
use cpp_chat.Protocol.Command.Requests.{register, request_fields}
use cpp_chat.Protocol.Json.Object.{object_text}
use cpp_chat.Session.{empty, find_by_connection}
use cpp_chat.Session.Consistency.{empty-IsConsistent}
use cpp_chat.Chat.Commands.{ChatService}
use cpp_chat.Chat.Commands.Invariant.{IsConsistent}
use cpp_chat.Chat.{handle_client_line}
use cpp_chat.Chat.Unauthenticated.{IsHarmless, handle_client_line-IsHarmless}
use cpp_chat.Chat.Invariant.{handle_client_line-IsConsistent}

abbrev pub new_service : ChatService
new_service = record {
  sessions = empty;
  message_store = record { messages = [] };
  user_store = record { users_by_username = []; usernames_by_id = []; next_memory_id = 1 };
  group_store = record { memory_groups = []; next_group_id = 1 };
  group_member_store = record { memory_members = [] };
}

new_service-IsConsistent : IsConsistent new_service
unfolding lookup
new_service-IsConsistent = record {
  sessions = empty-IsConsistent;
  users = record { named = λ n r h. absurd (cc); numbered = λ i n h. absurd (cc) };
  members = tt;
}

-- It hashes every password to itself.
abbrev pub no_hash : Bytes → ℕ → Bytes → Option Bytes
no_hash password iterations salt = some password

abbrev register_line : Bytes
register_line = object_text (request_fields (register (codes "alice") (codes "secret")))

handle_client_line-IsConsistent_example :
    IsConsistent (handle_client_line no_hash new_service (some (1 ∷ [])) 7 register_line).0
handle_client_line-IsConsistent_example =
    handle_client_line-IsConsistent no_hash new_service (some (1 ∷ [])) 7 register_line
      new_service-IsConsistent (omega arith)

handle_client_line-IsHarmless_example :
    IsHarmless new_service 7
      (handle_client_line no_hash new_service (some (1 ∷ [])) 7 register_line)
unfolding find_by_connection
handle_client_line-IsHarmless_example =
    handle_client_line-IsHarmless no_hash new_service (some (1 ∷ [])) 7 register_line refl

abbrev no_responses : ResponseQueues
no_responses = record { response_queue = []; close_queue = [] }

process_packet_async_bounded_example :
    length
      (process_packet_async no_hash 2 new_service
        (some (1 ∷ []))
        7
        1
        register_line
        no_responses).1.response_queue
    ≤ 2
process_packet_async_bounded_example =
    process_packet_async_bounded no_hash 2 new_service (some (1 ∷ [])) 7 1 register_line
      no_responses (omega arith)
