-- ===== src/Chat.antt =====
-- src/chat/chat_service.cpp and include/cpp_chat/chat/chat_service.h. The state is what the references
-- of `ChatService` refer to; the logger, which is only written to, is left out. `salt` is the answer
-- of `RAND_bytes`, which a registration asks for.
pub mod Commands
pub mod Invariant
pub mod Access
pub mod Unauthenticated
use cpp_chat.Base.{ℕ, Bool, List, Option, none, some, Bytes}
use cpp_chat.Protocol.Result.{Parsed, ok, err}
use cpp_chat.Protocol.Message.{MessageType, ClientCommand, Message}
use cpp_chat.Protocol.Command.{parse_client_command}
use cpp_chat.Protocol.Format.{format_error}
use cpp_chat.Session.{Session, find_by_connection, unbind_connection}
use cpp_chat.Storage.Messages.{append}
use cpp_chat.Chat.Commands.{
  ChatService, OutboundMessage, Outcome, reply, ping, register, login, logout, create_group,
  group_join, group_leave, group_chat, history_query, direct_chat, unread_query, unsupported,
}

unfoldable pub handle_message : ChatService → Message → ChatService
unfolding append
handle_message s message = record s { message_store = (append s.message_store message).0 }

module _ (pbkdf2 : Bytes → ℕ → Bytes → Option Bytes) where
  -- The commands that need a login.
  unfoldable pub authenticated : ChatService → ℕ → ClientCommand → Option Session → Outcome
  unfolding logout create_group group_join group_leave group_chat history_query direct_chat
      unread_query unsupported
  authenticated s connection_id command none =
      (s, reply connection_id (format_error (cpp_chat.Base.codes "please login first")))
  authenticated s connection_id command (some sender) = elim command.type [
    | MessageType.logout ↦ logout s connection_id
    | MessageType.create_group ↦ create_group s connection_id sender command
    | MessageType.group_join ↦ group_join s connection_id sender command
    | MessageType.group_leave ↦ group_leave s connection_id sender command
    | MessageType.group_chat ↦ group_chat s connection_id sender command
    | MessageType.history_query ↦ history_query s connection_id sender command
    | MessageType.direct_chat ↦ direct_chat s connection_id sender command
    | MessageType.unread_query ↦ unread_query s connection_id sender command
    | _ ↦ unsupported s connection_id
  ]

  unfoldable pub handle_command : ChatService → Option Bytes → ℕ → ClientCommand → Outcome
  unfolding ping register login authenticated find_by_connection
  handle_command s salt connection_id command = elim command.type [
    | MessageType.ping ↦ ping s connection_id
    | MessageType.register ↦ register pbkdf2 s salt connection_id command
    | MessageType.login ↦ login pbkdf2 s connection_id command
    | _ ↦ authenticated s connection_id command (find_by_connection s.sessions connection_id)
  ]

  handle_parsed : ChatService → Option Bytes → ℕ → Parsed ClientCommand → Outcome
  unfolding handle_command
  handle_parsed s salt connection_id (err error) = (s, reply connection_id (format_error error))
  handle_parsed s salt connection_id (ok command) = handle_command s salt connection_id command

  unfoldable pub handle_client_line : ChatService → Option Bytes → ℕ → Bytes → Outcome
  unfolding handle_parsed parse_client_command
  handle_client_line s salt connection_id line =
      handle_parsed s salt connection_id (parse_client_command line)

unfoldable pub handle_disconnect : ChatService → ℕ → ChatService
unfolding unbind_connection
handle_disconnect s connection_id = record s {
  sessions = unbind_connection s.sessions connection_id;
}
