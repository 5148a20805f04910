-- ===== src/Chat/Access.antt =====
-- The commands that `handle_client_line` in src/chat/chat_service.cpp takes only behind a login.
use cpp_chat.Base.{ℕ, ◌≡◌, Bool, true, false, Option, Bytes}
use cpp_chat.Protocol.Message.{MessageType, ClientCommand}
use cpp_chat.Session.{find_by_connection}
use cpp_chat.Chat.Commands.{ChatService}
use cpp_chat.Chat.{handle_command, authenticated}

-- All but `ping`, `register` and `login`.
abbrev pub needs_login : MessageType → Bool
needs_login MessageType.ping = false
needs_login MessageType.register = false
needs_login MessageType.login = false
needs_login _ = true

pub guarded :
    (pbkdf2 : Bytes → ℕ → Bytes → Option Bytes) (s : ChatService) (salt : Option Bytes)
    (connection_id : ℕ) (command : ClientCommand) (type : MessageType)
    → command.type ≡ type
    → needs_login type ≡ true
    → handle_command pbkdf2 s salt connection_id command
      ≡ authenticated pbkdf2 s connection_id command (find_by_connection s.sessions connection_id)
unfolding handle_command
guarded pbkdf2 s salt connection_id command MessageType.ping e h = cc
guarded pbkdf2 s salt connection_id command MessageType.register e h = cc
guarded pbkdf2 s salt connection_id command MessageType.login e h = cc
guarded pbkdf2 s salt connection_id command _ e h = rw e
