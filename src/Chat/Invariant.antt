-- ===== src/Chat/Invariant.antt =====
-- Every line from a client leaves the sessions, the users and the group members well formed.
use cpp_chat.Base.{ℕ, ◌+◌, ◌<◌, ◌^◌, ◌≡◌, refl, Option, none, some, Bytes}
use cpp_chat.Protocol.Result.{Parsed, ok, err}
use cpp_chat.Protocol.Message.{MessageType, ClientCommand}
use cpp_chat.Protocol.Command.{parse_client_command}
use cpp_chat.Session.{Session, find_by_connection}
use cpp_chat.Session.Methods
use cpp_chat.Chat.Commands.{ChatService}
use cpp_chat.Chat.Commands.Invariant.{
  IsConsistent, register-IsConsistent, login-IsConsistent, logout-IsConsistent,
  create_group-IsConsistent, group_join-IsConsistent, group_leave-IsConsistent,
  group_chat-IsConsistent, direct_chat-IsConsistent, history_query-IsConsistent,
}
use cpp_chat.Chat.Access.{guarded}
use cpp_chat.Chat.{
  authenticated, handle_command, handle_parsed, handle_client_line, handle_disconnect,
}

module _ (pbkdf2 : Bytes → ℕ → Bytes → Option Bytes) (s : ChatService) where
  -- The cases by the type of the command.
  authenticated_case :
      (connection_id : ℕ) (command : ClientCommand) (sender : Session) (type : MessageType)
      → command.type ≡ type
      → IsConsistent s
      → IsConsistent (authenticated pbkdf2 s connection_id command (some sender)).0
  unfolding authenticated
  authenticated_case c command sender MessageType.logout e v = rw e (logout-IsConsistent s c v)
  authenticated_case c command sender MessageType.create_group e v =
      rw e (create_group-IsConsistent s c sender command v)
  authenticated_case c command sender MessageType.group_join e v =
      rw e (group_join-IsConsistent s c sender command v)
  authenticated_case c command sender MessageType.group_leave e v =
      rw e (group_leave-IsConsistent s c sender command v)
  authenticated_case c command sender MessageType.group_chat e v =
      rw e (group_chat-IsConsistent s c sender command v)
  authenticated_case c command sender MessageType.history_query e v =
      rw e (history_query-IsConsistent s c sender command v)
  authenticated_case c command sender MessageType.direct_chat e v =
      rw e (direct_chat-IsConsistent s c sender command v)
  authenticated_case c command sender _ e v = rw e v

  authenticated-IsConsistent :
      (connection_id : ℕ) (command : ClientCommand) (o : Option Session)
      → IsConsistent s
      → IsConsistent (authenticated pbkdf2 s connection_id command o).0
  unfolding authenticated
  authenticated-IsConsistent c command none v = v
  authenticated-IsConsistent c command (some sender) v =
      authenticated_case c command sender command.type refl v

  command_case :
      (salt : Option Bytes) (connection_id : ℕ) (command : ClientCommand) (type : MessageType)
      → command.type ≡ type
      → IsConsistent s
      → s.user_store.next_memory_id + 1 < 2 ^ 64
      → IsConsistent (handle_command pbkdf2 s salt connection_id command).0
  unfolding handle_command
  command_case salt c command MessageType.ping e v room = rw e v
  command_case salt c command MessageType.register e v room =
      rw e (register-IsConsistent pbkdf2 s salt c command v room)
  command_case salt c command MessageType.login e v room =
      rw e (login-IsConsistent pbkdf2 s c command v)
  command_case salt c command type e v room =
      rw (guarded pbkdf2 s salt c command type e refl)
        (authenticated-IsConsistent c command (find_by_connection s.sessions c) v)

  parsed-IsConsistent :
      (salt : Option Bytes) (connection_id : ℕ) (parsed : Parsed ClientCommand)
      → IsConsistent s
      → s.user_store.next_memory_id + 1 < 2 ^ 64
      → IsConsistent (handle_parsed pbkdf2 s salt connection_id parsed).0
  unfolding handle_parsed
  parsed-IsConsistent salt c (err error) v room = v
  parsed-IsConsistent salt c (ok command) v room =
      command_case salt c command command.type refl v room

  -- Whatever a client sends, the indices of the sessions still agree with each other, as do those of
  -- the users, and each group still has one set of members, as long as 64 bits are enough for the
  -- ids of the users.
  pub handle_client_line-IsConsistent :
      (salt : Option Bytes) (connection_id : ℕ) (line : Bytes)
      → IsConsistent s
      → s.user_store.next_memory_id + 1 < 2 ^ 64
      → IsConsistent (handle_client_line pbkdf2 s salt connection_id line).0
  unfolding handle_client_line
  handle_client_line-IsConsistent salt c line =
      parsed-IsConsistent salt c (parse_client_command line)

-- After a connection has gone, the indices still agree as before.
pub handle_disconnect-IsConsistent :
    (s : ChatService) (connection_id : ℕ)
    → IsConsistent s
    → IsConsistent (handle_disconnect s connection_id)
unfolding handle_disconnect
handle_disconnect-IsConsistent s c v = record {
  sessions = cpp_chat.Session.Methods.unbind_connection-IsConsistent s.sessions c v.sessions;
  users = v.users;
  members = v.members;
}
