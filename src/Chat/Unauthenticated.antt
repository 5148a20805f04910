-- ===== src/Chat/Unauthenticated.antt =====
-- What a client that has not logged in can do through `handle_client_line` in
-- src/chat/chat_service.cpp.
use cpp_chat.Base.{
  ℕ, ◌≡◌, refl, if◌then◌else◌, Bool, true, false, not, Option, none, some, is_some, Bytes, codes,
}
use cpp_chat.Protocol.Format.{
  format_error, format_register_failed, format_register_success, format_login_failed,
}
use cpp_chat.Protocol.Result.{Parsed, ok, err}
use cpp_chat.Protocol.Message.{MessageType, ClientCommand}
use cpp_chat.Protocol.Command.{parse_client_command}
use cpp_chat.Session.{SessionManager, find_by_connection, is_username_online}
use cpp_chat.Storage.Users.{UserStore, UserRecord, register_user, verify_login}
use cpp_chat.Chat.Access.{guarded}
use cpp_chat.Chat.Commands.{ChatService, Outcome, reply, ping, register, login, log_in}
use cpp_chat.Chat.{authenticated, handle_command, handle_parsed, handle_client_line}

-- The messages, the groups and their members are as before, and one answer goes out, to the
-- connection the line came from; the connection stays open.
pub record IsHarmless (s : ChatService) (connection_id : ℕ) (o : Outcome) : Type 0 where
  pub messages : o.0.message_store ≡ s.message_store
  pub groups : o.0.group_store ≡ s.group_store
  pub members : o.0.group_member_store ≡ s.group_member_store
  pub answer : Bytes
  pub answered : o.1 ≡ reply connection_id answer

-- An outcome with at most other sessions and users.
harmless :
    {s : ChatService} (sessions : SessionManager) (users : UserStore) (connection_id : ℕ)
    (text : Bytes)
    → IsHarmless s connection_id
        (record s { sessions = sessions; user_store = users }, reply connection_id text)
harmless sessions users c text = record {
  messages = refl;
  groups = refl;
  members = refl;
  answer = text;
  answered = refl;
}

if-IsHarmless :
    {s : ChatService} {c : ℕ} (b : Bool) {x y : Outcome}
    → IsHarmless s c x
    → IsHarmless s c y
    → IsHarmless s c (if b then x else y)
if-IsHarmless true h h' = h
if-IsHarmless false h h' = h'

module _ (pbkdf2 : Bytes → ℕ → Bytes → Option Bytes) (s : ChatService) where
  register-IsHarmless :
      (salt : Option Bytes) (connection_id : ℕ) (command : ClientCommand)
      → IsHarmless s connection_id (register pbkdf2 s salt connection_id command)
  unfolding register
  register-IsHarmless salt c command =
      let (users, result) =
        register_user pbkdf2 s.user_store salt command.username command.password in
      if-IsHarmless (is_some (find_by_connection s.sessions c))
        (harmless s.sessions s.user_store c (format_error (codes "already logged in")))
        (if-IsHarmless (not result.success)
          (harmless s.sessions users c (format_register_failed result.reason))
          (harmless s.sessions users c (format_register_success result.user_id)))

  log_in-IsHarmless :
      (connection_id : ℕ) (user : Option UserRecord)
      → IsHarmless s connection_id (log_in pbkdf2 s connection_id user)
  unfolding log_in
  log_in-IsHarmless c none = harmless s.sessions s.user_store c _
  log_in-IsHarmless c (some user) = harmless _ s.user_store c _

  login-IsHarmless :
      (connection_id : ℕ) (command : ClientCommand)
      → IsHarmless s connection_id (login pbkdf2 s connection_id command)
  unfolding login
  login-IsHarmless c command =
      if-IsHarmless (is_some (find_by_connection s.sessions c))
        (harmless s.sessions s.user_store c (format_login_failed (codes "already logged in")))
        (if-IsHarmless (is_username_online s.sessions command.username)
          (harmless s.sessions s.user_store c (format_login_failed (codes "user already online")))
          (log_in-IsHarmless c
            (verify_login pbkdf2 s.user_store command.username command.password)))

  command-IsHarmless :
      (salt : Option Bytes) (connection_id : ℕ) (command : ClientCommand) (type : MessageType)
      → command.type ≡ type
      → find_by_connection s.sessions connection_id ≡ none
      → IsHarmless s connection_id (handle_command pbkdf2 s salt connection_id command)
  unfolding handle_command
  command-IsHarmless salt c command MessageType.ping e out =
      unfold ping in rw e (harmless s.sessions s.user_store c _)
  command-IsHarmless salt c command MessageType.register e out =
      rw e (register-IsHarmless salt c command)
  command-IsHarmless salt c command MessageType.login e out = rw e (login-IsHarmless c command)
  command-IsHarmless salt c command type e out =
      unfold authenticated in
      rw (guarded pbkdf2 s salt c command type e refl)
        (rw (out, authenticated) (harmless s.sessions s.user_store c _))

  parsed-IsHarmless :
      (salt : Option Bytes) (connection_id : ℕ) (parsed : Parsed ClientCommand)
      → find_by_connection s.sessions connection_id ≡ none
      → IsHarmless s connection_id (handle_parsed pbkdf2 s salt connection_id parsed)
  unfolding handle_parsed
  parsed-IsHarmless salt c (err error) out = harmless s.sessions s.user_store c _
  parsed-IsHarmless salt c (ok command) out =
      command-IsHarmless salt c command command.type refl out

  -- Whatever a client sends on a connection without a session, be it a command, a registration, a
  -- login or bytes that are no command, the messages, the groups and their members are as before,
  -- and exactly one answer goes out, to that connection, which is not closed.
  pub handle_client_line-IsHarmless :
      (salt : Option Bytes) (connection_id : ℕ) (line : Bytes)
      → find_by_connection s.sessions connection_id ≡ none
      → IsHarmless s connection_id (handle_client_line pbkdf2 s salt connection_id line)
  unfolding handle_client_line
  handle_client_line-IsHarmless salt c line = parsed-IsHarmless salt c (parse_client_command line)
