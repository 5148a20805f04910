-- ===== src/Chat/Commands.antt =====
-- The branches of `handle_client_line` in src/chat/chat_service.cpp, one function each.
pub mod Invariant
use cpp_chat.Base.{
  ℕ, min, max, Bool, true, false, not, ◌||◌, List, [], ◌∷◌, ◌++◌, Option, none, some, map, ltb,
  ◌==◌, if◌then◌else◌, Bytes, codes, is_some, length, reverse,
}
use cpp_chat.Protocol.Message.{MessageType, ClientCommand, Message}
use cpp_chat.Protocol.Format.{
  decimal, format_ok, format_error, format_register_success, format_register_failed,
  format_login_success, format_login_failed, format_create_group_success, format_message_ack,
  format_direct_message, format_group_message, format_history_item, format_history_end,
  format_unread_end, format_pong,
}
use cpp_chat.Session.{
  Session, SessionManager, bind, unbind_connection, find, find_by_connection, find_by_username,
  is_username_online,
}
use cpp_chat.Session
use cpp_chat.Storage.Messages.{
  MessageStore, StoredMessage, append, direct_history_page, group_history_page, unread_page,
  is_group_chat,
}
use cpp_chat.Storage.Users.{
  UserStore, UserRecord, register_user, verify_login, find_user_by_id, find_user_by_username,
}
use cpp_chat.Storage.Groups.{GroupStore}
use cpp_chat.Storage.Groups
use cpp_chat.Storage.Members.{
  GroupMemberStore, is_group_member, load_group_members, load_user_groups,
}
use cpp_chat.Storage.Members

pub record OutboundMessage : Type 0 where
  pub connection_id : ℕ
  pub payload : Bytes
  pub close_after_send : Bool

pub record ChatService : Type 0 where
  pub sessions : SessionManager
  pub message_store : MessageStore
  pub user_store : UserStore
  pub group_store : GroupStore
  pub group_member_store : GroupMemberStore

-- The state afterwards, and what is sent.
abbrev pub Outcome : Type 0
Outcome = ChatService × List OutboundMessage

abbrev pub out : ℕ → Bytes → OutboundMessage
out connection_id text = record {
  connection_id = connection_id;
  payload = text;
  close_after_send = false;
}

-- `{{connection_id, text}}`
abbrev pub reply : ℕ → Bytes → List OutboundMessage
reply connection_id text = out connection_id text ∷ []

unfoldable pub normalize_history_limit : ℕ → ℕ
normalize_history_limit limit = if limit == 0 then 20 else min limit 100

unfoldable pub ping : ChatService → ℕ → Outcome
ping s connection_id = (s, reply connection_id format_pong)

module _ (pbkdf2 : Bytes → ℕ → Bytes → Option Bytes) where
  unfoldable pub register : ChatService → Option Bytes → ℕ → ClientCommand → Outcome
  unfolding find_by_connection register_user
  register s salt connection_id command =
      let (users, result) =
        register_user pbkdf2 s.user_store salt command.username command.password in
      if is_some (find_by_connection s.sessions connection_id)
      then (s, reply connection_id (format_error (codes "already logged in")))
      else if not result.success
      then (
        record s { user_store = users },
        reply connection_id (format_register_failed result.reason),
      )
      else (
        record s { user_store = users },
        reply connection_id (format_register_success result.user_id),
      )

  -- Behind `verify_login`.
  unfoldable pub log_in : ChatService → ℕ → Option UserRecord → Outcome
  unfolding bind
  log_in s connection_id none =
      (s, reply connection_id (format_login_failed (codes "invalid username or password")))
  log_in s connection_id (some user) = (
    record s {
      sessions =
          bind s.sessions
            (record { user_id = user.id; connection_id = connection_id; username = user.username });
    },
    reply connection_id (format_login_success user.id user.username),
  )

  unfoldable pub login : ChatService → ℕ → ClientCommand → Outcome
  unfolding find_by_connection is_username_online verify_login log_in
  login s connection_id command =
      if is_some (find_by_connection s.sessions connection_id)
      then (s, reply connection_id (format_login_failed (codes "already logged in")))
      else if is_username_online s.sessions command.username
      then (s, reply connection_id (format_login_failed (codes "user already online")))
      else log_in s connection_id
          (verify_login pbkdf2 s.user_store command.username command.password)

unfoldable pub logout : ChatService → ℕ → Outcome
unfolding unbind_connection
logout s connection_id = (
  record s { sessions = unbind_connection s.sessions connection_id },
  record {
    connection_id = connection_id;
    payload = format_ok (codes "logout");
    close_after_send = true;
  }
      ∷ [],
)

unfoldable pub create_group : ChatService → ℕ → Session → ClientCommand → Outcome
unfolding cpp_chat.Storage.Groups.create_group cpp_chat.Storage.Members.join_group
    cpp_chat.Session.join_group
create_group s connection_id sender command =
    let (groups, result) =
      cpp_chat.Storage.Groups.create_group s.group_store command.group_name sender.user_id in
    let (members, joined) =
      cpp_chat.Storage.Members.join_group s.group_member_store result.group.id sender.user_id in
    if not result.success
    then (record s { group_store = groups }, reply connection_id (format_error result.reason))
    else if not joined.success
    then (
      record s { group_store = groups; group_member_store = members },
      reply connection_id (format_error joined.reason),
    )
    else (
      record s {
        group_store = groups;
        group_member_store = members;
        sessions = cpp_chat.Session.join_group s.sessions result.group.id sender.user_id;
      },
      reply connection_id (format_create_group_success result.group.id result.group.name),
    )

unfoldable pub group_join : ChatService → ℕ → Session → ClientCommand → Outcome
unfolding cpp_chat.Storage.Members.join_group cpp_chat.Session.join_group
group_join s connection_id sender command =
    let (members, result) =
      cpp_chat.Storage.Members.join_group s.group_member_store command.group_id sender.user_id in
    if not result.success
    then (
      record s { group_member_store = members },
      reply connection_id (format_error result.reason),
    )
    else (
      record s {
        group_member_store = members;
        sessions = cpp_chat.Session.join_group s.sessions command.group_id sender.user_id;
      },
      reply connection_id (format_ok (codes "joined group " ++ decimal command.group_id)),
    )

unfoldable pub group_leave : ChatService → ℕ → Session → ClientCommand → Outcome
unfolding cpp_chat.Storage.Members.leave_group cpp_chat.Session.leave_group
group_leave s connection_id sender command =
    let (members, result) =
      cpp_chat.Storage.Members.leave_group s.group_member_store command.group_id sender.user_id in
    if not result.success
    then (
      record s { group_member_store = members },
      reply connection_id (format_error result.reason),
    )
    else (
      record s {
        group_member_store = members;
        sessions = cpp_chat.Session.leave_group s.sessions command.group_id sender.user_id;
      },
      reply connection_id (format_ok (codes "left group " ++ decimal command.group_id)),
    )

-- One round of the loop over the members.
to_member : Bytes → Option Session → List OutboundMessage → List OutboundMessage
to_member formatted none rest = rest
to_member formatted (some session) rest = out session.connection_id formatted ∷ rest

unfoldable pub to_members : SessionManager → ℕ → Bytes → List ℕ → List OutboundMessage
unfolding to_member find
to_members sessions sender_id formatted [] = []
to_members sessions sender_id formatted (member_id ∷ members) =
    let rest = to_members sessions sender_id formatted members in
    if member_id == sender_id then rest else to_member formatted (find sessions member_id) rest

-- `delivered` is set exactly when something is put into `out`.
abbrev pub is_delivered : List OutboundMessage → Bool
is_delivered [] = false
is_delivered (o ∷ sent) = true

unfoldable pub group_chat : ChatService → ℕ → Session → ClientCommand → Outcome
unfolding is_group_member append load_group_members to_members
group_chat s connection_id sender command =
    let group_id = command.group_id in
    let (messages, stored) = append s.message_store (record {
      type = MessageType.group_chat;
      sender_id = sender.user_id;
      receiver_id = group_id;
      body = command.body;
    }) in
    let sent =
      to_members s.sessions sender.user_id
        (format_group_message group_id sender.username command.body)
        (load_group_members s.group_member_store group_id) in
    if not (is_group_member s.group_member_store group_id sender.user_id)
    then (s, reply connection_id (format_error (codes "not a member of this group")))
    else (
      record s { message_store = messages },
      sent ++ out connection_id (format_message_ack stored.id true (is_delivered sent)) ∷ [],
    )

-- The loop's cursor: the least id so far, where 0 is none.
unfoldable pub least_id : ℕ → List StoredMessage → ℕ
least_id next_before_id [] = next_before_id
least_id next_before_id (msg ∷ history) =
    least_id (if next_before_id == 0 || ltb msg.id next_before_id then msg.id else next_before_id)
      history

-- `from.has_value() ? from->username : std::to_string(id)`
abbrev pub name_or_id : Option UserRecord → ℕ → Bytes
name_or_id none id = decimal id
name_or_id (some user) id = user.username

abbrev pub group_item : UserStore → ℕ → StoredMessage → OutboundMessage
unfolding find_user_by_id
group_item users connection_id msg = out connection_id (
    format_history_item msg.id (codes "gc")
      (name_or_id (find_user_by_id users msg.sender_id) msg.sender_id) (decimal msg.receiver_id)
      msg.body msg.created_at)

abbrev pub direct_item : UserStore → ℕ → StoredMessage → OutboundMessage
unfolding find_user_by_id
direct_item users connection_id msg = out connection_id (
    format_history_item msg.id (codes "dm")
      (name_or_id (find_user_by_id users msg.sender_id) msg.sender_id)
      (name_or_id (find_user_by_id users msg.receiver_id) msg.receiver_id) msg.body msg.created_at)

-- Both histories, from `std::reverse` on.
abbrev pub show_history :
    (StoredMessage → OutboundMessage) → ℕ → ℕ → List StoredMessage → List OutboundMessage
unfolding reverse least_id
show_history item connection_id limit page =
    let history = reverse page in
    map item history
    ++ out connection_id (format_history_end (length history == limit) (least_id 0 history)) ∷ []

unfoldable pub group_history : ChatService → ℕ → Session → ClientCommand → Outcome
unfolding is_group_member group_history_page normalize_history_limit group_item show_history
group_history s connection_id sender command =
    let limit = normalize_history_limit command.limit in
    if not (is_group_member s.group_member_store command.group_id sender.user_id)
    then (s, reply connection_id (format_error (codes "not a member of this group")))
    else (
      s,
      show_history (group_item s.user_store connection_id) connection_id limit
          (group_history_page s.message_store command.group_id limit command.before_id),
    )

with_peer : ChatService → ℕ → Session → ClientCommand → Option UserRecord → Outcome
unfolding direct_history_page normalize_history_limit direct_item show_history
with_peer s connection_id sender command none =
    (s, reply connection_id (format_error (codes "peer not found")))
with_peer s connection_id sender command (some peer) =
    let limit = normalize_history_limit command.limit in
    (
      s,
      show_history (direct_item s.user_store connection_id) connection_id limit
          (direct_history_page s.message_store sender.user_id peer.id limit command.before_id),
    )

unfoldable pub history_query : ChatService → ℕ → Session → ClientCommand → Outcome
unfolding group_history with_peer find_user_by_username
history_query s connection_id sender command =
    if command.group_history
    then group_history s connection_id sender command
    else with_peer s connection_id sender command
        (find_user_by_username s.user_store command.target_username)

-- The two ways out behind `append`.
deliver_direct : ℕ → Session → Bytes → ℕ → Option Session → List OutboundMessage
deliver_direct connection_id sender body id none =
    reply connection_id (format_message_ack id true false)
deliver_direct connection_id sender body id (some receiver) =
    out receiver.connection_id (format_direct_message sender.username body)
    ∷ out connection_id (format_message_ack id true true)
    ∷ []

send_direct : ChatService → ℕ → Session → ClientCommand → Option UserRecord → Outcome
unfolding append deliver_direct find_by_username
send_direct s connection_id sender command none =
    (s, reply connection_id (format_error (codes "receiver not found")))
send_direct s connection_id sender command (some receiver) =
    let (messages, stored) = append s.message_store (record {
      type = MessageType.direct_chat;
      sender_id = sender.user_id;
      receiver_id = receiver.id;
      body = command.body;
    }) in
    (
      record s { message_store = messages },
      deliver_direct connection_id sender command.body stored.id
          (find_by_username s.sessions command.target_username),
    )

unfoldable pub direct_chat : ChatService → ℕ → Session → ClientCommand → Outcome
unfolding send_direct find_user_by_username
direct_chat s connection_id sender command =
    send_direct s connection_id sender command
      (find_user_by_username s.user_store command.target_username)

-- The loop's cursor: the greatest id so far.
unfoldable pub greatest_id : ℕ → List StoredMessage → ℕ
greatest_id next_last_seen [] = next_last_seen
greatest_id next_last_seen (msg ∷ unread) = greatest_id (max next_last_seen msg.id) unread

unfoldable pub unread_query : ChatService → ℕ → Session → ClientCommand → Outcome
unfolding normalize_history_limit load_user_groups unread_page greatest_id group_item direct_item
unread_query s connection_id sender command =
    let limit = normalize_history_limit command.limit in
    let unread =
      unread_page s.message_store sender.user_id
        (load_user_groups s.group_member_store sender.user_id) command.last_seen_message_id limit in
    (
      s,
      map
            (λ msg.
              if is_group_chat msg.type
              then group_item s.user_store connection_id msg
              else direct_item s.user_store connection_id msg)
            unread
          ++ out connection_id (
              format_unread_end (length unread == limit)
                (greatest_id command.last_seen_message_id unread))
            ∷ [],
    )

unfoldable pub unsupported : ChatService → ℕ → Outcome
unsupported s connection_id = (s, reply connection_id (format_error (codes "unsupported command")))
