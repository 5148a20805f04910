-- ===== src/Protocol/Message.antt =====
-- The types of message.h, and `to_string` of a message type.
use cpp_chat.Base.{ℕ, Bool, false, Bytes, [], codes}

pub data MessageType : Type 0 where
  register login logout direct_chat group_chat create_group group_join group_leave : MessageType
  history_query unread_query ping system : MessageType

pub record Message : Type 0 where
  pub type : MessageType
  pub sender_id : ℕ
  pub receiver_id : ℕ
  pub body : Bytes

pub record ClientCommand : Type 0 where
  pub type : MessageType
  pub user_id : ℕ
  pub receiver_id : ℕ
  pub group_id : ℕ
  pub last_seen_message_id : ℕ
  pub limit : ℕ
  pub before_id : ℕ
  pub username : Bytes
  pub password : Bytes
  pub target_username : Bytes
  pub group_name : Bytes
  pub body : Bytes
  pub group_history : Bool

-- The default member initialisers.
abbrev pub default_command : ClientCommand
default_command = record {
  type = MessageType.system;
  user_id = 0;
  receiver_id = 0;
  group_id = 0;
  last_seen_message_id = 0;
  limit = 20;
  before_id = 0;
  username = [];
  password = [];
  target_username = [];
  group_name = [];
  body = [];
  group_history = false;
}

unfoldable pub to_string : MessageType → Bytes
to_string MessageType.register = codes "register"
to_string MessageType.login = codes "login"
to_string MessageType.logout = codes "logout"
to_string MessageType.direct_chat = codes "direct_chat"
to_string MessageType.group_chat = codes "group_chat"
to_string MessageType.create_group = codes "create_group"
to_string MessageType.group_join = codes "group_join"
to_string MessageType.group_leave = codes "group_leave"
to_string MessageType.history_query = codes "history_query"
to_string MessageType.unread_query = codes "unread_query"
to_string MessageType.ping = codes "ping"
to_string MessageType.system = codes "system"
