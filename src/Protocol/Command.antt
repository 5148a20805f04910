-- ===== src/Protocol/Command.antt =====
-- `parse_client_command`. An error is the text that the source writes to `error`.
pub mod Validity
pub mod Requests
use cpp_chat.Base.{ℕ, Bool, true, ◌||◌, not, min, if◌then◌else◌, Bytes, codes, bytes_eq, is_empty}
use cpp_chat.Protocol.Result.{Parsed, ok, err, ◌>>=◌, ◌>>◌, guard}
use cpp_chat.Protocol.Json.{
  JsonObject, parse_json_object, trim_trailing_cr, get_string, get_uint64, get_uint64_or,
}
use cpp_chat.Protocol.Message.{MessageType, ClientCommand, default_command}

-- The branches `register` and `login`.
credentials : MessageType → JsonObject → Parsed ClientCommand
unfolding get_string
credentials type object = do
  username ← get_string object (codes "username")
  password ← get_string object (codes "password")
  guard (not (is_empty username || is_empty password)) (codes "username and password are required")
  ok (record default_command { type = type; username = username; password = password })

direct_message : JsonObject → Parsed ClientCommand
unfolding get_string
direct_message object = do
  to ← get_string object (codes "to")
  body ← get_string object (codes "body")
  guard (not (is_empty to || is_empty body)) (codes "to and body are required")
  ok (record default_command { type = MessageType.direct_chat; target_username = to; body = body })

create_group : JsonObject → Parsed ClientCommand
unfolding get_string
create_group object = do
  name ← get_string object (codes "name")
  guard (not (is_empty name)) (codes "group name is required")
  ok (record default_command { type = MessageType.create_group; group_name = name })

-- The branches `join_group` and `leave_group`.
membership : MessageType → JsonObject → Parsed ClientCommand
unfolding get_uint64
membership type object = do
  group_id ← get_uint64 object (codes "group_id")
  ok (record default_command { type = type; group_id = group_id; receiver_id = group_id })

group_message : JsonObject → Parsed ClientCommand
unfolding get_uint64 get_string
group_message object = do
  group_id ← get_uint64 object (codes "group_id")
  body ← get_string object (codes "body")
  guard (not (is_empty body)) (codes "body is required")
  ok (record default_command {
    type = MessageType.group_chat;
    group_id = group_id;
    receiver_id = group_id;
    body = body;
  })

-- `static_cast<std::uint32_t>(std::min<std::uint64_t>(get_uint64_or(object, "limit", 20), 100))`
page_limit : JsonObject → Parsed ℕ
unfolding get_uint64_or
page_limit object = do limit ← get_uint64_or object (codes "limit") 20; ok (min limit 100)

history : JsonObject → Parsed ClientCommand
unfolding get_string get_uint64_or page_limit
history object = do
  peer ← get_string object (codes "peer")
  limit ← page_limit object
  before_id ← get_uint64_or object (codes "before_id") 0
  guard (not (is_empty peer)) (codes "peer is required")
  ok (record default_command {
    type = MessageType.history_query;
    target_username = peer;
    limit = limit;
    before_id = before_id;
  })

group_history : JsonObject → Parsed ClientCommand
unfolding get_uint64 get_uint64_or page_limit
group_history object = do
  group_id ← get_uint64 object (codes "group_id")
  limit ← page_limit object
  before_id ← get_uint64_or object (codes "before_id") 0
  ok (record default_command {
    type = MessageType.history_query;
    group_history = true;
    group_id = group_id;
    receiver_id = group_id;
    limit = limit;
    before_id = before_id;
  })

unread : JsonObject → Parsed ClientCommand
unfolding get_uint64_or page_limit
unread object = do
  last_seen ← get_uint64_or object (codes "last_seen_message_id") 0
  limit ← page_limit object
  ok (record default_command {
    type = MessageType.unread_query;
    last_seen_message_id = last_seen;
    limit = limit;
  })

-- The chain of tests on the field `type`.
unfoldable pub command_of : Bytes → JsonObject → Parsed ClientCommand
unfolding credentials direct_message create_group membership group_message history group_history
    unread
command_of type object =
    if bytes_eq type (codes "register")
    then credentials MessageType.register object
    else if bytes_eq type (codes "login")
    then credentials MessageType.login object
    else if bytes_eq type (codes "logout")
    then ok (record default_command { type = MessageType.logout })
    else if bytes_eq type (codes "ping")
    then ok (record default_command { type = MessageType.ping })
    else if bytes_eq type (codes "dm")
    then direct_message object
    else if bytes_eq type (codes "create_group")
    then create_group object
    else if bytes_eq type (codes "join_group")
    then membership MessageType.group_join object
    else if bytes_eq type (codes "leave_group")
    then membership MessageType.group_leave object
    else if bytes_eq type (codes "group_message")
    then group_message object
    else if bytes_eq type (codes "history")
    then history object
    else if bytes_eq type (codes "group_history")
    then group_history object
    else if bytes_eq type (codes "unread")
    then unread object
    else err (codes "unknown command")

unfoldable pub parse_client_command : Bytes → Parsed ClientCommand
unfolding trim_trailing_cr parse_json_object get_string command_of
parse_client_command line = do
  object ← parse_json_object (trim_trailing_cr line)
  type ← get_string object (codes "type")
  command_of type object
