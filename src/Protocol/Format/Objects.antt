-- ===== src/Protocol/Format/Objects.antt =====
-- Every reply that message.cpp formats is the JSON object of its fields, and is read back as that.
use cpp_chat.Base.{
  ℕ, ◌<◌, ◌^◌, Bool, List, [], ◌∷◌, ◌≡◌, refl, ap, ◌∙◌, arith, append_assoc, Bytes, codes,
  if◌then◌else◌, true, false,
}
use cpp_chat.Protocol.Result.{ok}
use cpp_chat.Protocol.Json.{JsonValue, string, number, bool, parse_json_object}
use cpp_chat.Protocol.Json.Object.{
  object_text, tail_text, field_text, insert_all, AreFields, parse_json_object-object_text,
}
use cpp_chat.Protocol.Format.{
  json_string_field, json_number_field, json_bool_field, json_type, finish_json, escape_json,
  format_ok, format_error, format_register_success, format_register_failed, format_login_success,
  format_login_failed, format_create_group_success, format_message_ack, format_direct_message,
  format_group_message, format_history_item, format_history_end, format_unread_end, format_pong,
  format_plain_history_item, format_plain_history_end,
}

-- The replies of the protocol, with their contents.
pub data Reply : Type 0 where
  done error register_failed login_failed : Bytes → Reply
  register_success : ℕ → Reply
  login_success create_group_success : ℕ → Bytes → Reply
  message_ack : ℕ → Bool → Bool → Reply
  direct_message : Bytes → Bytes → Reply
  group_message : ℕ → Bytes → Bytes → Reply
  history_item : ℕ → Bytes → Bytes → Bytes → Bytes → Bytes → Reply
  history_end unread_end : Bool → ℕ → Reply
  plain_history_item : Bytes → Bytes → Bytes → Bytes → Reply
  plain_history_end pong : Reply

-- The writer of each.
unfoldable pub written : Reply → Bytes
written (done message) = format_ok message
written (error reason) = format_error reason
written (register_success user_id) = format_register_success user_id
written (register_failed reason) = format_register_failed reason
written (login_success user_id username) = format_login_success user_id username
written (login_failed reason) = format_login_failed reason
written (create_group_success group_id name) = format_create_group_success group_id name
written (message_ack message_id stored delivered) = format_message_ack message_id stored delivered
written (direct_message from body) = format_direct_message from body
written (group_message group_id from body) = format_group_message group_id from body
written (history_item message_id chat_type from to body created_at) =
    format_history_item message_id chat_type from to body created_at
written (history_end has_more next) = format_history_end has_more next
written (unread_end has_more next) = format_unread_end has_more next
written (plain_history_item chat_type from to body) =
    format_plain_history_item chat_type from to body
written plain_history_end = format_plain_history_end
written pong = format_pong

abbrev type_field : Bytes → Bytes × JsonValue
type_field type = (codes "type", string type)

-- The fields that a client is to find in each.
abbrev pub fields_of : Reply → List (Bytes × JsonValue)
fields_of (done message) = type_field (codes "ok") ∷ (codes "message", string message) ∷ []
fields_of (error reason) = type_field (codes "error") ∷ (codes "reason", string reason) ∷ []
fields_of (register_success user_id) =
    type_field (codes "register_success") ∷ (codes "user_id", number user_id) ∷ []
fields_of (register_failed reason) =
    type_field (codes "register_failed") ∷ (codes "reason", string reason) ∷ []
fields_of (login_success user_id username) =
    type_field (codes "login_success")
    ∷ (codes "user_id", number user_id)
    ∷ (codes "username", string username)
    ∷ []
fields_of (login_failed reason) =
    type_field (codes "login_failed") ∷ (codes "reason", string reason) ∷ []
fields_of (create_group_success group_id name) =
    type_field (codes "create_group_success")
    ∷ (codes "group_id", number group_id)
    ∷ (codes "name", string name)
    ∷ []
fields_of (message_ack message_id stored delivered) =
    type_field (codes "message_ack")
    ∷ (codes "message_id", number message_id)
    ∷ (codes "status", string (if stored then codes "stored" else codes "failed"))
    ∷ (codes "stored", bool stored)
    ∷ (codes "delivered", bool delivered)
    ∷ []
fields_of (direct_message from body) =
    type_field (codes "dm") ∷ (codes "from", string from) ∷ (codes "body", string body) ∷ []
fields_of (group_message group_id from body) =
    type_field (codes "group_message")
    ∷ (codes "group_id", number group_id)
    ∷ (codes "from", string from)
    ∷ (codes "body", string body)
    ∷ []
fields_of (history_item message_id chat_type from to body created_at) =
    type_field (codes "history_item")
    ∷ (codes "message_id", number message_id)
    ∷ (codes "chat_type", string chat_type)
    ∷ (codes "from", string from)
    ∷ (codes "to", string to)
    ∷ (codes "body", string body)
    ∷ (codes "created_at", string created_at)
    ∷ []
fields_of (history_end has_more next) =
    type_field (codes "history_end")
    ∷ (codes "has_more", bool has_more)
    ∷ (codes "next_before_id", number next)
    ∷ []
fields_of (unread_end has_more next) =
    type_field (codes "unread_end")
    ∷ (codes "has_more", bool has_more)
    ∷ (codes "next_last_seen_message_id", number next)
    ∷ []
fields_of (plain_history_item chat_type from to body) =
    type_field (codes "history_item")
    ∷ (codes "chat_type", string chat_type)
    ∷ (codes "from", string from)
    ∷ (codes "to", string to)
    ∷ (codes "body", string body)
    ∷ []
fields_of plain_history_end = type_field (codes "history_end") ∷ []
fields_of pong = type_field (codes "pong") ∷ []

-- The numbers of a reply have 64 bits.
abbrev pub IsReply : Reply → Type 0
IsReply (register_success user_id) = user_id < 2 ^ 64
IsReply (login_success user_id username) = user_id < 2 ^ 64
IsReply (create_group_success group_id name) = group_id < 2 ^ 64
IsReply (message_ack message_id stored delivered) = message_id < 2 ^ 64
IsReply (group_message group_id from body) = group_id < 2 ^ 64
IsReply (history_item message_id chat_type from to body created_at) = message_id < 2 ^ 64
IsReply (history_end has_more next) = next < 2 ^ 64
IsReply (unread_end has_more next) = next < 2 ^ 64
IsReply _ = Unit

written-object_text : (r : Reply) → written r ≡ object_text (fields_of r)
unfolding written object_text tail_text field_text json_type finish_json json_string_field
    json_number_field json_bool_field escape_json format_ok format_error format_register_success
    format_register_failed format_login_success format_login_failed format_create_group_success
    format_message_ack format_direct_message format_group_message format_history_item
    format_history_end format_unread_end format_pong format_plain_history_item
    format_plain_history_end
written-object_text pong = refl
written-object_text plain_history_end = refl
written-object_text (message_ack message_id true delivered) = simp append_assoc
written-object_text (message_ack message_id false delivered) = simp append_assoc
written-object_text _ = simp append_assoc

are_fields : (r : Reply) → IsReply r → AreFields (fields_of r)
unfolding escape_json
are_fields pong h = ground arith
are_fields plain_history_end h = ground arith
are_fields _ h = ground arith

-- A client that reads the JSON of any reply that message.cpp can write, with the same reader, finds
-- the fields of that reply, if its numbers have 64 bits.
pub parse_json_object-written :
    (r : Reply) → IsReply r → parse_json_object (written r) ≡ ok (insert_all [] (fields_of r))
parse_json_object-written r h =
    ap parse_json_object (written-object_text r)
    ∙ parse_json_object-object_text (fields_of r) (are_fields r h)
