-- ===== src/Protocol/Format.antt =====
-- The writers of message.cpp. `decimal` is `std::to_string` of a `std::uint64_t`, which has at most
-- twenty digits.
pub mod Objects
use cpp_chat.Base.{
  ℕ, zero, suc, ◌+◌, ◌/◌, ◌%◌, Bool, true, false, List, [], ◌∷◌, ◌++◌, ltb, ◌==◌, if◌then◌else◌,
  Bytes, codes,
}

unfoldable pub digits_onto : ℕ → ℕ → Bytes → Bytes
digits_onto zero n written = written
digits_onto (suc room) n written =
    let written' = (b'0' + n % 10) ∷ written in
    let higher = digits_onto room (n / 10) written' in if ltb n 10 then written' else higher

unfoldable pub decimal : ℕ → Bytes
decimal n = digits_onto 20 n []

-- The `switch (ch)` of `escape_json`.
unfoldable pub escape_char : ℕ → Bytes
escape_char ch =
    if ch == b'"'
    then b'\\' ∷ b'"' ∷ []
    else if ch == b'\\'
    then b'\\' ∷ b'\\' ∷ []
    else if ch == b'\n'
    then b'\\' ∷ b'n' ∷ []
    else if ch == b'\r'
    then b'\\' ∷ b'r' ∷ []
    else if ch == b'\t'
    then b'\\' ∷ b't' ∷ []
    else ch ∷ []

unfoldable pub escape_json : Bytes → Bytes
unfolding escape_char
escape_json [] = []
escape_json (ch ∷ value) = escape_char ch ++ escape_json value

unfoldable pub json_string_field : Bytes → Bytes → Bytes
json_string_field name value =
    codes "\"" ++ name ++ codes "\":\"" ++ escape_json value ++ codes "\""

unfoldable pub json_number_field : Bytes → ℕ → Bytes
json_number_field name value = codes "\"" ++ name ++ codes "\":" ++ decimal value

unfoldable pub json_bool_field : Bytes → Bool → Bytes
json_bool_field name value =
    codes "\"" ++ name ++ codes "\":" ++ (if value then codes "true" else codes "false")

unfoldable pub json_type : Bytes → Bytes
json_type type = codes "{\"type\":\"" ++ type ++ codes "\""

unfoldable pub finish_json : Bytes → Bytes
finish_json value = value ++ codes "}"

unfoldable pub format_ok : Bytes → Bytes
format_ok message =
    finish_json (json_type (codes "ok") ++ codes "," ++ json_string_field (codes "message") message)

unfoldable pub format_error : Bytes → Bytes
format_error message =
    finish_json
      (json_type (codes "error") ++ codes "," ++ json_string_field (codes "reason") message)

unfoldable pub format_register_success : ℕ → Bytes
format_register_success user_id = finish_json (
    json_type (codes "register_success")
    ++ codes ","
    ++ json_number_field (codes "user_id") user_id)

unfoldable pub format_register_failed : Bytes → Bytes
format_register_failed reason =
    finish_json (
      json_type (codes "register_failed") ++ codes "," ++ json_string_field (codes "reason") reason)

unfoldable pub format_login_success : ℕ → Bytes → Bytes
format_login_success user_id username = finish_json (
    json_type (codes "login_success")
    ++ codes ","
    ++ json_number_field (codes "user_id") user_id
    ++ codes ","
    ++ json_string_field (codes "username") username)

unfoldable pub format_login_failed : Bytes → Bytes
format_login_failed reason =
    finish_json
      (json_type (codes "login_failed") ++ codes "," ++ json_string_field (codes "reason") reason)

unfoldable pub format_create_group_success : ℕ → Bytes → Bytes
format_create_group_success group_id name = finish_json (
    json_type (codes "create_group_success")
    ++ codes ","
    ++ json_number_field (codes "group_id") group_id
    ++ codes ","
    ++ json_string_field (codes "name") name)

unfoldable pub format_message_ack : ℕ → Bool → Bool → Bytes
format_message_ack message_id stored delivered = finish_json (
    json_type (codes "message_ack")
    ++ codes ","
    ++ json_number_field (codes "message_id") message_id
    ++ codes ","
    ++ json_string_field (codes "status") (if stored then codes "stored" else codes "failed")
    ++ codes ","
    ++ json_bool_field (codes "stored") stored
    ++ codes ","
    ++ json_bool_field (codes "delivered") delivered)

unfoldable pub format_direct_message : Bytes → Bytes → Bytes
format_direct_message sender_username body = finish_json (
    json_type (codes "dm")
    ++ codes ","
    ++ json_string_field (codes "from") sender_username
    ++ codes ","
    ++ json_string_field (codes "body") body)

unfoldable pub format_group_message : ℕ → Bytes → Bytes → Bytes
format_group_message group_id sender_username body = finish_json (
    json_type (codes "group_message")
    ++ codes ","
    ++ json_number_field (codes "group_id") group_id
    ++ codes ","
    ++ json_string_field (codes "from") sender_username
    ++ codes ","
    ++ json_string_field (codes "body") body)

-- The overload with a message id and a time.
unfoldable pub format_history_item : ℕ → Bytes → Bytes → Bytes → Bytes → Bytes → Bytes
format_history_item message_id chat_type from to body created_at = finish_json (
    json_type (codes "history_item")
    ++ codes ","
    ++ json_number_field (codes "message_id") message_id
    ++ codes ","
    ++ json_string_field (codes "chat_type") chat_type
    ++ codes ","
    ++ json_string_field (codes "from") from
    ++ codes ","
    ++ json_string_field (codes "to") to
    ++ codes ","
    ++ json_string_field (codes "body") body
    ++ codes ","
    ++ json_string_field (codes "created_at") created_at)

-- The overload with a cursor.
unfoldable pub format_history_end : Bool → ℕ → Bytes
format_history_end has_more next_before_id = finish_json (
    json_type (codes "history_end")
    ++ codes ","
    ++ json_bool_field (codes "has_more") has_more
    ++ codes ","
    ++ json_number_field (codes "next_before_id") next_before_id)

unfoldable pub format_unread_end : Bool → ℕ → Bytes
format_unread_end has_more next_last_seen_message_id = finish_json (
    json_type (codes "unread_end")
    ++ codes ","
    ++ json_bool_field (codes "has_more") has_more
    ++ codes ","
    ++ json_number_field (codes "next_last_seen_message_id") next_last_seen_message_id)

unfoldable pub format_pong : Bytes
format_pong = finish_json (json_type (codes "pong"))

-- The overload of `format_history_item` without an id and a time.
unfoldable pub format_plain_history_item : Bytes → Bytes → Bytes → Bytes → Bytes
format_plain_history_item chat_type from to body = finish_json (
    json_type (codes "history_item")
    ++ codes ","
    ++ json_string_field (codes "chat_type") chat_type
    ++ codes ","
    ++ json_string_field (codes "from") from
    ++ codes ","
    ++ json_string_field (codes "to") to
    ++ codes ","
    ++ json_string_field (codes "body") body)

-- The overload of `format_history_end` without arguments.
unfoldable pub format_plain_history_end : Bytes
format_plain_history_end = finish_json (json_type (codes "history_end"))
