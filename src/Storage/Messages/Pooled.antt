-- ===== src/Storage/Messages/Pooled.antt =====
-- src/storage/message_store.cpp with a connection pool: the statements of `MessageStore`. The
-- argument `acquired` says whether there is a pool and it gives a connection; if not, the methods
-- fall back to the messages in memory. `DATE_FORMAT` gives 19 characters and the type names are
-- short, so both fit their buffers of 32 bytes.
pub mod Tables
pub mod Rows
pub mod Unread
pub mod Refinement
pub mod Archiving
use cpp_chat.Base.{
  ℕ, Bool, false, not, List, [], ◌∷◌, ◌++◌, Option, none, some, map, ltb, ◌==◌, if◌then◌else◌,
  Bytes, codes, bytes_eq, length,
}
use cpp_chat.Protocol.Message.{MessageType, Message}
use cpp_chat.Storage.Statements.{
  Value, integer, text, Fetch, row, fetch_error, Server, Client, Outcome, unprepared, refused,
  executed, column, integer_of, text_of, mysql_stmt_close, run_statement, select, execute_query,
  collect,
}
use cpp_chat.Storage.Messages.Queries.{
  column_exists_query, create_table, add_conversation_type, add_conversation_id,
  create_conversation_index, create_sender_index, fill_conversations, insert_query,
  direct_history_query, group_history_query, direct_page_query, direct_page_before_query,
  group_page_query, group_page_before_query, unread_query, unread_params,
}
use cpp_chat.Storage.Messages.{
  StoredMessage, MessageStore, append, direct_history, direct_history_page, group_history,
  group_history_page, unread_page, page_size, conversation_type_for, conversation_id_for,
  make_direct_conversation_id, message_type_to_string,
}

-- `{type, sender_id, receiver_id, body}`
abbrev pub message_of_row : MessageType → List Value → Message
message_of_row type values = record {
  type = type;
  sender_id = integer_of (column 0 values);
  receiver_id = integer_of (column 1 values);
  body = text_of (column 2 values);
}

abbrev pub stored_of_row : MessageType → List Value → StoredMessage
stored_of_row type values = record {
  id = integer_of (column 0 values);
  type = type;
  sender_id = integer_of (column 1 values);
  receiver_id = integer_of (column 2 values);
  body = text_of (column 3 values);
  created_at = text_of (column 4 values);
}

abbrev pub type_of_text : Bytes → MessageType
type_of_text type =
    if bytes_eq type (codes "GroupChat") then MessageType.group_chat else MessageType.direct_chat

abbrev pub unread_of_row : List Value → StoredMessage
unread_of_row values = record {
  id = integer_of (column 0 values);
  type = type_of_text (text_of (column 1 values));
  sender_id = integer_of (column 2 values);
  receiver_id = integer_of (column 3 values);
  body = text_of (column 4 values);
  created_at = text_of (column 5 values);
}

-- The parameters of the statement of `append`.
abbrev pub insert_params : Message → List Value
insert_params message =
    integer (conversation_type_for message.type)
    ∷ integer (conversation_id_for message)
    ∷ text (message_type_to_string message.type)
    ∷ integer message.sender_id
    ∷ integer message.receiver_id
    ∷ text message.body
    ∷ []

module _ {D : Type 0} (server : Server D) where
  unfoldable pub execute_history_query :
      Client D → Bytes → MessageType → List ℕ → Client D × List Message
  unfolding select collect
  execute_history_query c query type query_params =
      let (c', fetches) = select server query (map integer query_params) c in
      (c', collect 2 (message_of_row type) fetches)

  unfoldable pub execute_history_page_query :
      Client D → Bytes → MessageType → List ℕ → ℕ → Client D × List StoredMessage
  unfolding select collect
  execute_history_page_query c query type id_params limit =
      let (c', fetches) = select server query (map integer (id_params ++ limit ∷ [])) c in
      (c', collect 3 (stored_of_row type) fetches)

  unfoldable pub execute_unread_query :
      Client D → ℕ → List ℕ → ℕ → ℕ → Client D × List StoredMessage
  unfolding unread_query unread_params select collect
  execute_unread_query c user_id group_ids last_seen_message_id limit =
      let params = unread_params user_id group_ids last_seen_message_id limit in
      let (c', fetches) = select server (unread_query group_ids) (map integer params) c in
      (c', collect 4 unread_of_row fetches)

  -- `fetch` gives the row in full.
  counted : List Fetch → Bool
  counted (row values fetched ∷ fetches) = ltb 0 (integer_of (column 0 values))
  counted _ = false

  unfoldable pub table_column_exists : Client D → Bytes → Bytes → Client D × Bool
  unfolding select counted
  table_column_exists c table name =
      let (c', fetches) = select server column_exists_query (text table ∷ text name ∷ []) c in
      (c', counted fetches)

  unfoldable pub add_column_if_missing : Client D → Bytes → Bytes → Client D
  unfolding table_column_exists execute_query
  add_column_if_missing c name add_column =
      let (c', exists) = table_column_exists c (codes "messages") name in
      if not exists then (execute_query server add_column c').0 else c'

  unfoldable pub ensure_messages_schema : Client D → Client D
  unfolding add_column_if_missing execute_query
  ensure_messages_schema c =
      let c1 = add_column_if_missing c (codes "conversation_type") add_conversation_type in
      let c2 = add_column_if_missing c1 (codes "conversation_id") add_conversation_id in
      let c3 = (execute_query server create_conversation_index c2).0 in
      let c4 = (execute_query server create_sender_index c3).0 in
      (execute_query server fill_conversations c4).0

  -- The constructor with a pool.
  unfoldable pub open_message_store : Bool → Client D → Client D
  unfolding ensure_messages_schema execute_query
  open_message_store acquired c =
      if not acquired then c else ensure_messages_schema (execute_query server create_table c).0

  -- The end of `append`, behind the statement.
  unfoldable pub after_insert : StoredMessage → Client D × Outcome → Client D × StoredMessage
  unfolding mysql_stmt_close
  after_insert stored (c, unprepared) = (c, stored)
  after_insert stored (c, refused error_number) = (c, stored)
  after_insert stored (c, executed reply) =
      (mysql_stmt_close c, record stored { id = reply.insert_id })

  unfoldable pub append_pooled :
      Bool → MessageStore → Client D → Message → MessageStore × (Client D × StoredMessage)
  unfolding append run_statement after_insert
  append_pooled acquired m c message =
      let (m', stored) = append m message in
      let inserted =
        after_insert stored (run_statement server insert_query (insert_params message) c) in
      (m', if not acquired then (c, stored) else inserted)

  unfoldable pub direct_history_pooled :
      Bool → MessageStore → Client D → ℕ → ℕ → Client D × List Message
  unfolding execute_history_query direct_history
  direct_history_pooled acquired m c user_id peer_id =
      if acquired
      then execute_history_query c direct_history_query MessageType.direct_chat
          (user_id ∷ peer_id ∷ peer_id ∷ user_id ∷ [])
      else (c, direct_history m user_id peer_id)

  unfoldable pub group_history_pooled : Bool → MessageStore → Client D → ℕ → Client D × List Message
  unfolding execute_history_query group_history
  group_history_pooled acquired m c group_id =
      if acquired
      then execute_history_query c group_history_query MessageType.group_chat (group_id ∷ [])
      else (c, group_history m group_id)

  -- A page of a conversation, before a message or not.
  unfoldable pub page_pooled :
      Client D → Bytes → Bytes → MessageType → ℕ → ℕ → ℕ → Client D × List StoredMessage
  unfolding execute_history_page_query
  page_pooled c page_query before_query type conversation_id limit before_id =
      if ltb 0 before_id
      then execute_history_page_query c before_query type (conversation_id ∷ before_id ∷ []) limit
      else execute_history_page_query c page_query type (conversation_id ∷ []) limit

  unfoldable pub direct_history_page_pooled :
      Bool → MessageStore → Client D → ℕ → ℕ → ℕ → ℕ → Client D × List StoredMessage
  unfolding page_pooled make_direct_conversation_id direct_history_page
  direct_history_page_pooled acquired m c user_id peer_id limit before_id =
      if acquired
      then page_pooled c direct_page_query direct_page_before_query MessageType.direct_chat
          (make_direct_conversation_id user_id peer_id) (page_size limit) before_id
      else (c, direct_history_page m user_id peer_id limit before_id)

  unfoldable pub group_history_page_pooled :
      Bool → MessageStore → Client D → ℕ → ℕ → ℕ → Client D × List StoredMessage
  unfolding page_pooled group_history_page
  group_history_page_pooled acquired m c group_id limit before_id =
      if acquired
      then page_pooled c group_page_query group_page_before_query MessageType.group_chat group_id
          (page_size limit) before_id
      else (c, group_history_page m group_id limit before_id)

  unfoldable pub unread_page_pooled :
      Bool → MessageStore → Client D → ℕ → List ℕ → ℕ → ℕ → Client D × List StoredMessage
  unfolding execute_unread_query unread_page
  unread_page_pooled acquired m c user_id group_ids last_seen_message_id limit =
      if acquired
      then execute_unread_query c user_id group_ids last_seen_message_id (page_size limit)
      else (c, unread_page m user_id group_ids last_seen_message_id limit)
