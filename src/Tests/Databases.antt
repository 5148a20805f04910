-- ===== src/Tests/Databases.antt =====
-- A server of MySQL that keeps the table `messages`.
use cpp_chat.Base.{
  leb, false, ℕ, suc, ◌≡◌, ◌↔◌, ◌⊎◌, refl, ap, true, Bool, ◌&&◌, List, [], ◌∷◌, ◌++◌, map, ltb,
  Bytes, filterb, take, reverse, arith, if◌then◌else◌, bytes_eq, codes, length, nat_eq, drop, some,
}
use cpp_chat.Protocol.Message.{MessageType, Message}
use cpp_chat.Storage.Statements.{Value, integer, Reply, Server, Client, column, integer_of, text_of}
use cpp_chat.Storage.Messages.{
  StoredMessage, MessageStore, is_between, is_in_group, is_unread, page_size, stored_as,
  make_direct_conversation_id,
}
use cpp_chat.Storage.Messages.Conversations.{make_direct_conversation_id_iff}
use cpp_chat.Storage.Messages.Pages.{older, newer}
use cpp_chat.Storage.Messages.Queries.{
  insert_query, direct_page_query, direct_page_before_query, group_page_query,
  group_page_before_query, unread_query, unread_params, group_params, page_columns,
}
use cpp_chat.Storage.Messages.Pooled.{
  append_pooled, direct_history_page_pooled, group_history_page_pooled, unread_page_pooled,
}
use cpp_chat.Storage.Messages.Pooled.Tables.{
  MessageRow, rows_reply, insert_reply, page_row, unread_row, in_conversation, is_unread_row,
  newest, row_of, archived, IsMessageServer, IsInsertServer, Represents,
}
use cpp_chat.Storage.Messages.Pooled.Refinement.{direct_history_page_pooled-older}
use cpp_chat.Storage.Messages.Pooled.Unread.{unread_page_pooled-newer}
use cpp_chat.Storage.Messages.Pooled.Archiving.{append_pooled-read}

-- The groups and the limit among the parameters of the unread messages.
unread_of_params : List Value → List ℕ × ℕ
unread_of_params (group_id ∷ user_id ∷ params) =
    let (group_ids, limit) = unread_of_params params in
    (integer_of (some group_id) ∷ group_ids, limit)
unread_of_params (limit ∷ []) = ([], integer_of (some limit))
unread_of_params [] = ([], 0)

unread_of_params_lem :
    (user_id : ℕ) (group_ids : List ℕ) (limit : ℕ)
    → unread_of_params (map integer (group_params user_id group_ids ++ limit ∷ []))
      ≡ (group_ids, limit)
unfolding unread_of_params group_params
unread_of_params_lem user_id [] limit = refl
unread_of_params_lem user_id (group_id ∷ group_ids) limit =
    ap (λ r. (group_id ∷ r.0, r.1)) (unread_of_params_lem user_id group_ids limit)

abbrev a_date : Bytes
a_date = codes "2024-01-01 00:00:00"

select_page : List MessageRow → (MessageRow → Bool) → ℕ → List MessageRow × Reply
select_page rows keep limit = (rows, rows_reply (map page_row (newest limit keep rows)))

abbrev id_at : ℕ → List Value → ℕ
id_at n params = integer_of (column n params)

abbrev inserted_row : List MessageRow → List Value → MessageRow
inserted_row rows params = record {
  id = suc (length rows);
  conversation_type = id_at 0 params;
  conversation_id = id_at 1 params;
  created_at = a_date;
  type = text_of (column 2 params);
  sender_id = id_at 3 params;
  receiver_id = id_at 4 params;
  body = text_of (column 5 params);
}

-- The bodies that fit into a `TEXT`.
abbrev fits_text : Bytes → Bool
fits_text body = leb (length body) 65535

abbrev too_long_reply : Reply
too_long_reply = record (rows_reply []) { is_executed = false; error_number = 1406 }

insert_row : List MessageRow → MessageRow → List MessageRow × Reply
insert_row rows r =
    if fits_text r.body
    then (rows ++ r ∷ [], insert_reply (suc (length rows)))
    else (rows, too_long_reply)

message_statement : Bytes → List Value → List MessageRow → List MessageRow × Reply
unfolding select_page insert_row
message_statement query params rows =
    let id = id_at 0 params in
    let (group_ids, limit) = unread_of_params (drop 2 params) in
    if bytes_eq query direct_page_query
    then select_page rows (in_conversation 1 id) (id_at 1 params)
    else if bytes_eq query direct_page_before_query
    then select_page rows (λ r. in_conversation 1 id r && ltb r.id (id_at 1 params))
        (id_at 2 params)
    else if bytes_eq query group_page_query
    then select_page rows (in_conversation 2 id) (id_at 1 params)
    else if bytes_eq query group_page_before_query
    then select_page rows (λ r. in_conversation 2 id r && ltb r.id (id_at 1 params))
        (id_at 2 params)
    else if bytes_eq query insert_query
    then insert_row rows (inserted_row rows params)
    else (
      rows,
      rows_reply (
          map unread_row (
            take limit
              (filterb (λ r. ltb id r.id && is_unread_row (id_at 1 params) group_ids r) rows))),
    )

abbrev message_server : Server (List MessageRow)
message_server = record { query = λ query rows. (rows, true); statement = message_statement }

message_server-IsMessageServer : IsMessageServer message_server (λ rows. rows)
unfolding message_statement select_page bytes_eq direct_page_query direct_page_before_query
    group_page_query group_page_before_query page_columns unread_query unread_params insert_query
message_server-IsMessageServer = record {
  direct_page = λ id limit rows. refl;
  direct_page_before = λ id before_id limit rows. refl;
  group_page = λ id limit rows. refl;
  group_page_before = λ id before_id limit rows. refl;
  unread = λ user_id group_ids last_seen limit rows.
      rw (unread_of_params_lem user_id group_ids limit) refl;
}

message_server-IsInsertServer :
    IsInsertServer message_server
      (λ rows. rows)
      fits_text
      (λ rows. suc (length rows))
      (λ rows. a_date)
unfolding message_statement insert_row bytes_eq direct_page_query direct_page_before_query
    group_page_query group_page_before_query page_columns insert_query
message_server-IsInsertServer = record {
  bounded = λ body h. ground arith;
  insert = λ kind id sender_id receiver_id type body rows h1 h2 h3 h4 h5 k. rw k (refl, refl);
  refuse = λ kind id sender_id receiver_id type body rows k. rw k (refl, refl);
}

-- One message from user 1 to user 2, and one from user 3 to group 7.
abbrev two_stored : List StoredMessage
two_stored =
    (record {
      id = 1;
      type = MessageType.direct_chat;
      sender_id = 1;
      receiver_id = 2;
      body = codes "hi";
      created_at = a_date;
    })
    ∷ (record {
      id = 2;
      type = MessageType.group_chat;
      sender_id = 3;
      receiver_id = 7;
      body = codes "all";
      created_at = a_date;
    })
    ∷ []

abbrev two_rows : Client (List MessageRow)
two_rows = record { database = map row_of two_stored; open_statements = 0 }

two_rows-Represents : Represents two_rows.database two_stored
two_rows-Represents = record {
  rows = refl;
  small = ((omega arith, omega arith), ((omega arith, omega arith), tt));
}

abbrev no_messages : MessageStore
no_messages = record { messages = [] }

direct_history_page_pooled-older_example :
    (direct_history_page_pooled message_server true no_messages two_rows 2 1 10 0).1
    ≡ take (page_size 10) (reverse (older (is_between 2 1) 0 two_stored))
direct_history_page_pooled-older_example =
    direct_history_page_pooled-older message_server (λ rows. rows) message_server-IsMessageServer
      no_messages two_rows two_stored two_rows-Represents 2 1 10 0 (omega arith) (omega arith)

unread_page_pooled-newer_example :
    (unread_page_pooled message_server true no_messages two_rows 2 (7 ∷ []) 0 10).1
    ≡ take (page_size 10) (newer (is_unread 2 (7 ∷ [])) 0 two_stored)
unread_page_pooled-newer_example =
    unread_page_pooled-newer message_server (λ rows. rows) message_server-IsMessageServer
      no_messages two_rows two_stored two_rows-Represents 2 (7 ∷ []) 0 10

abbrev a_reply : Message
a_reply = record {
  type = MessageType.direct_chat;
  sender_id = 2;
  receiver_id = 1;
  body = codes "hello";
}

-- The archive with the answer behind it.
abbrev three_stored : List StoredMessage
three_stored = two_stored ++ archived 3 a_date a_reply ∷ []

append_pooled-read_example :
    let (m', (c', stored)) = append_pooled message_server true no_messages two_rows a_reply in
    (stored ≡ stored_as 3 a_reply)
    × ((direct_history_page_pooled message_server true m' c' 1 2 10 0).1
        ≡ take (page_size 10) (reverse (older (is_between 1 2) 0 three_stored)))
    × ((group_history_page_pooled message_server true m' c' 7 10 0).1
        ≡ take (page_size 10) (reverse (older (is_in_group 7) 0 three_stored)))
    × ((unread_page_pooled message_server true m' c' 1 (7 ∷ []) 1 10).1
        ≡ take (page_size 10) (newer (is_unread 1 (7 ∷ [])) 1 three_stored))
append_pooled-read_example =
    append_pooled-read message_server (λ rows. rows) fits_text (λ rows. suc (length rows))
      (λ rows. a_date) message_server-IsInsertServer no_messages two_rows two_stored
      two_rows-Represents message_server-IsMessageServer a_reply 1 2 7 10 0 1 (7 ∷ []) (omega arith)
      (omega arith) (omega arith) (omega arith)

make_direct_conversation_id_iff_example :
    (make_direct_conversation_id 1 2 ≡ make_direct_conversation_id 2 1)
    ↔ ((◌≡◌ {A = ℕ} 1 2) × (◌≡◌ {A = ℕ} 2 1)) ⊎ ((◌≡◌ {A = ℕ} 1 1) × (◌≡◌ {A = ℕ} 2 2))
make_direct_conversation_id_iff_example =
    make_direct_conversation_id_iff 1 2 2 1 (omega arith) (omega arith) (omega arith) (omega arith)
