-- ===== src/Storage/Messages/Pooled/Tables.antt =====
-- What MySQL promises for the statements of src/storage/message_store.cpp, and how the table
-- `messages` stands for a list of stored messages.
use cpp_chat.Base.{
  length, ◌≤◌, false, ℕ, ◌<◌, ◌^◌, ◌≡◌, true, Bool, not, ◌&&◌, ◌||◌, List, [], ◌∷◌, ◌++◌, map, ltb,
  ◌==◌, Bytes, filterb, take, reverse,
}
use cpp_chat.Base.Sets.{contains}
use cpp_chat.Protocol.Message.{Message}
use cpp_chat.Storage.Statements.{Value, integer, text, Fetch, row, Reply, Server}
use cpp_chat.Storage.Messages.{
  StoredMessage, conversation_type_for, conversation_id_for, message_type_to_string,
}
use cpp_chat.Storage.Messages.Pages.{message_of}
use cpp_chat.Storage.Messages.Queries.{
  insert_query, direct_page_query, direct_page_before_query, group_page_query,
  group_page_before_query, unread_query, unread_params,
}

-- A row of the table `messages`.
pub record MessageRow : Type 0 where
  pub id : ℕ
  pub conversation_type : ℕ
  pub conversation_id : ℕ
  pub created_at : Bytes
  pub type : Bytes
  pub sender_id : ℕ
  pub receiver_id : ℕ
  pub body : Bytes

abbrev pub full_row : List Value → Fetch
full_row values = row values true

-- Every call succeeds, and these rows are fetched.
abbrev pub rows_reply : List (List Value) → Reply
rows_reply rows = record {
  is_made = true;
  is_prepared = true;
  is_bound = true;
  is_executed = true;
  is_result_bound = true;
  fetches = map full_row rows;
  affected_rows = 0;
  insert_id = 0;
  error_number = 0;
}

abbrev pub insert_reply : ℕ → Reply
insert_reply insert_id = record (rows_reply []) { affected_rows = 1; insert_id = insert_id }

-- The columns that a page selects.
abbrev pub page_row : MessageRow → List Value
page_row r =
    integer r.id
    ∷ integer r.sender_id
    ∷ integer r.receiver_id
    ∷ text r.body
    ∷ text r.created_at
    ∷ []

abbrev pub unread_row : MessageRow → List Value
unread_row r =
    integer r.id
    ∷ text r.type
    ∷ integer r.sender_id
    ∷ integer r.receiver_id
    ∷ text r.body
    ∷ text r.created_at
    ∷ []

-- `WHERE conversation_type = … AND conversation_id = ?`
abbrev pub in_conversation : ℕ → ℕ → MessageRow → Bool
in_conversation type conversation_id r =
    r.conversation_type == type && r.conversation_id == conversation_id

-- The `WHERE` of the unread messages.
abbrev pub is_unread_row : ℕ → List ℕ → MessageRow → Bool
unfolding contains
is_unread_row user_id group_ids r =
    r.conversation_type == 1 && r.receiver_id == user_id
    || r.conversation_type == 2
      && contains r.conversation_id group_ids
      && not (r.sender_id == user_id)

-- `ORDER BY id DESC LIMIT ?`, of a table in the order of its ids.
abbrev pub newest : ℕ → (MessageRow → Bool) → List MessageRow → List MessageRow
newest limit keep rows = take limit (reverse (filterb keep rows))

-- The row that the statement of `append` inserts.
abbrev pub row_of : StoredMessage → MessageRow
row_of s = record {
  id = s.id;
  conversation_type = conversation_type_for s.type;
  conversation_id = conversation_id_for (message_of s);
  created_at = s.created_at;
  type = message_type_to_string s.type;
  sender_id = s.sender_id;
  receiver_id = s.receiver_id;
  body = s.body;
}

abbrev pub archived : ℕ → Bytes → Message → StoredMessage
archived id created_at message = record {
  id = id;
  type = message.type;
  sender_id = message.sender_id;
  receiver_id = message.receiver_id;
  body = message.body;
  created_at = created_at;
}

module _ {D : Type 0} (server : Server D) (table : D → List MessageRow) where
  -- A `SELECT` that succeeds.
  abbrev pub Selects : Bytes → List ℕ → (List MessageRow → List (List Value)) → Type 0
  Selects query params rows =
      (d : D) → server.statement query (map integer params) d ≡ (d, rows_reply (rows (table d)))

  -- The server runs each `SELECT` as its text says.
  pub record IsMessageServer : Type 0 where
    pub direct_page :
        (conversation_id limit : ℕ)
        → Selects direct_page_query
            (conversation_id ∷ limit ∷ [])
            (λ rows. map page_row (newest limit (in_conversation 1 conversation_id) rows))
    pub direct_page_before :
        (conversation_id before_id limit : ℕ)
        → Selects direct_page_before_query (conversation_id ∷ before_id ∷ limit ∷ []) (λ rows.
          map page_row
            (newest limit (λ r. in_conversation 1 conversation_id r && ltb r.id before_id) rows))
    pub group_page :
        (conversation_id limit : ℕ)
        → Selects group_page_query
            (conversation_id ∷ limit ∷ [])
            (λ rows. map page_row (newest limit (in_conversation 2 conversation_id) rows))
    pub group_page_before :
        (conversation_id before_id limit : ℕ)
        → Selects group_page_before_query (conversation_id ∷ before_id ∷ limit ∷ []) (λ rows.
          map page_row
            (newest limit (λ r. in_conversation 2 conversation_id r && ltb r.id before_id) rows))
    pub unread :
        (user_id : ℕ) (group_ids : List ℕ) (last_seen limit : ℕ)
        → Selects
            (unread_query group_ids)
            (unread_params user_id group_ids last_seen limit)
            (λ rows. map unread_row (
              take limit
                (filterb (λ r. ltb last_seen r.id && is_unread_row user_id group_ids r) rows)))

  -- How an `INSERT` into `messages` ends, where the columns hold numbers of 8 and 64 bits, a type of
  -- at most 32 characters and a body that `takes` tells: of at most 65535 bytes, since the column is
  -- a `TEXT`, and valid in its character set. A row that does not fit is refused, as it is in the
  -- strict mode of MySQL. The server numbers the rows and dates them.
  pub record IsInsertServer (takes : Bytes → Bool) (next_id : D → ℕ) (now : D → Bytes)
      : Type 0 where
    pub bounded : (body : Bytes) → takes body ≡ true → length body ≤ 65535
    pub insert :
        (conversation_type conversation_id sender_id receiver_id : ℕ) (type body : Bytes) (d : D)
        → conversation_type < 128
        → conversation_id < 2 ^ 64
        → sender_id < 2 ^ 64
        → receiver_id < 2 ^ 64
        → length type ≤ 32
        → takes body ≡ true
        → let params =
            integer conversation_type
            ∷ integer conversation_id
            ∷ text type
            ∷ integer sender_id
            ∷ integer receiver_id
            ∷ text body
            ∷ [] in
          ((server.statement insert_query params d).1 ≡ insert_reply (next_id d))
          × (table (server.statement insert_query params d).0
              ≡ table d
                ++ (record {
                  id = next_id d;
                  conversation_type = conversation_type;
                  conversation_id = conversation_id;
                  created_at = now d;
                  type = type;
                  sender_id = sender_id;
                  receiver_id = receiver_id;
                  body = body;
                })
                  ∷ [])
    pub refuse :
        (conversation_type conversation_id sender_id receiver_id : ℕ) (type body : Bytes) (d : D)
        → takes body ≡ false
        → let params =
            integer conversation_type
            ∷ integer conversation_id
            ∷ text type
            ∷ integer sender_id
            ∷ integer receiver_id
            ∷ text body
            ∷ [] in
          ((server.statement insert_query params d).0 ≡ d)
          × ((server.statement insert_query params d).1.is_executed ≡ false)

-- The ids of both ends have 32 bits.
abbrev pub IsSmall : StoredMessage → Type 0
IsSmall s = (s.sender_id < 2 ^ 32) × (s.receiver_id < 2 ^ 32)

abbrev pub AreSmall : List StoredMessage → Type 0
AreSmall [] = Unit
AreSmall (s ∷ archive) = IsSmall s × AreSmall archive

-- The table stands for a list of stored messages.
pub record Represents (table : List MessageRow) (archive : List StoredMessage) : Type 0 where
  pub rows : table ≡ map row_of archive
  pub small : AreSmall archive
