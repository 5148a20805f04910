-- ===== src/Storage/Messages/Pooled/Refinement.antt =====
-- With the database, the pages are those of a list of stored messages, as they are without.
use cpp_chat.Base.{
  ℕ, ◌<◌, ◌^◌, ◌≡◌, refl, ap, ◌∙◌, true, Bool, Bool-cases, inl, inr, ◌&&◌, List, [], ◌∷◌, ◌++◌, map,
  ltb, ◌==◌, Bytes, filterb, take, reverse, arith,
}
use cpp_chat.Protocol.Message.{MessageType}
use cpp_chat.Storage.Statements.{integer, Server, Client}
use cpp_chat.Storage.Messages.{
  StoredMessage, MessageStore, conversation_type_for, conversation_id_for, is_direct_chat,
  is_group_chat, is_between, is_in_group, page_size, make_direct_conversation_id,
}
use cpp_chat.Storage.Messages.Conversations.{make_direct_conversation_id_iff}
use cpp_chat.Storage.Messages.Pages.{older}
use cpp_chat.Storage.Messages.Queries.{
  direct_page_query, direct_page_before_query, group_page_query, group_page_before_query,
}
use cpp_chat.Storage.Messages.Pooled.{
  stored_of_row, direct_history_page_pooled, group_history_page_pooled, execute_history_page_query,
  page_pooled,
}
use cpp_chat.Storage.Messages.Pooled.Tables.{
  MessageRow, rows_reply, page_row, in_conversation, newest, row_of, IsMessageServer, IsSmall,
  Represents,
}
use cpp_chat.Storage.Messages.Pooled.Rows.{page-filtered, paged, map-map}

-- The columns of the conversation pick the messages between two users.
module _ (user_id peer_id : ℕ) (hu : user_id < 2 ^ 32) (hp : peer_id < 2 ^ 32) where
  direct_row :
      (type : MessageType) (sender_id receiver_id : ℕ) (body : Bytes)
      → sender_id < 2 ^ 32
      → receiver_id < 2 ^ 32
      → (conversation_type_for type == 1
          && conversation_id_for (record {
            type = type;
            sender_id = sender_id;
            receiver_id = receiver_id;
            body = body;
          })
            == make_direct_conversation_id user_id peer_id)
        ≡ is_between user_id peer_id
            (record { type = type; sender_id = sender_id; receiver_id = receiver_id; body = body })
  unfolding conversation_type_for conversation_id_for
  direct_row MessageType.direct_chat s r body hs hr = ground (
    arith,
    (make_direct_conversation_id_iff s r user_id peer_id hs hr hu hp).0,
    (make_direct_conversation_id_iff s r user_id peer_id hs hr hu hp).1,
  )
  direct_row MessageType.group_chat s r body hs hr = refl
  direct_row _ s r body hs hr = refl

group_row :
    (group_id : ℕ) (type : MessageType) (sender_id receiver_id : ℕ) (body : Bytes)
    → (conversation_type_for type == 2
        && conversation_id_for
            (record { type = type; sender_id = sender_id; receiver_id = receiver_id; body = body })
          == group_id)
      ≡ is_in_group group_id
          (record { type = type; sender_id = sender_id; receiver_id = receiver_id; body = body })
unfolding conversation_type_for conversation_id_for
group_row group_id MessageType.direct_chat s r body = refl
group_row group_id MessageType.group_chat s r body = refl
group_row group_id _ s r body = refl

direct_type : (type : MessageType) → is_direct_chat type ≡ true → MessageType.direct_chat ≡ type
direct_type MessageType.direct_chat h = refl
direct_type _ h = absurd (cc)

group_type : (type : MessageType) → is_group_chat type ≡ true → MessageType.group_chat ≡ type
group_type MessageType.group_chat h = refl
group_type _ h = absurd (cc)

module _ {D : Type 0} (server : Server D) (table : D → List MessageRow)
    (v : IsMessageServer server table) (m : MessageStore) (c : Client D)
    (archive : List StoredMessage) (w : Represents (table c.database) archive) where
  -- What a page selects from the table is what `means` picks from the archive.
  page_rows :
      (type : MessageType) (keep : MessageRow → Bool) (means : StoredMessage → Bool) (limit : ℕ)
      (query : Bytes) (id_params : List ℕ)
      → server.statement query (map integer (id_params ++ limit ∷ [])) c.database
        ≡ (c.database, rows_reply (map page_row (newest limit keep (table c.database))))
      → ((s : StoredMessage) → IsSmall s → keep (row_of s) ≡ means s)
      → ((s : StoredMessage) → means s ≡ true → type ≡ s.type)
      → (execute_history_page_query server c query type id_params limit).1
        ≡ take limit (reverse (filterb means archive))
  page_rows type keep means limit query id_params e agree typed =
      paged server c query type id_params limit _ e
      ∙ (map-map (stored_of_row type) page_row (newest limit keep (table c.database))
          ∙ (ap (λ rows. map (λ r. stored_of_row type (page_row r)) (newest limit keep rows)) w.rows
              ∙ page-filtered keep means (λ r. stored_of_row type (page_row r)) agree
                  (λ s h. ap (λ t. record s { type = t }) (typed s h)) limit archive w.small))

  -- If the server runs its statements as their texts say, and its table holds an archive of messages
  -- between users whose ids have at most 32 bits: a page of a private history is, as it is in memory,
  -- of the archived messages between the two users that are older than the cursor, the newest
  -- `limit`, the newest of them first. A limit of 0 stands for 20, and a cursor of 0 for none.
  pub direct_history_page_pooled-older :
      (user_id peer_id limit before_id : ℕ)
      → user_id < 2 ^ 32
      → peer_id < 2 ^ 32
      → (direct_history_page_pooled server true m c user_id peer_id limit before_id).1
        ≡ take (page_size limit) (reverse (older (is_between user_id peer_id) before_id archive))
  unfolding direct_history_page_pooled page_pooled
  direct_history_page_pooled-older user_id peer_id limit before_id hu hp =
      let id = make_direct_conversation_id user_id peer_id in
      let picks = λ (s : StoredMessage) (small : IsSmall s).
        direct_row user_id peer_id hu hp s.type s.sender_id s.receiver_id s.body small.0 small.1 in
      elim (Bool-cases (ltb 0 before_id)) [
        | inl h ↦ rw h (
            page_rows MessageType.direct_chat (λ r. in_conversation 1 id r && ltb r.id before_id) _
              (page_size limit) direct_page_before_query (id ∷ before_id ∷ [])
              (v.direct_page_before id before_id (page_size limit) c.database)
              (λ s small. ground (arith, picks s small)) (λ s k. direct_type s.type (ground arith)))
        | inr h ↦ rw h (
            page_rows MessageType.direct_chat (in_conversation 1 id) _ (page_size limit)
              direct_page_query (id ∷ []) (v.direct_page id (page_size limit) c.database)
              (λ s small. ground (arith, picks s small)) (λ s k. direct_type s.type (ground arith)))
      ]

  -- The same of a page of a group history: of the archived messages to the group that are older than
  -- the cursor, the newest `limit`, the newest of them first.
  pub group_history_page_pooled-older :
      (group_id limit before_id : ℕ)
      → (group_history_page_pooled server true m c group_id limit before_id).1
        ≡ take (page_size limit) (reverse (older (is_in_group group_id) before_id archive))
  unfolding group_history_page_pooled page_pooled
  group_history_page_pooled-older group_id limit before_id =
      let picks =
        λ (s : StoredMessage). group_row group_id s.type s.sender_id s.receiver_id s.body in
      elim (Bool-cases (ltb 0 before_id)) [
        | inl h ↦ rw h (
            page_rows MessageType.group_chat
              (λ r. in_conversation 2 group_id r && ltb r.id before_id) _ (page_size limit)
              group_page_before_query (group_id ∷ before_id ∷ [])
              (v.group_page_before group_id before_id (page_size limit) c.database)
              (λ s small. ground (arith, picks s)) (λ s k. group_type s.type (ground arith)))
        | inr h ↦ rw h (
            page_rows MessageType.group_chat (in_conversation 2 group_id) _ (page_size limit)
              group_page_query (group_id ∷ []) (v.group_page group_id (page_size limit) c.database)
              (λ s small. ground (arith, picks s)) (λ s k. group_type s.type (ground arith)))
      ]
