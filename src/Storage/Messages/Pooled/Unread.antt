-- ===== src/Storage/Messages/Pooled/Unread.antt =====
-- With the database, the unread messages are those of a list of stored messages.
use cpp_chat.Base.{
  ℕ, ◌≡◌, refl, ap, ◌∙◌, true, ◌&&◌, List, map, ltb, filterb, take, arith, bytes_eq,
}
use cpp_chat.Base.Sets.{contains}
use cpp_chat.Protocol.Message.{MessageType}
use cpp_chat.Storage.Statements.{integer, Server, Client, collect}
use cpp_chat.Storage.Messages.{
  StoredMessage, MessageStore, conversation_type_for, conversation_id_for, message_type_to_string,
  is_unread, page_size,
}
use cpp_chat.Storage.Messages.Pages.{message_of, newer, is_after}
use cpp_chat.Storage.Messages.Queries.{unread_query, unread_params}
use cpp_chat.Storage.Messages.Pooled.{
  unread_of_row, type_of_text, unread_page_pooled, execute_unread_query,
}
use cpp_chat.Storage.Messages.Pooled.Tables.{
  MessageRow, unread_row, is_unread_row, row_of, IsMessageServer, Represents,
}
use cpp_chat.Storage.Messages.Pooled.Rows.{filtered, map-take, map-map, select-rows, collect-rows}

-- The columns of the conversation tell the unread messages.
unread_row-is :
    (user_id : ℕ) (group_ids : List ℕ) (s : StoredMessage) (type : MessageType)
    → is_unread_row user_id group_ids (row_of (record s { type = type }))
      ≡ is_unread user_id group_ids (message_of (record s { type = type }))
unfolding conversation_type_for conversation_id_for contains
unread_row-is user_id group_ids s MessageType.direct_chat = ground arith
unread_row-is user_id group_ids s MessageType.group_chat = ground arith
unread_row-is user_id group_ids s _ = refl

-- The type of an unread message is read back.
type_of_text-unread :
    (user_id : ℕ) (group_ids : List ℕ) (s : StoredMessage) (type : MessageType)
    → is_unread user_id group_ids (message_of (record s { type = type })) ≡ true
    → type_of_text (message_type_to_string type) ≡ type
unfolding message_type_to_string bytes_eq contains
type_of_text-unread user_id group_ids s MessageType.direct_chat h = refl
type_of_text-unread user_id group_ids s MessageType.group_chat h = refl
type_of_text-unread user_id group_ids s _ h = absurd (cc)

module _ {D : Type 0} (server : Server D) (table : D → List MessageRow)
    (v : IsMessageServer server table) (m : MessageStore) (c : Client D)
    (archive : List StoredMessage) (w : Represents (table c.database) archive) where
  -- If the server runs its statements as their texts say, and its table holds an archive of messages
  -- between users whose ids have at most 32 bits: a page of unread messages is, as it is in memory,
  -- of the archived messages to the user, and of those to the given groups from others, that came
  -- after `last_seen`, the oldest `limit`, oldest first. A limit of 0 stands for 20.
  pub unread_page_pooled-newer :
      (user_id : ℕ) (group_ids : List ℕ) (last_seen limit : ℕ)
      → (unread_page_pooled server true m c user_id group_ids last_seen limit).1
        ≡ take (page_size limit) (newer (is_unread user_id group_ids) last_seen archive)
  unfolding unread_page_pooled execute_unread_query
  unread_page_pooled-newer user_id group_ids last_seen limit =
      let size = page_size limit in
      let params = unread_params user_id group_ids last_seen size in
      let keep = λ (r : MessageRow). ltb last_seen r.id && is_unread_row user_id group_ids r in
      let means =
        λ (s : StoredMessage). is_after last_seen s && is_unread user_id group_ids (message_of s) in
      let read = λ (r : MessageRow). unread_of_row (unread_row r) in
      let rows = map unread_row (take size (filterb keep (table c.database))) in
      ap (collect 4 unread_of_row) (
        select-rows server c (unread_query group_ids) (map integer params) rows
          (v.unread user_id group_ids last_seen size c.database))
      ∙ (collect-rows 4 unread_of_row rows
          ∙ (map-map unread_of_row unread_row _
              ∙ (map-take read size _
                  ∙ (ap (λ t. take size (map read (filterb keep t))) w.rows
                      ∙ ap (take size) (
                          filtered keep means read
                            (λ s small. ground (arith, unread_row-is user_id group_ids s s.type))
                            (λ s h.
                              ap (λ t. record s { type = t })
                                (type_of_text-unread user_id group_ids s s.type (ground arith)))
                            archive w.small)))))
