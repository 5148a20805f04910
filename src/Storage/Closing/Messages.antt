-- ===== src/Storage/Closing/Messages.antt =====
-- Each operation of `MessageStore` closes the statements that it makes.
use cpp_chat.Base.{ℕ, refl, true, false, Bool, Bool-cases, inl, inr, List, Bytes, ltb}
use cpp_chat.Protocol.Message.{Message, MessageType}
use cpp_chat.Storage.Statements.{Server, Client, execute_query}
use cpp_chat.Storage.Messages.{MessageStore}
use cpp_chat.Storage.Messages.Pooled.{
  execute_history_query, execute_history_page_query, execute_unread_query, open_message_store,
  append_pooled, direct_history_pooled, group_history_pooled, page_pooled,
  direct_history_page_pooled, group_history_page_pooled, unread_page_pooled,
}
use cpp_chat.Storage.Closing.{
  Keeps, run_statement-IsRun, select-Keeps, schema-Keeps, after_insert-Keeps,
}

module _ {D : Type 0} (server : Server D) where
  pub open_message_store-Keeps : (b : Bool) (c : Client D) → Keeps c (open_message_store server b c)
  unfolding open_message_store execute_query
  open_message_store-Keeps true c = schema-Keeps server _
  open_message_store-Keeps false c = refl

  pub append-Keeps :
      (b : Bool) (m : MessageStore) (c : Client D) (message : Message)
      → Keeps c (append_pooled server b m c message).1.0
  unfolding append_pooled
  append-Keeps false m c message = refl
  append-Keeps true m c message = after_insert-Keeps server c _ _ (run_statement-IsRun server _ _ c)

  pub direct_history-Keeps :
      (b : Bool) (m : MessageStore) (c : Client D) (user_id peer_id : ℕ)
      → Keeps c (direct_history_pooled server b m c user_id peer_id).0
  unfolding direct_history_pooled execute_history_query
  direct_history-Keeps false m c user_id peer_id = refl
  direct_history-Keeps true m c user_id peer_id = select-Keeps server _ _ c

  pub group_history-Keeps :
      (b : Bool) (m : MessageStore) (c : Client D) (group_id : ℕ)
      → Keeps c (group_history_pooled server b m c group_id).0
  unfolding group_history_pooled execute_history_query
  group_history-Keeps false m c group_id = refl
  group_history-Keeps true m c group_id = select-Keeps server _ _ c

  page-Keeps :
      (c : Client D) (query before : Bytes) (type : MessageType) (id limit before_id : ℕ)
      → Keeps c (page_pooled server c query before type id limit before_id).0
  unfolding page_pooled execute_history_page_query
  page-Keeps c query before type id limit before_id = elim (Bool-cases (ltb 0 before_id)) [
    | inl h ↦ rw h (select-Keeps server _ _ c)
    | inr h ↦ rw h (select-Keeps server _ _ c)
  ]

  pub direct_page-Keeps :
      (b : Bool) (m : MessageStore) (c : Client D) (user_id peer_id limit before_id : ℕ)
      → Keeps c (direct_history_page_pooled server b m c user_id peer_id limit before_id).0
  unfolding direct_history_page_pooled
  direct_page-Keeps false m c user_id peer_id limit before_id = refl
  direct_page-Keeps true m c user_id peer_id limit before_id = page-Keeps c _ _ _ _ _ before_id

  pub group_page-Keeps :
      (b : Bool) (m : MessageStore) (c : Client D) (group_id limit before_id : ℕ)
      → Keeps c (group_history_page_pooled server b m c group_id limit before_id).0
  unfolding group_history_page_pooled
  group_page-Keeps false m c group_id limit before_id = refl
  group_page-Keeps true m c group_id limit before_id = page-Keeps c _ _ _ _ _ before_id

  pub unread_page-Keeps :
      (b : Bool) (m : MessageStore) (c : Client D) (user_id : ℕ) (group_ids : List ℕ)
      (last_seen limit : ℕ)
      → Keeps c (unread_page_pooled server b m c user_id group_ids last_seen limit).0
  unfolding unread_page_pooled execute_unread_query
  unread_page-Keeps false m c user_id group_ids last_seen limit = refl
  unread_page-Keeps true m c user_id group_ids last_seen limit = select-Keeps server _ _ c
