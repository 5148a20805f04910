-- ===== src/Storage/Messages/Pooled/Archiving.antt =====
-- With the database, what `append` is given is what the pages and the unread messages then show.
use cpp_chat.Base.{
  ℕ, ◌<◌, ◌≤◌, ◌^◌, ◌≡◌, refl, sym, ap, ◌∙◌, true, false, Bool, Bool-cases, inl, inr, List, [], ◌∷◌,
  ◌++◌, Bytes, take, reverse, arith, if◌then◌else◌, length,
}
use cpp_chat.Protocol.Message.{MessageType, Message}
use cpp_chat.Storage.Statements.{Value, Server, Client, run_statement}
use cpp_chat.Storage.Messages.{
  StoredMessage, MessageStore, append, stored_as, conversation_type_for, conversation_id_for,
  message_type_to_string, is_between, is_in_group, is_unread, page_size,
}
use cpp_chat.Storage.Messages.Conversations.{make_direct_conversation_id_lem}
use cpp_chat.Storage.Messages.Pages.{older, newer}
use cpp_chat.Storage.Messages.Queries.{insert_query}
use cpp_chat.Storage.Messages.Pooled.{
  append_pooled, after_insert, insert_params, direct_history_page_pooled, group_history_page_pooled,
  unread_page_pooled,
}
use cpp_chat.Storage.Messages.Pooled.Tables.{
  MessageRow, row_of, archived, IsMessageServer, IsInsertServer, IsSmall, AreSmall, Represents,
}
use cpp_chat.Storage.Messages.Pooled.Rows.{map-append_one}
use cpp_chat.Storage.Messages.Pooled.Refinement.{
  direct_history_page_pooled-older, group_history_page_pooled-older,
}
use cpp_chat.Storage.Messages.Pooled.Unread.{unread_page_pooled-newer}

AreSmall-append_one :
    (archive : List StoredMessage) (s : StoredMessage)
    → AreSmall archive
    → IsSmall s
    → AreSmall (archive ++ s ∷ [])
AreSmall-append_one [] s small ends = (ends, tt)
AreSmall-append_one (x ∷ archive) s (first, small) ends =
    (first, AreSmall-append_one archive s small ends)

-- The columns hold what a message puts into them.
conversation_id_fits :
    (type : MessageType) (sender_id receiver_id : ℕ) (body : Bytes)
    → sender_id < 2 ^ 32
    → receiver_id < 2 ^ 32
    → conversation_id_for
        (record { type = type; sender_id = sender_id; receiver_id = receiver_id; body = body })
      < 2 ^ 64
unfolding conversation_id_for
conversation_id_fits MessageType.direct_chat sender_id receiver_id body hs hr =
    omega (arith, make_direct_conversation_id_lem sender_id receiver_id hs hr)
conversation_id_fits MessageType.group_chat sender_id receiver_id body hs hr = omega arith
conversation_id_fits _ sender_id receiver_id body hs hr = omega arith

conversation_type_fits : (type : MessageType) → conversation_type_for type < 128
unfolding conversation_type_for
conversation_type_fits MessageType.direct_chat = omega arith
conversation_type_fits MessageType.group_chat = omega arith
conversation_type_fits _ = omega arith

type_fits : (type : MessageType) → length (message_type_to_string type) ≤ 32
unfolding message_type_to_string
type_fits MessageType.direct_chat = omega arith
type_fits MessageType.group_chat = omega arith
type_fits MessageType.group_join = omega arith
type_fits MessageType.group_leave = omega arith
type_fits _ = omega arith

-- A statement that is not executed changes neither what is told nor the database.
refused_kept :
    {D : Type 0} (server : Server D) (c : Client D) (query : Bytes) (params : List Value)
    (stored : StoredMessage)
    → (server.statement query params c.database).0 ≡ c.database
    → (server.statement query params c.database).1.is_executed ≡ false
    → let r = after_insert server stored (run_statement server query params c) in
      (r.1 ≡ stored) × (r.0.database ≡ c.database)
unfolding after_insert run_statement
refused_kept server c query params stored same unexecuted =
    let reply = (server.statement query params c.database).1 in
    elim (Bool-cases reply.is_made) [
      | inr a ↦ rw a (refl, refl)
      | inl a ↦ elim (Bool-cases reply.is_prepared) [
        | inr b ↦ rw (a, b) (refl, refl)
        | inl b ↦ elim (Bool-cases reply.is_bound) [
          | inr d ↦ rw (a, b, d) (refl, refl)
          | inl d ↦ rw (a, b, d, unexecuted) (refl, same)
        ]
      ]
    ]

module _ {D : Type 0} (server : Server D) (table : D → List MessageRow) (takes : Bytes → Bool)
    (next_id : D → ℕ) (now : D → Bytes) (v : IsInsertServer server table takes next_id now)
    (m : MessageStore) (c : Client D) (archive : List StoredMessage)
    (w : Represents (table c.database) archive) where
  -- The archive behind an `append`.
  abbrev pub kept : Message → List StoredMessage
  kept message =
      if takes message.body
      then archive ++ archived (next_id c.database) (now c.database) message ∷ []
      else archive

  append_pooled-Represents :
      (message : Message)
      → message.sender_id < 2 ^ 32
      → message.receiver_id < 2 ^ 32
      → let (m', (c', stored)) = append_pooled server true m c message in
        (stored
          ≡ stored_as
              (if takes message.body then next_id c.database else length m'.messages)
              message)
        × Represents (table c'.database) (kept message)
  unfolding append_pooled append after_insert run_statement
  append_pooled-Represents message hs hr =
      let type = message.type in
      let from = message.sender_id in
      let to = message.receiver_id in
      let id = conversation_id_for message in
      let name = message_type_to_string type in
      elim (Bool-cases (takes message.body)) [
        | inl k ↦
            let fits = conversation_id_fits type from to message.body hs hr in
            let e =
              v.insert (conversation_type_for type) id from to name message.body c.database
                (conversation_type_fits type) fits (omega arith) (omega arith) (type_fits type) k in
            let added = archived (next_id c.database) (now c.database) message in
            rw k (
              rw e.0 (
                refl,
                record {
                  rows =
                      e.1
                      ∙ (ap (λ t. t ++ row_of added ∷ []) w.rows
                          ∙ sym (map-append_one row_of archive _));
                  small = AreSmall-append_one archive _ w.small (hs, hr);
                },
              ))
        | inr k ↦
            let e =
              v.refuse (conversation_type_for type) id from to name message.body c.database k in
            let r = refused_kept server c insert_query (insert_params message) _ e.0 e.1 in
            rw k (r.0, record { rows = ap table r.1 ∙ w.rows; small = w.small })
      ]

  module _ (u : IsMessageServer server table) where
    -- If the server runs its statements as their texts say, and its table holds an archive of messages
    -- between users whose ids have at most 32 bits: after a message between such users is appended,
    -- the pages of both histories and the unread messages show the archive with that message behind
    -- it, dated and numbered by the server, if the column takes its body, and without it otherwise.
    -- The caller is told the number that the server gave, or else the message's place in memory.
    pub append_pooled-read :
        (message : Message) (user_id peer_id group_id limit before_id last_seen : ℕ)
        (group_ids : List ℕ)
        → message.sender_id < 2 ^ 32
        → message.receiver_id < 2 ^ 32
        → user_id < 2 ^ 32
        → peer_id < 2 ^ 32
        → let (m', (c', stored)) = append_pooled server true m c message in
          let number = if takes message.body then next_id c.database else length m'.messages in
          (stored ≡ stored_as number message)
          × ((direct_history_page_pooled server true m' c' user_id peer_id limit before_id).1
              ≡ take
                  (page_size limit)
                  (reverse (older (is_between user_id peer_id) before_id (kept message))))
          × ((group_history_page_pooled server true m' c' group_id limit before_id).1
              ≡ take
                  (page_size limit)
                  (reverse (older (is_in_group group_id) before_id (kept message))))
          × ((unread_page_pooled server true m' c' user_id group_ids last_seen limit).1
              ≡ take
                  (page_size limit)
                  (newer (is_unread user_id group_ids) last_seen (kept message)))
    append_pooled-read message user_id peer_id group_id limit before_id last_seen group_ids hs hr hu
          hp =
        let r = append_pooled server true m c message in
        let m' = r.0 in
        let c' = r.1.0 in
        let after = append_pooled-Represents message hs hr in
        let archive' = kept message in
        (
          after.0,
          direct_history_page_pooled-older server table u m' c' archive' after.1 user_id peer_id
              limit before_id hu hp,
          group_history_page_pooled-older server table u m' c' archive' after.1 group_id limit
              before_id,
          unread_page_pooled-newer server table u m' c' archive' after.1 user_id group_ids last_seen
              limit,
        )
