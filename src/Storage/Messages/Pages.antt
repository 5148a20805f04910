-- ===== src/Storage/Messages/Pages.antt =====
-- The pages of `MessageStore` against the numbered list of all messages.
use cpp_chat.Base.{
  ℕ, zero, suc, ◌+◌, ◌≤◌, ◌<◌, ◌≡◌, sym, ap, ◌∙◌, Bool, ◌&&◌, ◌||◌, List, [], ◌∷◌, ◌++◌, some,
  arith, append_assoc, append-nil, inl, inr, ltb, ◌==◌, if◌then◌else◌, length, take, filterb,
  filterb-append, reverse, reverse-append_one, get_elem?, take-suc, take_all, take-append_left,
  length-take, length-append, Bool-cases,
}
use cpp_chat.Protocol.Message.{Message}
use cpp_chat.Storage.Messages.{
  StoredMessage, MessageStore, stored_as, is_between, is_in_group, is_unread, page_size,
  history_loop, direct_history_page, group_history_page, round_result, unread_loop, unread_page,
}

-- Every message with its id: its position, counted from `first + 1`.
abbrev pub numbered : ℕ → List Message → List StoredMessage
numbered first [] = []
numbered first (msg ∷ messages) = stored_as (first + 1) msg ∷ numbered (first + 1) messages

abbrev pub message_of : StoredMessage → Message
message_of s = record {
  type = s.type;
  sender_id = s.sender_id;
  receiver_id = s.receiver_id;
  body = s.body;
}

-- Older than the cursor, where 0 is no cursor.
abbrev pub is_before : ℕ → StoredMessage → Bool
is_before before_id s = before_id == 0 || ltb s.id before_id

abbrev pub is_after : ℕ → StoredMessage → Bool
is_after last_seen s = ltb last_seen s.id

-- The messages that a history shows, oldest first.
abbrev pub older : (Message → Bool) → ℕ → List StoredMessage → List StoredMessage
older keep before_id = filterb (λ s. is_before before_id s && keep (message_of s))

numbered-append_one :
    (first : ℕ) (messages : List Message) (msg : Message)
    → numbered first (messages ++ msg ∷ [])
      ≡ numbered first messages ++ stored_as (first + length messages + 1) msg ∷ []
numbered-append_one first [] msg = let e : first + 0 + 1 ≡ first + 1 = omega arith in rw e
numbered-append_one first (x ∷ messages) msg =
    let e : first + 1 + length messages + 1 ≡ first + suc (length messages) + 1 = omega arith in
    ap (◌∷◌ (stored_as (first + 1) x)) (rw (← e) (numbered-append_one (first + 1) messages msg))

-- The newest of the first `index + 1` messages comes first, if it is shown.
older-take-suc :
    (keep : Message → Bool) (before_id index : ℕ) (messages : List Message) (msg : Message)
    → index ≤ length messages
    → take (suc index) messages ≡ take index messages ++ msg ∷ []
    → reverse (older keep before_id (numbered 0 (take (suc index) messages))) ≡ (
        if is_before before_id (stored_as (suc index) msg) && keep msg
        then stored_as (suc index) msg
          ∷ reverse (older keep before_id (numbered 0 (take index messages)))
        else reverse (older keep before_id (numbered 0 (take index messages))))
older-take-suc keep before_id index messages msg h e =
    let n : 0 + length (take index messages) + 1 ≡ suc index =
      omega (arith, length-take index messages) in
    rw (e, numbered-append_one, n, filterb-append)
      (elim (Bool-cases (is_before before_id (stored_as (suc index) msg) && keep msg)) [
        | inl e' ↦ rw e' (reverse-append_one _ _)
        | inr e' ↦ rw (e', append-nil)
      ])

round_result-some :
    (keep : Message → Bool) (before_id message_id : ℕ) (msg : Message) (result : List StoredMessage)
    → round_result keep before_id message_id (some msg) result ≡ (
        if is_before before_id (stored_as message_id msg) && keep msg
        then result ++ stored_as message_id msg ∷ []
        else result)
unfolding round_result
round_result-some keep before_id message_id msg result = ground arith

-- A round at a message.
history_round :
    (keep : Message → Bool) (limit before_id : ℕ) (messages : List Message) (index : ℕ)
    (result : List StoredMessage) (msg : Message)
    → get_elem? messages index ≡ some msg
    → history_loop keep limit before_id messages (suc index) result ≡ (
        if ltb (length result) limit
        then history_loop keep limit before_id messages index (
            if is_before before_id (stored_as (suc index) msg) && keep msg
            then result ++ stored_as (suc index) msg ∷ []
            else result)
        else result)
unfolding history_loop
history_round keep limit before_id messages index result msg found =
    elim (Bool-cases (ltb (length result) limit)) [
      | inl e ↦
          rw (e, history_loop)
            (ap (history_loop keep limit before_id messages index) (
              ap (λ o. round_result keep before_id (suc index) o result) found
              ∙ round_result-some keep before_id (suc index) msg result))
      | inr e ↦ rw (e, history_loop)
    ]

-- A page that is full takes nothing more.
full_page :
    (limit : ℕ) (result later : List StoredMessage)
    → length result ≤ limit
    → limit ≤ length result
    → result ≡ take limit (result ++ later)
full_page limit result later h h' =
    sym (take-append_left limit result later h' ∙ take_all limit result h)

history_loop-older :
    (keep : Message → Bool) (limit before_id : ℕ) (messages : List Message) (index : ℕ)
    (result : List StoredMessage)
    → index ≤ length messages
    → length result ≤ limit
    → history_loop keep limit before_id messages index result
      ≡ take limit (result ++ reverse (older keep before_id (numbered 0 (take index messages))))
history_loop-older keep limit before_id messages zero result h small =
    unfold history_loop reverse in rw append-nil (sym (take_all limit result small))
history_loop-older keep limit before_id messages (suc index) result h small =
    let (msg, found, split) = take-suc index messages (omega arith) in
    history_round keep limit before_id messages index result msg found
    ∙ rw (older-take-suc keep before_id index messages msg (omega arith) split)
        (elim (Bool-cases (ltb (length result) limit)) [
          | inr e ↦ rw e (full_page limit result _ small (ground arith))
          | inl e ↦
              let room : length result < limit = ground arith in
              rw e
                (elim (Bool-cases (is_before before_id (stored_as (suc index) msg) && keep msg)) [
                  | inl k ↦ rw k (
                      history_loop-older keep limit before_id messages index
                        (result ++ stored_as (suc index) msg ∷ []) (omega arith)
                        (omega (arith, length-append result (stored_as (suc index) msg ∷ [])))
                      ∙ rw append_assoc)
                  | inr k ↦ rw k (
                      history_loop-older keep limit before_id messages index result (omega arith)
                        small)
                ])
        ])

-- A page of a private history: of the messages between the two users that are older than the
-- cursor, the newest `limit`, the newest of them first. A limit of 0 stands for 20, and a cursor of 0
-- for none.
pub direct_history_page-older :
    (m : MessageStore) (user_id peer_id limit before_id : ℕ)
    → direct_history_page m user_id peer_id limit before_id
      ≡ take
          (page_size limit)
          (reverse (older (is_between user_id peer_id) before_id (numbered 0 m.messages)))
unfolding direct_history_page
direct_history_page-older m user_id peer_id limit before_id =
    history_loop-older (is_between user_id peer_id) (page_size limit) before_id m.messages
      (length m.messages) [] (omega arith) (omega arith)
    ∙ rw (take_all (length m.messages) m.messages (omega arith))

-- A page of a group history: of the messages to the group that are older than the cursor, the newest
-- `limit`, the newest of them first. A limit of 0 stands for 20, and a cursor of 0 for none.
pub group_history_page-older :
    (m : MessageStore) (group_id limit before_id : ℕ)
    → group_history_page m group_id limit before_id
      ≡ take
          (page_size limit)
          (reverse (older (is_in_group group_id) before_id (numbered 0 m.messages)))
unfolding group_history_page
group_history_page-older m group_id limit before_id =
    history_loop-older (is_in_group group_id) (page_size limit) before_id m.messages
      (length m.messages) [] (omega arith) (omega arith)
    ∙ rw (take_all (length m.messages) m.messages (omega arith))

-- The messages that are unread, oldest first.
abbrev pub newer : (Message → Bool) → ℕ → List StoredMessage → List StoredMessage
newer keep last_seen = filterb (λ s. is_after last_seen s && keep (message_of s))

unread_loop-newer :
    (keep : Message → Bool) (limit last_seen index : ℕ) (messages : List Message)
    (result : List StoredMessage)
    → length result ≤ limit
    → unread_loop keep limit last_seen index messages result
      ≡ take limit (result ++ newer keep last_seen (numbered index messages))
unfolding unread_loop
unread_loop-newer keep limit last_seen index [] result small =
    rw append-nil (sym (take_all limit result small))
unread_loop-newer keep limit last_seen index (msg ∷ messages) result small =
    elim (Bool-cases (ltb (length result) limit)) [
      | inr e ↦ rw (e, unread_loop) (full_page limit result _ small (ground arith))
      | inl e ↦
          let room : length result < limit = ground arith in
          rw (e, unread_loop)
            (unread_loop-newer keep limit last_seen (index + 1) messages _
                (ground (arith, length-append result (stored_as (index + 1) msg ∷ [])))
              ∙ ap (take limit) (
                  ground (
                    arith,
                    append_assoc result (stored_as (index + 1) msg ∷ [])
                        (newer keep last_seen (numbered (index + 1) messages)),
                  )))
    ]

-- A page of unread messages: of the messages to the user, and of those to the given groups from
-- others, that came after `last_seen_message_id`, the oldest `limit`, oldest first. A limit of 0
-- stands for 20.
pub unread_page-newer :
    (m : MessageStore) (user_id : ℕ) (group_ids : List ℕ) (last_seen limit : ℕ)
    → unread_page m user_id group_ids last_seen limit
      ≡ take
          (page_size limit)
          (newer (is_unread user_id group_ids) last_seen (numbered 0 m.messages))
unfolding unread_page
unread_page-newer m user_id group_ids last_seen limit =
    unread_loop-newer (is_unread user_id group_ids) (page_size limit) last_seen 0 m.messages []
      (omega arith)
