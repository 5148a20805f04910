-- ===== src/Storage/Messages.antt =====
-- src/storage/message_store.cpp and include/cpp_chat/storage/message_store.h: the messages kept in
-- memory. The mutex is held for the whole of each method, so each is one function of the state. A
-- message's id is its position in `messages_`, counted from 1.
pub mod Pages
pub mod Conversations
pub mod Queries
pub mod Pooled
use Prim.Native.Nat.{bit_or}
use cpp_chat.Base.{
  min, max, ◌*◌, ◌%◌, ◌^◌, codes, ℕ, zero, suc, ◌+◌, Bool, true, false, ◌&&◌, ◌||◌, not, List, [],
  ◌∷◌, ◌++◌, Option, none, some, ltb, leb, ◌==◌, if◌then◌else◌, Bytes, length, filterb, get_elem?,
}
use cpp_chat.Base.Sets.{contains}
use cpp_chat.Protocol.Message.{MessageType, Message}

pub record StoredMessage : Type 0 where
  pub id : ℕ
  pub type : MessageType
  pub sender_id : ℕ
  pub receiver_id : ℕ
  pub body : Bytes
  pub created_at : Bytes

-- The private fields, without the pool.
pub record MessageStore : Type 0 where
  pub messages : List Message

abbrev pub is_direct_chat : MessageType → Bool
is_direct_chat MessageType.direct_chat = true
is_direct_chat _ = false

abbrev pub is_group_chat : MessageType → Bool
is_group_chat MessageType.group_chat = true
is_group_chat _ = false

-- `{message_id, msg.type, msg.sender_id, msg.receiver_id, msg.body, ""}`
abbrev pub stored_as : ℕ → Message → StoredMessage
stored_as message_id msg = record {
  id = message_id;
  type = msg.type;
  sender_id = msg.sender_id;
  receiver_id = msg.receiver_id;
  body = msg.body;
  created_at = [];
}

unfoldable pub append : MessageStore → Message → MessageStore × StoredMessage
append m message =
    let messages = m.messages ++ message ∷ [] in
    (record m { messages = messages }, stored_as (length messages) message)

unfoldable pub all : MessageStore → List Message
all m = m.messages

-- The condition of both private histories.
abbrev pub is_between : ℕ → ℕ → Message → Bool
is_between user_id peer_id msg =
    is_direct_chat msg.type
    && (msg.sender_id == user_id && msg.receiver_id == peer_id
        || msg.sender_id == peer_id && msg.receiver_id == user_id)

-- The condition of both group histories.
abbrev pub is_in_group : ℕ → Message → Bool
is_in_group group_id msg = is_group_chat msg.type && msg.receiver_id == group_id

unfoldable pub direct_history : MessageStore → ℕ → ℕ → List Message
direct_history m user_id peer_id = filterb (is_between user_id peer_id) m.messages

unfoldable pub group_history : MessageStore → ℕ → List Message
group_history m group_id = filterb (is_in_group group_id) m.messages

-- `if (limit == 0) limit = 20;`
abbrev pub page_size : ℕ → ℕ
page_size limit = if limit == 0 then 20 else limit

-- What one round appends to `result`.
round_result : (Message → Bool) → ℕ → ℕ → Option Message → List StoredMessage → List StoredMessage
round_result keep before_id message_id none result = result
round_result keep before_id message_id (some msg) result =
    if ltb 0 before_id && leb before_id message_id
    then result
    else if keep msg
    then result ++ stored_as message_id msg ∷ []
    else result

-- The loop of both history pages, from `index` down.
unfoldable pub history_loop :
    (Message → Bool) → ℕ → ℕ → List Message → ℕ → List StoredMessage → List StoredMessage
unfolding round_result
history_loop keep limit before_id messages zero result = result
history_loop keep limit before_id messages (suc index) result =
    let longer = round_result keep before_id (suc index) (get_elem? messages index) result in
    elim (ltb (length result) limit) [
      | true ↦ history_loop keep limit before_id messages index longer
      | false ↦ result
    ]

unfoldable pub direct_history_page : MessageStore → ℕ → ℕ → ℕ → ℕ → List StoredMessage
unfolding history_loop
direct_history_page m user_id peer_id limit before_id =
    history_loop (is_between user_id peer_id) (page_size limit) before_id m.messages
      (length m.messages) []

unfoldable pub group_history_page : MessageStore → ℕ → ℕ → ℕ → List StoredMessage
unfolding history_loop
group_history_page m group_id limit before_id =
    history_loop (is_in_group group_id) (page_size limit) before_id m.messages (length m.messages)
      []

-- `direct_unread || group_unread`
abbrev pub is_unread : ℕ → List ℕ → Message → Bool
unfolding contains
is_unread user_id group_ids msg =
    is_direct_chat msg.type && msg.receiver_id == user_id
    || is_group_chat msg.type
      && not (msg.sender_id == user_id)
      && contains msg.receiver_id group_ids

-- The loop of `unread_page`, from `index` on; `messages` is what stands there and behind.
unfoldable pub unread_loop :
    (Message → Bool) → ℕ → ℕ → ℕ → List Message → List StoredMessage → List StoredMessage
unread_loop keep limit last_seen index [] result = result
unread_loop keep limit last_seen index (msg ∷ messages) result =
    let longer =
      if leb (index + 1) last_seen
      then result
      else if keep msg
      then result ++ stored_as (index + 1) msg ∷ []
      else result in
    elim (ltb (length result) limit) [
      | true ↦ unread_loop keep limit last_seen (index + 1) messages longer
      | false ↦ result
    ]

unfoldable pub unread_page : MessageStore → ℕ → List ℕ → ℕ → ℕ → List StoredMessage
unfolding unread_loop
unread_page m user_id group_ids last_seen_message_id limit =
    unread_loop (is_unread user_id group_ids) (page_size limit) last_seen_message_id 0 m.messages []

-- `conversation_type_for`, for the column `conversation_type`.
unfoldable pub conversation_type_for : MessageType → ℕ
conversation_type_for MessageType.direct_chat = 1
conversation_type_for MessageType.group_chat = 2
conversation_type_for _ = 0

-- Bits are lost above the 64th, and `|` is bitwise.
unfoldable pub make_direct_conversation_id : ℕ → ℕ → ℕ
make_direct_conversation_id a b = bit_or (min a b * 2 ^ 32 % 2 ^ 64) (max a b)

conversation_id_of : MessageType → Message → ℕ
unfolding make_direct_conversation_id
conversation_id_of MessageType.direct_chat message =
    make_direct_conversation_id message.sender_id message.receiver_id
conversation_id_of MessageType.group_chat message = message.receiver_id
conversation_id_of _ message = 0

unfoldable pub conversation_id_for : Message → ℕ
unfolding conversation_id_of
conversation_id_for message = conversation_id_of message.type message

-- `message_type_to_string`, for the column `type`.
unfoldable pub message_type_to_string : MessageType → Bytes
message_type_to_string MessageType.direct_chat = codes "DirectChat"
message_type_to_string MessageType.group_chat = codes "GroupChat"
message_type_to_string MessageType.group_join = codes "GroupJoin"
message_type_to_string MessageType.group_leave = codes "GroupLeave"
message_type_to_string _ = codes "System"
