-- ===== src/Storage/Messages/Queries.antt =====
-- The texts of the statements of src/storage/message_store.cpp, and the parameters of the unread
-- messages.
use cpp_chat.Base.{ℕ, List, [], ◌∷◌, ◌++◌, Bytes, codes}

unfoldable pub column_exists_query : Bytes
column_exists_query =
    codes "SELECT COUNT(*) FROM INFORMATION_SCHEMA.COLUMNS WHERE TABLE_SCHEMA = DATABASE() "
    ++ codes "AND TABLE_NAME = ? AND COLUMN_NAME = ?"

unfoldable pub create_table : Bytes
create_table =
    codes "CREATE TABLE IF NOT EXISTS messages ("
    ++ codes "id                BIGINT UNSIGNED NOT NULL AUTO_INCREMENT PRIMARY KEY,"
    ++ codes "conversation_type TINYINT         NOT NULL DEFAULT 0,"
    ++ codes "conversation_id   BIGINT UNSIGNED NOT NULL DEFAULT 0,"
    ++ codes "created_at        TIMESTAMP       NOT NULL DEFAULT CURRENT_TIMESTAMP,"
    ++ codes "type              VARCHAR(32)     NOT NULL,"
    ++ codes "sender_id         BIGINT UNSIGNED NOT NULL,"
    ++ codes "receiver_id       BIGINT UNSIGNED NOT NULL,"
    ++ codes "body              TEXT            NOT NULL,"
    ++ codes "INDEX idx_conv_id_desc     (conversation_type, conversation_id, id),"
    ++ codes "INDEX idx_sender_created   (sender_id, created_at),"
    ++ codes "INDEX idx_messages_sender  (sender_id),"
    ++ codes "INDEX idx_messages_receiver(receiver_id),"
    ++ codes "INDEX idx_messages_created (created_at)"
    ++ codes ") ENGINE=InnoDB DEFAULT CHARSET=utf8mb4 COLLATE=utf8mb4_unicode_ci"

unfoldable pub add_conversation_type : Bytes
add_conversation_type =
    codes "ALTER TABLE messages "
    ++ codes "ADD COLUMN conversation_type TINYINT NOT NULL DEFAULT 0 AFTER id"

unfoldable pub add_conversation_id : Bytes
add_conversation_id =
    codes "ALTER TABLE messages ADD COLUMN conversation_id BIGINT UNSIGNED NOT NULL DEFAULT 0 "
    ++ codes "AFTER conversation_type"

unfoldable pub create_conversation_index : Bytes
create_conversation_index =
    codes "CREATE INDEX idx_conv_id_desc ON messages (conversation_type, conversation_id, id)"

unfoldable pub create_sender_index : Bytes
create_sender_index = codes "CREATE INDEX idx_sender_created ON messages (sender_id, created_at)"

unfoldable pub fill_conversations : Bytes
fill_conversations =
    codes "UPDATE messages SET conversation_type = CASE     WHEN type = 'DirectChat' THEN 1 "
    ++ codes "    WHEN type = 'GroupChat' THEN 2     ELSE 0 END, conversation_id = CASE "
    ++ codes "    WHEN type = 'DirectChat' THEN "
    ++ codes "((LEAST(sender_id, receiver_id) << 32) | GREATEST(sender_id, receiver_id)) "
    ++ codes "    WHEN type = 'GroupChat' THEN receiver_id     ELSE 0 END "
    ++ codes "WHERE conversation_type = 0"

unfoldable pub insert_query : Bytes
insert_query =
    codes "INSERT INTO messages "
    ++ codes "(conversation_type, conversation_id, type, sender_id, receiver_id, body) "
    ++ codes "VALUES (?, ?, ?, ?, ?, ?)"

unfoldable pub direct_history_query : Bytes
direct_history_query =
    codes "SELECT sender_id, receiver_id, body FROM messages WHERE type = 'DirectChat' "
    ++ codes "AND ((sender_id = ? AND receiver_id = ?) OR (sender_id = ? AND receiver_id = ?)) "
    ++ codes "ORDER BY id ASC"

unfoldable pub group_history_query : Bytes
group_history_query =
    codes "SELECT sender_id, receiver_id, body FROM messages "
    ++ codes "WHERE type = 'GroupChat' AND receiver_id = ? ORDER BY id ASC"

-- The columns of a page.
unfoldable pub page_columns : Bytes
page_columns =
    codes "SELECT id, sender_id, receiver_id, body, DATE_FORMAT(created_at, '%Y-%m-%d %H:%i:%s') "
    ++ codes "FROM messages "

unfoldable pub direct_page_query : Bytes
unfolding page_columns
direct_page_query =
    page_columns
    ++ codes "WHERE conversation_type = 1 AND conversation_id = ? ORDER BY id DESC LIMIT ?"

unfoldable pub direct_page_before_query : Bytes
unfolding page_columns
direct_page_before_query =
    page_columns
    ++ codes "WHERE conversation_type = 1 AND conversation_id = ? AND id < ? "
    ++ codes "ORDER BY id DESC LIMIT ?"

unfoldable pub group_page_query : Bytes
unfolding page_columns
group_page_query =
    page_columns
    ++ codes "WHERE conversation_type = 2 AND conversation_id = ? ORDER BY id DESC LIMIT ?"

unfoldable pub group_page_before_query : Bytes
unfolding page_columns
group_page_before_query =
    page_columns
    ++ codes "WHERE conversation_type = 2 AND conversation_id = ? AND id < ? "
    ++ codes "ORDER BY id DESC LIMIT ?"

-- What the loop over the groups appends.
unfoldable pub unread_groups : List ℕ → Bytes
unread_groups [] = []
unread_groups (group_id ∷ group_ids) =
    codes " OR (conversation_type = 2 AND conversation_id = ? AND sender_id <> ?)"
    ++ unread_groups group_ids

unfoldable pub unread_query : List ℕ → Bytes
unfolding unread_groups
unread_query group_ids =
    codes "SELECT id, type, sender_id, receiver_id, body, "
    ++ codes "DATE_FORMAT(created_at, '%Y-%m-%d %H:%i:%s') FROM messages "
    ++ codes "WHERE id > ? AND ((conversation_type = 1 AND receiver_id = ?)"
    ++ unread_groups group_ids
    ++ codes ") ORDER BY id ASC LIMIT ?"

unfoldable pub group_params : ℕ → List ℕ → List ℕ
group_params user_id [] = []
group_params user_id (group_id ∷ group_ids) = group_id ∷ user_id ∷ group_params user_id group_ids

-- `params_storage`
unfoldable pub unread_params : ℕ → List ℕ → ℕ → ℕ → List ℕ
unfolding group_params
unread_params user_id group_ids last_seen_message_id limit =
    last_seen_message_id ∷ user_id ∷ (group_params user_id group_ids ++ limit ∷ [])
