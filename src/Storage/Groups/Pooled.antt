-- ===== src/Storage/Groups/Pooled.antt =====
-- src/storage/group_store.cpp with a connection pool: the statements of `GroupStore`.
use cpp_chat.Base.{
  ℕ, Bool, true, false, not, ◌||◌, List, [], ◌∷◌, ◌++◌, Option, none, some, ltb, if◌then◌else◌,
  Bytes, codes, is_empty, is_some, length,
}
use cpp_chat.Storage.Statements.{
  Value, integer, text, Fetch, row, Server, Client, Outcome, unprepared, refused, executed, Access,
  in_memory, unavailable, available, column, integer_of, text_of, mysql_stmt_close, run_statement,
  select, execute_query,
}
use cpp_chat.Storage.Groups.{
  GroupRecord, no_group, CreateGroupResult, GroupStore, create_group, find_group,
}

unfoldable pub create_table : Bytes
create_table =
    codes "CREATE TABLE IF NOT EXISTS `groups` ("
    ++ codes "id BIGINT UNSIGNED NOT NULL AUTO_INCREMENT PRIMARY KEY,"
    ++ codes "name VARCHAR(128) NOT NULL,"
    ++ codes "owner_id BIGINT UNSIGNED NOT NULL,"
    ++ codes "created_at TIMESTAMP NOT NULL DEFAULT CURRENT_TIMESTAMP,"
    ++ codes "INDEX idx_groups_owner (owner_id),"
    ++ codes "CONSTRAINT fk_groups_owner "
    ++ codes "FOREIGN KEY (owner_id) REFERENCES users(id) ON DELETE CASCADE"
    ++ codes ") ENGINE=InnoDB DEFAULT CHARSET=utf8mb4 COLLATE=utf8mb4_unicode_ci"

unfoldable pub create_query : Bytes
create_query = codes "INSERT INTO `groups` (name, owner_id) VALUES (?, ?)"

unfoldable pub find_query : Bytes
find_query =
    codes "SELECT id, name, owner_id, DATE_FORMAT(created_at, '%Y-%m-%d %H:%i:%s') "
    ++ codes "FROM `groups` WHERE id = ? LIMIT 1"

abbrev pub group_refused : Bytes → CreateGroupResult
group_refused reason = record { success = false; group = no_group; reason = reason }

abbrev pub created : Bytes → ℕ → ℕ → CreateGroupResult
created name owner_id insert_id = record {
  success = true;
  group = record { id = insert_id; name = name; owner_id = owner_id; created_at = [] };
  reason = [];
}

-- The buffers of a name and of a date hold 129 and 32 bytes: `mysql_stmt_fetch` answers
-- MYSQL_DATA_TRUNCATED for a row with a longer text, and every answer but 0 is a failure here.
abbrev pub is_truncated : List Value → Bool
is_truncated values =
    ltb 129 (length (text_of (column 1 values))) || ltb 32 (length (text_of (column 3 values)))

abbrev pub group_of_row : List Value → GroupRecord
group_of_row values = record {
  id = integer_of (column 0 values);
  name = text_of (column 1 values);
  owner_id = integer_of (column 2 values);
  created_at = text_of (column 3 values);
}

-- `mysql_stmt_fetch` and what is behind it.
unfoldable pub fetched_group : List Fetch → Option GroupRecord
fetched_group (row values fetched ∷ fetches) =
    if is_truncated values then none else some (group_of_row values)
fetched_group _ = none

module _ {D : Type 0} (server : Server D) where
  -- The constructor with a pool.
  unfoldable pub open_group_store : Bool → Client D → Client D
  unfolding execute_query
  open_group_store acquired c = if not acquired then c else (execute_query server create_table c).0

  unfoldable pub after_create : Bytes → ℕ → Client D × Outcome → Client D × CreateGroupResult
  unfolding mysql_stmt_close
  after_create name owner_id (c, unprepared) = (c, group_refused (codes "database error"))
  after_create name owner_id (c, refused error_number) = (c, group_refused (codes "database error"))
  after_create name owner_id (c, executed reply) =
      (mysql_stmt_close c, created name owner_id reply.insert_id)

  -- Behind the test on the name.
  unfoldable pub create_named :
      Access → GroupStore → Client D → Bytes → ℕ → GroupStore × (Client D × CreateGroupResult)
  unfolding create_group run_statement after_create
  create_named in_memory m c name owner_id =
      let (m', result) = create_group m name owner_id in (m', (c, result))
  create_named unavailable m c name owner_id = (m, (c, group_refused (codes "database error")))
  create_named available m c name owner_id = (
    m,
    after_create name owner_id
        (run_statement server create_query (text name ∷ integer owner_id ∷ []) c),
  )

  unfoldable pub create_group_pooled :
      Access → GroupStore → Client D → Bytes → ℕ → GroupStore × (Client D × CreateGroupResult)
  unfolding create_named
  create_group_pooled access m c name owner_id =
      if is_empty name
      then (m, (c, group_refused (codes "group name is required")))
      else create_named access m c name owner_id

  unfoldable pub find_group_pooled :
      Access → GroupStore → Client D → ℕ → Client D × Option GroupRecord
  unfolding find_group select fetched_group
  find_group_pooled in_memory m c group_id = (c, find_group m group_id)
  find_group_pooled unavailable m c group_id = (c, none)
  find_group_pooled available m c group_id =
      let (c', fetches) = select server find_query (integer group_id ∷ []) c in
      (c', fetched_group fetches)

  unfoldable pub group_exists_pooled : Access → GroupStore → Client D → ℕ → Client D × Bool
  unfolding find_group_pooled
  group_exists_pooled access m c group_id =
      let (c', group) = find_group_pooled access m c group_id in (c', is_some group)
