-- ===== src/Storage/Members/Pooled.antt =====
-- src/storage/group_member_store.cpp with a connection pool: the statements of `GroupMemberStore`.
pub mod Refinement
use cpp_chat.Base.{
  ℕ, Bool, true, false, not, List, [], ◌∷◌, ◌++◌, Option, none, some, ◌==◌, if◌then◌else◌, Bytes,
  codes,
}
use cpp_chat.Storage.Statements.{
  Value, integer, Server, Client, Access, in_memory, unavailable, available, select, change,
  execute_query, collect_ids, is_row,
}
use cpp_chat.Storage.Members.{
  GroupMemberStore, GroupMemberResult, not_a_member, join_group, leave_group, is_group_member,
  load_group_members, load_user_groups,
}

unfoldable pub create_table : Bytes
create_table =
    codes "CREATE TABLE IF NOT EXISTS group_members ("
    ++ codes "group_id BIGINT UNSIGNED NOT NULL,"
    ++ codes "user_id BIGINT UNSIGNED NOT NULL,"
    ++ codes "joined_at TIMESTAMP NOT NULL DEFAULT CURRENT_TIMESTAMP,"
    ++ codes "PRIMARY KEY (group_id, user_id),"
    ++ codes "INDEX idx_group_members_user_group (user_id, group_id),"
    ++ codes "INDEX idx_group_members_joined_at (joined_at),"
    ++ codes "CONSTRAINT fk_group_members_user "
    ++ codes "FOREIGN KEY (user_id) REFERENCES users(id) ON DELETE CASCADE"
    ++ codes ") ENGINE=InnoDB DEFAULT CHARSET=utf8mb4 COLLATE=utf8mb4_unicode_ci"

unfoldable pub join_query : Bytes
join_query = codes "INSERT IGNORE INTO group_members (group_id, user_id) VALUES (?, ?)"

unfoldable pub leave_query : Bytes
leave_query = codes "DELETE FROM group_members WHERE group_id = ? AND user_id = ?"

unfoldable pub member_query : Bytes
member_query = codes "SELECT 1 FROM group_members WHERE group_id = ? AND user_id = ? LIMIT 1"

unfoldable pub members_query : Bytes
members_query = codes "SELECT user_id FROM group_members WHERE group_id = ? ORDER BY user_id ASC"

unfoldable pub groups_query : Bytes
groups_query = codes "SELECT group_id FROM group_members WHERE user_id = ? ORDER BY group_id ASC"

abbrev pub database_error : GroupMemberResult
database_error = record { success = false; already_member = false; reason = codes "database error" }

-- The parameters of `bind_uint64_params`.
abbrev pub two_ids : ℕ → ℕ → List Value
two_ids first second = integer first ∷ integer second ∷ []

-- What `join_group` and `leave_group` make of the number of rows that were changed.
abbrev pub join_result : Option ℕ → GroupMemberResult
join_result none = database_error
join_result (some affected_rows) = record {
  success = true;
  already_member = affected_rows == 0;
  reason = [];
}

abbrev pub leave_result : Option ℕ → GroupMemberResult
leave_result none = database_error
leave_result (some affected_rows) =
    if affected_rows == 0
    then not_a_member
    else record { success = true; already_member = false; reason = [] }

module _ {D : Type 0} (server : Server D) where
  -- The constructor with a pool.
  unfoldable pub open_member_store : Bool → Client D → Client D
  unfolding execute_query
  open_member_store acquired c = if not acquired then c else (execute_query server create_table c).0

  unfoldable pub join_group_pooled :
      Access
      → GroupMemberStore
      → Client D
      → ℕ
      → ℕ
      → GroupMemberStore × (Client D × GroupMemberResult)
  unfolding join_group change
  join_group_pooled in_memory m c group_id user_id =
      let (m', result) = join_group m group_id user_id in (m', (c, result))
  join_group_pooled unavailable m c group_id user_id = (m, (c, database_error))
  join_group_pooled available m c group_id user_id =
      let (c', changed) = change server join_query (two_ids group_id user_id) c in
      (m, (c', join_result changed))

  unfoldable pub leave_group_pooled :
      Access
      → GroupMemberStore
      → Client D
      → ℕ
      → ℕ
      → GroupMemberStore × (Client D × GroupMemberResult)
  unfolding leave_group change
  leave_group_pooled in_memory m c group_id user_id =
      let (m', result) = leave_group m group_id user_id in (m', (c, result))
  leave_group_pooled unavailable m c group_id user_id = (m, (c, database_error))
  leave_group_pooled available m c group_id user_id =
      let (c', changed) = change server leave_query (two_ids group_id user_id) c in
      (m, (c', leave_result changed))

  unfoldable pub is_group_member_pooled :
      Access → GroupMemberStore → Client D → ℕ → ℕ → Client D × Bool
  unfolding is_group_member select
  is_group_member_pooled in_memory m c group_id user_id = (c, is_group_member m group_id user_id)
  is_group_member_pooled unavailable m c group_id user_id = (c, false)
  is_group_member_pooled available m c group_id user_id =
      let (c', fetches) = select server member_query (two_ids group_id user_id) c in
      (c', is_row fetches)

  unfoldable pub load_group_members_pooled :
      Access → GroupMemberStore → Client D → ℕ → Client D × List ℕ
  unfolding load_group_members select collect_ids
  load_group_members_pooled in_memory m c group_id = (c, load_group_members m group_id)
  load_group_members_pooled unavailable m c group_id = (c, [])
  load_group_members_pooled available m c group_id =
      let (c', fetches) = select server members_query (integer group_id ∷ []) c in
      (c', collect_ids fetches)

  unfoldable pub load_user_groups_pooled :
      Access → GroupMemberStore → Client D → ℕ → Client D × List ℕ
  unfolding load_user_groups select collect_ids
  load_user_groups_pooled in_memory m c user_id = (c, load_user_groups m user_id)
  load_user_groups_pooled unavailable m c user_id = (c, [])
  load_user_groups_pooled available m c user_id =
      let (c', fetches) = select server groups_query (integer user_id ∷ []) c in
      (c', collect_ids fetches)
