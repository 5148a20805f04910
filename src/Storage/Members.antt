-- ===== src/Storage/Members.antt =====
-- src/storage/group_member_store.cpp and include/cpp_chat/storage/group_member_store.h: the group
-- members kept in memory.
pub mod Laws
pub mod Pooled
use cpp_chat.Base.{
  ℕ, Bool, true, false, List, [], ◌∷◌, Option, none, some, Bytes, codes, if◌then◌else◌, is_empty,
  ◌==◌, not, nat_eq,
}
use cpp_chat.Base.Maps.{lookup, insert, erase}
use cpp_chat.Base.Sets.{contains, set_insert, set_erase, members_or_empty, drop_member}
use cpp_chat.Base.Sorting.{sort}

-- The private fields, without the pool.
pub record GroupMemberStore : Type 0 where
  pub memory_members : List (ℕ × List ℕ)

pub record GroupMemberResult : Type 0 where
  pub success : Bool
  pub already_member : Bool
  pub reason : Bytes

unfoldable pub join_group : GroupMemberStore → ℕ → ℕ → GroupMemberStore × GroupMemberResult
unfolding set_insert contains lookup insert
join_group m group_id user_id =
    let members = members_or_empty (lookup group_id m.memory_members) in
    (
      record m { memory_members = insert group_id (set_insert user_id members) m.memory_members },
      record { success = true; already_member = contains user_id members; reason = [] },
    )

abbrev pub not_a_member : GroupMemberResult
not_a_member = record {
  success = false;
  already_member = false;
  reason = codes "not a member of this group";
}

leave_members : GroupMemberStore → ℕ → ℕ → Option (List ℕ) → GroupMemberStore × GroupMemberResult
unfolding contains set_erase erase insert
leave_members m group_id user_id none = (m, not_a_member)
leave_members m group_id user_id (some members) =
    if not (contains user_id members) then (m, not_a_member) else (
      record m { memory_members = drop_member m.memory_members group_id user_id members },
      record { success = true; already_member = false; reason = [] },
    )

unfoldable pub leave_group : GroupMemberStore → ℕ → ℕ → GroupMemberStore × GroupMemberResult
unfolding leave_members lookup
leave_group m group_id user_id = leave_members m group_id user_id (lookup group_id m.memory_members)

unfoldable pub is_group_member : GroupMemberStore → ℕ → ℕ → Bool
unfolding contains lookup
is_group_member m group_id user_id =
    contains user_id (members_or_empty (lookup group_id m.memory_members))

unfoldable pub load_group_members : GroupMemberStore → ℕ → List ℕ
unfolding lookup sort
load_group_members m group_id = sort (members_or_empty (lookup group_id m.memory_members))

-- The groups whose set has the user, in the order of the map.
unfoldable pub groups_of : ℕ → List (ℕ × List ℕ) → List ℕ
unfolding contains
groups_of user_id [] = []
groups_of user_id ((group_id, members) ∷ groups) =
    if contains user_id members
    then group_id ∷ groups_of user_id groups
    else groups_of user_id groups

unfoldable pub load_user_groups : GroupMemberStore → ℕ → List ℕ
unfolding groups_of sort
load_user_groups m user_id = sort (groups_of user_id m.memory_members)
