-- ===== src/Storage/Closing/Groups.antt =====
-- Each operation of `GroupStore` and of `GroupMemberStore` closes the statements that it makes.
use cpp_chat.Base.{ℕ, refl, [], ◌∷◌, Bytes}
use cpp_chat.Storage.Statements.{Server, Client, Access, in_memory, unavailable, available}
use cpp_chat.Storage.Groups.{GroupStore}
use cpp_chat.Storage.Groups.Pooled.{
  create_named, create_group_pooled, find_group_pooled, group_exists_pooled,
}
use cpp_chat.Storage.Members.{GroupMemberStore}
use cpp_chat.Storage.Members.Pooled.{
  join_group_pooled, leave_group_pooled, is_group_member_pooled, load_group_members_pooled,
  load_user_groups_pooled,
}
use cpp_chat.Storage.Closing.{
  Keeps, run_statement-IsRun, select-Keeps, change-Keeps, after_create-Keeps,
}

module _ {D : Type 0} (server : Server D) where
  create_named-Keeps :
      (access : Access) (m : GroupStore) (c : Client D) (name : Bytes) (owner_id : ℕ)
      → Keeps c (create_named server access m c name owner_id).1.0
  unfolding create_named
  create_named-Keeps in_memory m c name owner_id = refl
  create_named-Keeps unavailable m c name owner_id = refl
  create_named-Keeps available m c name owner_id =
      after_create-Keeps server c name owner_id _ (run_statement-IsRun server _ _ c)

  pub create_group-Keeps :
      (access : Access) (m : GroupStore) (c : Client D) (name : Bytes) (owner_id : ℕ)
      → Keeps c (create_group_pooled server access m c name owner_id).1.0
  unfolding create_group_pooled
  create_group-Keeps access m c [] owner_id = refl
  create_group-Keeps access m c (x ∷ name) owner_id =
      create_named-Keeps access m c (x ∷ name) owner_id

  pub find_group-Keeps :
      (access : Access) (m : GroupStore) (c : Client D) (group_id : ℕ)
      → Keeps c (find_group_pooled server access m c group_id).0
  unfolding find_group_pooled
  find_group-Keeps in_memory m c group_id = refl
  find_group-Keeps unavailable m c group_id = refl
  find_group-Keeps available m c group_id = select-Keeps server _ _ c

  pub group_exists-Keeps :
      (access : Access) (m : GroupStore) (c : Client D) (group_id : ℕ)
      → Keeps c (group_exists_pooled server access m c group_id).0
  unfolding group_exists_pooled
  group_exists-Keeps access m c group_id = find_group-Keeps access m c group_id

  pub join_group-Keeps :
      (access : Access) (m : GroupMemberStore) (c : Client D) (group_id user_id : ℕ)
      → Keeps c (join_group_pooled server access m c group_id user_id).1.0
  unfolding join_group_pooled
  join_group-Keeps in_memory m c group_id user_id = refl
  join_group-Keeps unavailable m c group_id user_id = refl
  join_group-Keeps available m c group_id user_id = change-Keeps server _ _ c

  pub leave_group-Keeps :
      (access : Access) (m : GroupMemberStore) (c : Client D) (group_id user_id : ℕ)
      → Keeps c (leave_group_pooled server access m c group_id user_id).1.0
  unfolding leave_group_pooled
  leave_group-Keeps in_memory m c group_id user_id = refl
  leave_group-Keeps unavailable m c group_id user_id = refl
  leave_group-Keeps available m c group_id user_id = change-Keeps server _ _ c

  pub is_group_member-Keeps :
      (access : Access) (m : GroupMemberStore) (c : Client D) (group_id user_id : ℕ)
      → Keeps c (is_group_member_pooled server access m c group_id user_id).0
  unfolding is_group_member_pooled
  is_group_member-Keeps in_memory m c group_id user_id = refl
  is_group_member-Keeps unavailable m c group_id user_id = refl
  is_group_member-Keeps available m c group_id user_id = select-Keeps server _ _ c

  pub load_group_members-Keeps :
      (access : Access) (m : GroupMemberStore) (c : Client D) (group_id : ℕ)
      → Keeps c (load_group_members_pooled server access m c group_id).0
  unfolding load_group_members_pooled
  load_group_members-Keeps in_memory m c group_id = refl
  load_group_members-Keeps unavailable m c group_id = refl
  load_group_members-Keeps available m c group_id = select-Keeps server _ _ c

  pub load_user_groups-Keeps :
      (access : Access) (m : GroupMemberStore) (c : Client D) (user_id : ℕ)
      → Keeps c (load_user_groups_pooled server access m c user_id).0
  unfolding load_user_groups_pooled
  load_user_groups-Keeps in_memory m c user_id = refl
  load_user_groups-Keeps unavailable m c user_id = refl
  load_user_groups-Keeps available m c user_id = select-Keeps server _ _ c
