-- ===== src/Storage/Groups.antt =====
-- src/storage/group_store.cpp and include/cpp_chat/storage/group_store.h: the groups kept in memory.
pub mod Pooled
use cpp_chat.Base.{
  ℕ, ◌+◌, ◌%◌, ◌^◌, ◌<◌, ◌≡◌, ◌≢◌, refl, arith, Bool, true, false, List, [], ◌∷◌, Option, none,
  some, Bytes, codes, if◌then◌else◌, is_empty, is_some, ◌==◌, nat_eq,
}
use cpp_chat.Base.Maps.{lookup, insert, lookup-insert}

pub record GroupRecord : Type 0 where
  pub id : ℕ
  pub name : Bytes
  pub owner_id : ℕ
  pub created_at : Bytes

abbrev pub no_group : GroupRecord
no_group = record { id = 0; name = []; owner_id = 0; created_at = [] }

pub record CreateGroupResult : Type 0 where
  pub success : Bool
  pub group : GroupRecord
  pub reason : Bytes

-- The private fields, without the pool.
pub record GroupStore : Type 0 where
  pub memory_groups : List (ℕ × GroupRecord)
  pub next_group_id : ℕ

unfoldable pub create_group : GroupStore → Bytes → ℕ → GroupStore × CreateGroupResult
unfolding insert
create_group m name owner_id =
    let group : GroupRecord = record {
      id = m.next_group_id;
      name = name;
      owner_id = owner_id;
      created_at = [];
    } in
    if is_empty name
    then (m, record { success = false; group = no_group; reason = codes "group name is required" })
    else (
      record {
        memory_groups = insert group.id group m.memory_groups;
        next_group_id = (m.next_group_id + 1) % 2 ^ 64;
      },
      record { success = true; group = group; reason = [] },
    )

unfoldable pub find_group : GroupStore → ℕ → Option GroupRecord
unfolding lookup
find_group m group_id = lookup group_id m.memory_groups

unfoldable pub group_exists : GroupStore → ℕ → Bool
unfolding find_group
group_exists m group_id = is_some (find_group m group_id)

-- Every id that was given out is below the next one.
abbrev pub IsFresh : GroupStore → Type 0
unfolding find_group
IsFresh m = (g : ℕ) → is_some (find_group m g) ≡ true → g < m.next_group_id

-- If all ids are below the next one and the next but one has 64 bits, a group with a name that is
-- not empty gets an id that no group had, it can be found under it, all other groups stay, and the
-- ids are below the new next one.
pub create_group_lem :
    (m : GroupStore) (name : Bytes) (owner_id h : ℕ)
    → name ≢ []
    → IsFresh m
    → m.next_group_id + 1 < 2 ^ 64
    → let (m', result) = create_group m name owner_id in
      (result.success ≡ true)
      × (result.group.name ≡ name)
      × (find_group m result.group.id ≡ none)
      × (find_group m' h ≡ (if result.group.id == h then some result.group else find_group m h))
      × IsFresh m'
unfolding create_group find_group
create_group_lem m [] owner_id h named fresh room = absurd (named refl)
create_group_lem m (x ∷ name) owner_id h named fresh room =
    let group = (create_group m (x ∷ name) owner_id).1.group in
    let next : (m.next_group_id + 1) % 2 ^ 64 ≡ m.next_group_id + 1 = omega arith in
    (
      refl,
      refl,
      ground (arith, fresh m.next_group_id),
      lookup-insert m.next_group_id h group m.memory_groups,
      λ g found.
          ground (arith, fresh g, next, lookup-insert m.next_group_id g group m.memory_groups),
    )
