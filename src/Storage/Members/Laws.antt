-- ===== src/Storage/Members/Laws.antt =====
-- What the methods of `GroupMemberStore` do to membership.
use cpp_chat.Base.{
  ℕ, ◌≡◌, refl, true, false, ◌&&◌, List, [], ◌∷◌, arith, Option-cases, Bool-cases, inl, inr,
  if◌then◌else◌, ◌==◌, nat_eq, is_some,
}
use cpp_chat.Base.Maps.{lookup, IsMap, insert-IsMap, erase-IsMap}
use cpp_chat.Base.Sets.{
  contains, set_erase, members_or_empty, in_group-insert, in_group-drop_member,
}
use cpp_chat.Base.Sorting.{IsSorted, sort-IsSorted, contains-sort}
use cpp_chat.Storage.Members.{
  GroupMemberStore, join_group, leave_group, leave_members, is_group_member, load_group_members,
  load_user_groups, groups_of,
}

-- After `join_group` the user is in the group, and all other memberships are as before. It never
-- fails, and says whether the user was a member already.
pub join_group_lem :
    (m : GroupMemberStore) (g h u w : ℕ)
    → let (m', result) = join_group m g u in
      (is_group_member m' h w ≡ (if g == h && u == w then true else is_group_member m h w))
      × (result.success ≡ true)
      × (result.already_member ≡ is_group_member m g u)
unfolding is_group_member join_group
join_group_lem m g h u w = (in_group-insert m.memory_members g h u w, refl, refl)

-- After `leave_group` the user is not in the group, and all other memberships are as before. It
-- succeeds for members, and only for them.
pub leave_group_lem :
    (m : GroupMemberStore) (g h u w : ℕ)
    → let (m', result) = leave_group m g u in
      (is_group_member m' h w ≡ (if g == h && u == w then false else is_group_member m h w))
      × (result.success ≡ is_group_member m g u)
unfolding is_group_member leave_group
leave_group_lem m g h u w = elim (Option-cases (lookup g m.memory_members)) [
  | inl e ↦ rw (e, leave_members) (unfold contains in ground (arith, e))
  | inr (members, e) ↦ elim (Bool-cases (contains u members)) [
    | inl k ↦
        rw (e, leave_members) (rw k (in_group-drop_member m.memory_members g h u w members e, refl))
    | inr k ↦ rw (e, leave_members) (rw k (ground (arith, e, k)))
  ]
]

-- `load_group_members` lists the members of the group, in ascending order.
pub load_group_members_lem :
    (m : GroupMemberStore) (g w : ℕ)
    → IsSorted (load_group_members m g)
      × (contains w (load_group_members m g) ≡ is_group_member m g w)
unfolding load_group_members is_group_member
load_group_members_lem m g w =
    let members = members_or_empty (lookup g m.memory_members) in
    (sort-IsSorted members, contains-sort w members)

-- Each group has one set of members.
abbrev pub IsWellFormed : GroupMemberStore → Type 0
IsWellFormed m = IsMap m.memory_members

pub join_group-IsWellFormed :
    (m : GroupMemberStore) (g u : ℕ) → IsWellFormed m → IsWellFormed (join_group m g u).0
unfolding join_group
join_group-IsWellFormed m g u h = insert-IsMap g _ m.memory_members h

pub leave_group-IsWellFormed :
    (m : GroupMemberStore) (g u : ℕ) → IsWellFormed m → IsWellFormed (leave_group m g u).0
unfolding leave_group leave_members
leave_group-IsWellFormed m g u h = elim (Option-cases (lookup g m.memory_members)) [
  | inl e ↦ rw (e, leave_members) h
  | inr (members, e) ↦
      rw (e, leave_members)
        (ground (
          arith,
          insert-IsMap g (set_erase u members) m.memory_members h,
          erase-IsMap g m.memory_members h,
        ))
]

groups_of_missing :
    (u g : ℕ) (groups : List (ℕ × List ℕ))
    → is_some (lookup g groups) ≡ false
    → contains g (groups_of u groups) ≡ false
unfolding groups_of contains lookup
groups_of_missing u g [] h = refl
groups_of_missing u g ((k, members) ∷ groups) h = ground (arith, groups_of_missing u g groups)

contains-groups_of :
    (u g : ℕ) (groups : List (ℕ × List ℕ))
    → IsMap groups
    → contains g (groups_of u groups) ≡ contains u (members_or_empty (lookup g groups))
unfolding groups_of contains lookup
contains-groups_of u g [] h = refl
contains-groups_of u g ((k, members) ∷ groups) h =
    ground (arith, contains-groups_of u g groups, groups_of_missing u k groups)

-- In a well-formed store, `load_user_groups` lists the groups that the user is in, in ascending
-- order.
pub load_user_groups_lem :
    (m : GroupMemberStore) (u g : ℕ)
    → IsWellFormed m
    → IsSorted (load_user_groups m u) × (contains g (load_user_groups m u) ≡ is_group_member m g u)
unfolding load_user_groups is_group_member
load_user_groups_lem m u g h = (
  sort-IsSorted (groups_of u m.memory_members),
  ground (
    arith,
    contains-sort g (groups_of u m.memory_members),
    contains-groups_of u g m.memory_members h,
  ),
)
