-- ===== src/Session/Groups.antt =====
-- The group sets of `SessionManager`: `join_group` and `leave_group` as seen by `is_group_member`.
use cpp_chat.Base.{
  ℕ, ◌≡◌, true, false, ◌&&◌, arith, Option-cases, inl, inr, if◌then◌else◌, ◌==◌, nat_eq,
}
use cpp_chat.Base.Maps.{lookup}
use cpp_chat.Base.Sets.{contains, in_group-insert, in_group-drop_member}
use cpp_chat.Session.{SessionManager, join_group, leave_group, leave_members, is_group_member}

-- Joining adds one member to one group and changes no other membership.
pub is_group_member-join_group :
    (m : SessionManager) (g h u w : ℕ)
    → is_group_member (join_group m g u) h w
      ≡ (if g == h && u == w then true else is_group_member m h w)
unfolding is_group_member join_group
is_group_member-join_group m g h u w = in_group-insert m.group_members g h u w

-- Leaving takes one member out of one group and changes no other membership.
pub is_group_member-leave_group :
    (m : SessionManager) (g h u w : ℕ)
    → is_group_member (leave_group m g u) h w
      ≡ (if g == h && u == w then false else is_group_member m h w)
unfolding is_group_member leave_group
is_group_member-leave_group m g h u w = elim (Option-cases (lookup g m.group_members)) [
  | inl e ↦ rw (e, leave_members) (unfold contains in ground (arith, e))
  | inr (members, e) ↦
      rw (e, leave_members) (in_group-drop_member m.group_members g h u w members e)
]
