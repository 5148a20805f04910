-- ===== src/Session.antt =====
-- src/session/session_manager.cpp, include/cpp_chat/session/session_manager.h and session.h.
-- Each method holds the mutex for its whole body, so it is one function of the state. The hash
-- maps and sets are association lists and lists; nothing here reads their order.
pub mod Consistency
pub mod Methods
pub mod Views
pub mod Groups
use cpp_chat.Base.{
  ℕ, Bool, true, false, List, [], ◌∷◌, Option, none, some, if◌then◌else◌, ◌==◌, Bytes, is_some,
  is_empty, nat_eq, string_eq,
}
use cpp_chat.Base.Maps.{lookup, insert, erase}
use cpp_chat.Base.Sets.{contains, set_insert, set_erase, members_or_empty}

pub record Session : Type 0 where
  pub user_id : ℕ
  pub connection_id : ℕ
  pub username : Bytes

pub record SessionManager : Type 0 where
  pub sessions : List (ℕ × Session)
  pub users_by_connection : List (ℕ × ℕ)
  pub users_by_username : List (Bytes × ℕ)
  pub group_members : List (ℕ × List ℕ)

abbrev pub empty : SessionManager
empty = record {
  sessions = [];
  users_by_connection = [];
  users_by_username = [];
  group_members = [];
}

-- The block on `existing_user`.
forget_user : SessionManager → Option Session → SessionManager
forget_user m none = m
forget_user m (some old) = record m {
  users_by_connection = erase old.connection_id m.users_by_connection;
  users_by_username = erase old.username m.users_by_username;
}

-- `users_by_username_.erase(old->second.username)`, if there is such a session.
forget_username : List (Bytes × ℕ) → Option Session → List (Bytes × ℕ)
forget_username names none = names
forget_username names (some old) = erase old.username names

-- The block on `existing_connection`.
forget_connection : SessionManager → Option ℕ → SessionManager
forget_connection m none = m
forget_connection m (some user) = record m {
  users_by_username = forget_username m.users_by_username (lookup user m.sessions);
  sessions = erase user m.sessions;
}

-- The three assignments that end `bind`.
pub store : SessionManager → Session → SessionManager
store m s = record m {
  users_by_connection = insert s.connection_id s.user_id m.users_by_connection;
  users_by_username = insert s.username s.user_id m.users_by_username;
  sessions = insert s.user_id s m.sessions;
}

unfoldable pub bind : SessionManager → Session → SessionManager
unfolding forget_user forget_username forget_connection store lookup insert erase
bind m s =
    let m' = forget_user m (lookup s.user_id m.sessions) in
    store (forget_connection m' (lookup s.connection_id m'.users_by_connection)) s

unfoldable pub unbind : SessionManager → ℕ → SessionManager
unfolding forget_user lookup erase
unbind m user =
    let m' = forget_user m (lookup user m.sessions) in
    record m' { sessions = erase user m'.sessions }

unbind_user : SessionManager → ℕ → Option ℕ → SessionManager
unbind_user m connection none = m
unbind_user m connection (some user) = record m {
  users_by_username = forget_username m.users_by_username (lookup user m.sessions);
  sessions = erase user m.sessions;
  users_by_connection = erase connection m.users_by_connection;
}

unfoldable pub unbind_connection : SessionManager → ℕ → SessionManager
unfolding unbind_user forget_username lookup erase
unbind_connection m connection = unbind_user m connection (lookup connection m.users_by_connection)

unfoldable pub find : SessionManager → ℕ → Option Session
unfolding lookup
find m user = lookup user m.sessions

-- The session of the user that an index gave.
session_of : SessionManager → Option ℕ → Option Session
session_of m none = none
session_of m (some user) = lookup user m.sessions

unfoldable pub find_by_connection : SessionManager → ℕ → Option Session
unfolding session_of lookup
find_by_connection m connection = session_of m (lookup connection m.users_by_connection)

unfoldable pub find_by_username : SessionManager → Bytes → Option Session
unfolding session_of lookup
find_by_username m username = session_of m (lookup username m.users_by_username)

unfoldable pub is_username_online : SessionManager → Bytes → Bool
unfolding find_by_username
is_username_online m username = is_some (find_by_username m username)

unfoldable pub join_group : SessionManager → ℕ → ℕ → SessionManager
unfolding set_insert lookup insert
join_group m group user =
    let members = members_or_empty (lookup group m.group_members) in
    record m { group_members = insert group (set_insert user members) m.group_members }

leave_members : SessionManager → ℕ → ℕ → Option (List ℕ) → SessionManager
leave_members m group user none = m
leave_members m group user (some members) =
    let rest = set_erase user members in
    record m {
      group_members =
          if is_empty rest then erase group m.group_members else insert group rest m.group_members;
    }

unfoldable pub leave_group : SessionManager → ℕ → ℕ → SessionManager
unfolding leave_members set_erase lookup insert erase
leave_group m group user = leave_members m group user (lookup group m.group_members)

unfoldable pub get_group_members : SessionManager → ℕ → List ℕ
unfolding lookup
get_group_members m group = members_or_empty (lookup group m.group_members)

unfoldable pub is_group_member : SessionManager → ℕ → ℕ → Bool
unfolding contains lookup
is_group_member m group user = contains user (members_or_empty (lookup group m.group_members))
