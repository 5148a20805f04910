-- ===== src/Session/Methods.antt =====
-- `bind`, `unbind` and `unbind_connection` keep the three indices in agreement.
use cpp_chat.Base.{
  ℕ, ◌≡◌, refl, ap, subst, Option, none, some, List, false, arith, Option-cases, inl, inr, nat_eq,
  string_eq,
}
use cpp_chat.Base.Maps.{lookup, erase, lookup-erase, erase_missing, erase_comm, erase-eq-some}
use cpp_chat.Session.Consistency.{IsConsistent, remove, remove-IsConsistent, store-IsConsistent}
use cpp_chat.Session.{
  Session, SessionManager, join_group, leave_group, leave_members, is_username_online,
  find_by_username, session_of, bind, unbind, unbind_connection, forget_user, forget_connection,
  forget_username, store, unbind_user,
}

-- Signing a user off removes that user's session, or changes nothing.
unbind_missing : (m : SessionManager) (u : ℕ) → lookup u m.sessions ≡ none → unbind m u ≡ m
unfolding unbind
unbind_missing m u e =
    rw (e, forget_user) (ap (λ t. record m { sessions = t }) (erase_missing u m.sessions e))

unbind-remove :
    (m : SessionManager) (u : ℕ) (s : Session)
    → lookup u m.sessions ≡ some s
    → unbind m u ≡ remove m u s
unfolding unbind remove
unbind-remove m u s e = rw (e, forget_user)

-- Signing a user off keeps the indices in agreement.
pub unbind-IsConsistent : (m : SessionManager) (u : ℕ) → IsConsistent m → IsConsistent (unbind m u)
unbind-IsConsistent m u v = elim (Option-cases (lookup u m.sessions)) [
  | inl e ↦ rw (unbind_missing m u e) v
  | inr (s, e) ↦ rw (unbind-remove m u s e) (remove-IsConsistent m u s v e)
]

pub unbind_connection_missing :
    (m : SessionManager) (c : ℕ) → lookup c m.users_by_connection ≡ none → unbind_connection m c ≡ m
unfolding unbind_connection
unbind_connection_missing m c e = rw (e, unbind_user)

pub unbind_connection-remove :
    (m : SessionManager) (c u : ℕ) (s : Session)
    → lookup c m.users_by_connection ≡ some u
    → lookup u m.sessions ≡ some s
    → s.connection_id ≡ c
    → unbind_connection m c ≡ remove m u s
unfolding unbind_connection remove
unbind_connection-remove m c u s e f g = rw (e, unbind_user) (rw (f, forget_username) (rw g))

-- Signing a connection off keeps the indices in agreement.
pub unbind_connection-IsConsistent :
    (m : SessionManager) (c : ℕ) → IsConsistent m → IsConsistent (unbind_connection m c)
unbind_connection-IsConsistent m c v = elim (Option-cases (lookup c m.users_by_connection)) [
  | inl e ↦ rw (unbind_connection_missing m c e) v
  | inr (u, e) ↦
      let (s, found, same) = v.connected c u e in
      rw (unbind_connection-remove m c u s e found same) (remove-IsConsistent m u s v found)
]

-- No user but the session's own holds its username.
abbrev pub IsNameFree : SessionManager → Session → Type 0
IsNameFree m s = (u : ℕ) → lookup s.username m.users_by_username ≡ some u → u ≡ s.user_id

-- The state after the block on `existing_user`, with the session that is about to be replaced.
abbrev pub forgotten : SessionManager → Session → SessionManager
unfolding forget_user
forgotten m s = forget_user m (lookup s.user_id m.sessions)

-- Without that session it is consistent.
pub forgotten-IsConsistent :
    (m : SessionManager) (s : Session)
    → IsConsistent m
    → IsConsistent (record (forgotten m s) { sessions = erase s.user_id (forgotten m s).sessions })
unfolding forget_user
forgotten-IsConsistent m s v = elim (Option-cases (lookup s.user_id m.sessions)) [
  | inl e ↦ rw (e, forget_user) (rw (erase_missing s.user_id m.sessions e) v)
  | inr (old, e) ↦ rw (e, forget_user) (unfold remove in remove-IsConsistent m s.user_id old v e)
]

-- The username is free in it.
forgotten_free :
    (m : SessionManager) (s : Session)
    → IsConsistent m
    → IsNameFree m s
    → lookup s.username (forgotten m s).users_by_username ≡ none
unfolding forget_user
forgotten_free m s v free =
    elim (Option-cases (lookup s.username (forgotten m s).users_by_username)) [
      | inl e ↦ e
      | inr (u, held) ↦ absurd (elim (Option-cases (lookup s.user_id m.sessions)) [
        | inl e ↦
            let held' : lookup s.username m.users_by_username ≡ some u =
              rw (e, forget_user) at held in
            let (t, found, same) = v.named s.username u held' in ground (arith, free u held')
        | inr (old, e) ↦
            let there : lookup s.username (erase old.username m.users_by_username) ≡ some u =
              rw (e, forget_user) at held in
            let (apart, held') =
              erase-eq-some old.username s.username u m.users_by_username there in
            let (t, found, same) = v.named s.username u held' in ground (arith, free u held')
      ])
    ]

forget_connection-IsConsistent :
    (m : SessionManager) (s : Session) (o : Option ℕ)
    → lookup s.connection_id m.users_by_connection ≡ o
    → IsConsistent (record m { sessions = erase s.user_id m.sessions })
    → lookup s.username m.users_by_username ≡ none
    → IsConsistent (store (forget_connection m o) s)
unfolding forget_connection forget_username
forget_connection-IsConsistent m s none e v free =
    store-IsConsistent m s (rw (erase_missing s.connection_id m.users_by_connection e) v) free
forget_connection-IsConsistent m s (some u) e v free =
    let (t, there, same) = v.connected s.connection_id u e in
    let (apart, found) = erase-eq-some s.user_id u t m.sessions there in
    rw found (
      store-IsConsistent _ s
        (rw (erase_comm s.user_id u m.sessions) (
          subst
            (λ c. IsConsistent (record m {
              sessions = erase u (erase s.user_id m.sessions);
              users_by_connection = erase c m.users_by_connection;
              users_by_username = erase t.username m.users_by_username;
            }))
            same (unfold remove in remove-IsConsistent _ u t v there)))
        (ground (arith, lookup-erase t.username s.username m.users_by_username, free)))

-- Binding a session whose username no other user holds keeps the indices in agreement.
pub bind-IsConsistent :
    (m : SessionManager) (s : Session) → IsConsistent m → IsNameFree m s → IsConsistent (bind m s)
unfolding bind forget_user
bind-IsConsistent m s v free =
    forget_connection-IsConsistent (forgotten m s) s _ refl (forgotten-IsConsistent m s v)
      (forgotten_free m s v free)

-- The group sets are no part of the indices.
groups_free :
    (m : SessionManager) (groups : List (ℕ × List ℕ))
    → IsConsistent m
    → IsConsistent (record m { group_members = groups })
groups_free m groups v = record {
  key = v.key;
  connection_index = v.connection_index;
  username_index = v.username_index;
  connected = v.connected;
  named = v.named;
}

pub join_group-IsConsistent :
    (m : SessionManager) (g u : ℕ) → IsConsistent m → IsConsistent (join_group m g u)
unfolding join_group
join_group-IsConsistent m g u v = groups_free m _ v

pub leave_group-IsConsistent :
    (m : SessionManager) (g u : ℕ) → IsConsistent m → IsConsistent (leave_group m g u)
unfolding leave_group
leave_group-IsConsistent m g u v = elim (Option-cases (lookup g m.group_members)) [
  | inl e ↦ rw (e, leave_members) v
  | inr (members, e) ↦ rw (e, leave_members) (groups_free m _ v)
]

-- A name that is not online is free.
pub offline-IsNameFree :
    (m : SessionManager) (s : Session)
    → IsConsistent m
    → is_username_online m s.username ≡ false
    → IsNameFree m s
unfolding is_username_online find_by_username session_of
offline-IsNameFree m s v offline u held =
    let (t, found, same) = v.named s.username u held in
    absurd (ground (arith, held, found, offline))
