-- ===== src/Session/Views.antt =====
-- What `bind` and `unbind_connection` do to the sessions that a client of the manager can see.
use cpp_chat.Base.{
  ℕ, ◌≡◌, ◌↔◌, refl, ap, ◌∙◌, Option, none, some, arith, Option-cases, inl, inr, nat_eq, string_eq,
  if◌then◌else◌, ◌==◌, Bytes,
}
use cpp_chat.Base.Maps.{lookup, erase, lookup-insert, lookup-erase}
use cpp_chat.Session.Consistency.{IsConsistent, remove}
use cpp_chat.Session.Methods.{
  forgotten, forgotten-IsConsistent, unbind_connection_missing, unbind_connection-remove,
}
use cpp_chat.Session.{
  Session, SessionManager, bind, unbind_connection, forget_user, forget_connection, store, find,
  find_by_connection, find_by_username, session_of,
}

-- The session, unless it is that of connection `c`.
abbrev pub unless_connection : ℕ → Option Session → Option Session
unless_connection c none = none
unless_connection c (some s) = if s.connection_id == c then none else some s

-- In a consistent manager, a connection leads to the session that `find` gives for some user and
-- that has this connection, and to no other.
pub find_by_connection_iff :
    (m : SessionManager) (c : ℕ) (s : Session)
    → IsConsistent m
    → (find_by_connection m c ≡ some s) ↔ ((find m s.user_id ≡ some s) × (s.connection_id ≡ c))
unfolding find_by_connection find
find_by_connection_iff m c s v = (to, from)
  where
    to :
        session_of m (lookup c m.users_by_connection) ≡ some s
        → (lookup s.user_id m.sessions ≡ some s) × (s.connection_id ≡ c)
    to h = elim (Option-cases (lookup c m.users_by_connection)) [
      | inl e ↦ absurd (ground (arith, e))
      | inr (u, e) ↦ let (t, found, same) = v.connected c u e in ground (arith, v.key u t)
    ]

    from :
        (lookup s.user_id m.sessions ≡ some s) × (s.connection_id ≡ c)
        → session_of m (lookup c m.users_by_connection) ≡ some s
    from (found, same) = ground (arith, v.connection_index s.user_id s)

-- In a consistent manager, a username leads to the session that `find` gives for some user and that
-- has this username, and to no other.
pub find_by_username_iff :
    (m : SessionManager) (n : Bytes) (s : Session)
    → IsConsistent m
    → (find_by_username m n ≡ some s) ↔ ((find m s.user_id ≡ some s) × (s.username ≡ n))
unfolding find_by_username find
find_by_username_iff m n s v = (to, from)
  where
    to :
        session_of m (lookup n m.users_by_username) ≡ some s
        → (lookup s.user_id m.sessions ≡ some s) × (s.username ≡ n)
    to h = elim (Option-cases (lookup n m.users_by_username)) [
      | inl e ↦ absurd (ground (arith, e))
      | inr (u, e) ↦ let (t, found, same) = v.named n u e in ground (arith, v.key u t)
    ]

    from :
        (lookup s.user_id m.sessions ≡ some s) × (s.username ≡ n)
        → session_of m (lookup n m.users_by_username) ≡ some s
    from (found, same) = ground (arith, v.username_index s.user_id s)

-- In a consistent manager, `unbind_connection` ends the session of that connection and leaves all
-- others.
pub find-unbind_connection :
    (m : SessionManager) (c u : ℕ)
    → IsConsistent m
    → find (unbind_connection m c) u ≡ unless_connection c (find m u)
unfolding find
find-unbind_connection m c u v = elim (Option-cases (lookup c m.users_by_connection)) [
  | inl e ↦ rw (unbind_connection_missing m c e) (elim (Option-cases (lookup u m.sessions)) [
    | inl e' ↦ rw e'
    | inr (t, e') ↦ rw e' (ground (arith, v.connection_index u t))
  ])
  | inr (x, e) ↦
      let (s, found, same) = v.connected c x e in
      rw (unbind_connection-remove m c x s e found same) (
        unfold remove in
        elim (Option-cases (lookup u m.sessions)) [
          | inl e' ↦ rw e' (ground (arith, lookup-erase x u m.sessions))
          | inr (t, e') ↦
              rw e' (ground (arith, lookup-erase x u m.sessions, v.connection_index u t))
        ])
]

-- The last two blocks of `bind`, from a state where all but the user's own session is in order.
find-store :
    (m : SessionManager) (s : Session) (u : ℕ) (o : Option ℕ)
    → lookup s.connection_id m.users_by_connection ≡ o
    → IsConsistent (record m { sessions = erase s.user_id m.sessions })
    → lookup u (store (forget_connection m o) s).sessions
      ≡ (if s.user_id == u then some s else unless_connection s.connection_id (lookup u m.sessions))
unfolding forget_connection store
find-store m s u none e v = elim (Option-cases (lookup u m.sessions)) [
  | inl e' ↦ rw e' (ground (arith, lookup-insert s.user_id u s m.sessions))
  | inr (t, e') ↦ rw e' (
      ground (
        arith,
        lookup-insert s.user_id u s m.sessions,
        lookup-erase s.user_id u m.sessions,
        v.connection_index u t,
      ))
]
find-store m s u (some x) e v =
    let (w, there, same) = v.connected s.connection_id x e in
    elim (Option-cases (lookup u m.sessions)) [
      | inl e' ↦ rw e' (
          ground
            (arith, lookup-insert s.user_id u s (erase x m.sessions), lookup-erase x u m.sessions))
      | inr (t, e') ↦ rw e' (
          ground (
            arith,
            lookup-insert s.user_id u s (erase x m.sessions),
            lookup-erase x u m.sessions,
            lookup-erase s.user_id u m.sessions,
            v.connection_index u t,
          ))
    ]

forgotten_sessions :
    (m : SessionManager) (o : Option Session) → (forget_user m o).sessions ≡ m.sessions
unfolding forget_user
forgotten_sessions m none = refl
forgotten_sessions m (some old) = refl

-- In a consistent manager, `bind` stores the session, ends that of the same connection, and leaves
-- all others.
pub find-bind :
    (m : SessionManager) (s : Session) (u : ℕ)
    → IsConsistent m
    → find (bind m s) u
      ≡ (if s.user_id == u then some s else unless_connection s.connection_id (find m u))
unfolding find bind forget_user
find-bind m s u v =
    find-store (forgotten m s) s u _ refl (forgotten-IsConsistent m s v)
    ∙ ap (λ l. if s.user_id == u then some s else unless_connection s.connection_id (lookup u l))
        (forgotten_sessions m (lookup s.user_id m.sessions))
