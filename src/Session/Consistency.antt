-- ===== src/Session/Consistency.antt =====
-- The three indices of `SessionManager` describe one set of sessions, in which a user has one
-- connection, and a connection and a username have one user.
use cpp_chat.Base.{ℕ, ◌≡◌, ◌∙◌, Bytes, none, some, arith, bytes_eq_iff, inl, inr, nat_eq, string_eq}
use cpp_chat.Base.Maps.{
  lookup, erase, lookup-insert, lookup-erase, erase-eq-some, insert-eq-some, insert_other,
  insert_self, erase_other,
}
use cpp_chat.Session.{Session, SessionManager, empty, store}

pub record IsConsistent (m : SessionManager) : Type 0 where
  pub key : (u : ℕ) (s : Session) → lookup u m.sessions ≡ some s → s.user_id ≡ u
  pub connection_index :
      (u : ℕ) (s : Session)
      → lookup u m.sessions ≡ some s
      → lookup s.connection_id m.users_by_connection ≡ some u
  pub username_index :
      (u : ℕ) (s : Session)
      → lookup u m.sessions ≡ some s
      → lookup s.username m.users_by_username ≡ some u
  pub connected :
      (c u : ℕ)
      → lookup c m.users_by_connection ≡ some u
      → (s : Session) × (lookup u m.sessions ≡ some s) × (s.connection_id ≡ c)
  pub named :
      (n : Bytes) (u : ℕ)
      → lookup n m.users_by_username ≡ some u
      → (s : Session) × (lookup u m.sessions ≡ some s) × (s.username ≡ n)

pub empty-IsConsistent : IsConsistent empty
unfolding lookup
empty-IsConsistent = record {
  key = λ u s h. cc;
  connection_index = λ u s h. cc;
  username_index = λ u s h. cc;
  connected = λ c u h. absurd (cc);
  named = λ n u h. absurd (cc);
}

-- A user's session taken out of all three indices.
unfoldable pub remove : SessionManager → ℕ → Session → SessionManager
remove m u s = record m {
  sessions = erase u m.sessions;
  users_by_connection = erase s.connection_id m.users_by_connection;
  users_by_username = erase s.username m.users_by_username;
}

pub remove-IsConsistent :
    (m : SessionManager) (u : ℕ) (s : Session)
    → IsConsistent m
    → lookup u m.sessions ≡ some s
    → IsConsistent (remove m u s)
unfolding remove
remove-IsConsistent m u s v h = record {
  key = λ x t e. ground (arith, lookup-erase u x m.sessions, v.key x t);
  connection_index = λ x t e. ground (
    arith,
    lookup-erase u x m.sessions,
    lookup-erase s.connection_id t.connection_id m.users_by_connection,
    v.connection_index x t,
    v.connection_index u s,
  );
  username_index = λ x t e. ground (
    arith,
    lookup-erase u x m.sessions,
    lookup-erase s.username t.username m.users_by_username,
    bytes_eq_iff s.username t.username,
    v.username_index x t,
    v.username_index u s,
  );
  connected = λ c x e.
      let (apart, e') = erase-eq-some s.connection_id c x m.users_by_connection e in
      let (t, found, same) = v.connected c x e' in
      (t, ground (arith, lookup-erase u x m.sessions), same);
  named = λ n x e.
      let (apart, e') = erase-eq-some s.username n x m.users_by_username e in
      let (t, found, same) = v.named n x e' in
      (t, ground (arith, lookup-erase u x m.sessions), same);
}

-- A session is stored over what is left of its user's and its connection's former ones.
pub store-IsConsistent :
    (m : SessionManager) (s : Session)
    → IsConsistent (record m {
      sessions = erase s.user_id m.sessions;
      users_by_connection = erase s.connection_id m.users_by_connection;
    })
    → lookup s.username m.users_by_username ≡ none
    → IsConsistent (store m s)
unfolding store
store-IsConsistent m s v free = record {
  key = λ x t e. elim (insert-eq-some s.user_id x s t m.sessions e) [
    | inl (same, found) ↦ cc
    | inr (apart, found) ↦ v.key x t (rw (erase_other s.user_id x m.sessions apart) found)
  ];
  connection_index = λ x t e. elim (insert-eq-some s.user_id x s t m.sessions e) [
    | inl (same, found) ↦
        ground (arith, insert_self s.connection_id s.user_id m.users_by_connection)
    | inr (apart, found) ↦ ground (
      arith,
      v.connection_index x t,
      erase_other s.user_id x m.sessions,
      lookup-erase s.connection_id t.connection_id m.users_by_connection,
      lookup-insert s.connection_id t.connection_id s.user_id m.users_by_connection,
    )
  ];
  username_index = λ x t e. elim (insert-eq-some s.user_id x s t m.sessions e) [
    | inl (same, found) ↦ ground (arith, insert_self s.username s.user_id m.users_by_username)
    | inr (apart, found) ↦ ground (
      arith,
      v.username_index x t,
      erase_other s.user_id x m.sessions,
      bytes_eq_iff s.username t.username,
      lookup-insert s.username t.username s.user_id m.users_by_username,
    )
  ];
  connected = λ c x e. elim (insert-eq-some s.connection_id c s.user_id x m.users_by_connection e) [
    | inl (same, found) ↦ (s, ground (arith, insert_self s.user_id s m.sessions), same)
    | inr (apart, found) ↦
        let (t, there, same) =
          v.connected c x (rw (erase_other s.connection_id c m.users_by_connection apart) found) in
        let (other, there') = erase-eq-some s.user_id x t m.sessions there in
        (t, insert_other s.user_id x s m.sessions other ∙ there', same)
  ];
  named = λ n x e. elim (insert-eq-some s.username n s.user_id x m.users_by_username e) [
    | inl (same, found) ↦ (s, ground (arith, insert_self s.user_id s m.sessions), same)
    | inr (apart, found) ↦
        let (t, there, same) = v.named n x found in
        let (other, there') = erase-eq-some s.user_id x t m.sessions there in
        (t, insert_other s.user_id x s m.sessions other ∙ there', same)
  ];
}
