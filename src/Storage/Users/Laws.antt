-- ===== src/Storage/Users/Laws.antt =====
-- The two maps of `UserStore` agree, and a user who has registered can log in.
use cpp_chat.Base.{
  ℕ, ◌+◌, ◌%◌, ◌^◌, ◌<◌, ◌≡◌, ◌≢◌, ◌↔◌, subst, ap, ◌∙◌, true, false, Option, some, [], arith, Bytes,
  is_some, nat_eq, string_eq, Option-cases, inl, inr,
}
use cpp_chat.Base.Maps.{lookup, insert, insert-eq-some, insert_self, insert_other}
use cpp_chat.Storage.Users.Password.{pbkdf2_iterations, hash_password_pbkdf2}
use cpp_chat.Storage.Users.Password.Verify.{AreBytes, verify_password_pbkdf2_iff}
use cpp_chat.Storage.Users.{
  UserRecord, UserStore, find_user_by_username, find_user_by_id, user_named, add_user,
  register_user, verify_login, accepted,
}

-- The record of a name has that name and an id that leads back to it, and ids are below the next.
pub record IsConsistent (m : UserStore) : Type 0 where
  pub named :
      (n : Bytes) (r : UserRecord)
      → lookup n m.users_by_username ≡ some r
      → (r.username ≡ n) × (lookup r.id m.usernames_by_id ≡ some n)
  pub numbered :
      (i : ℕ) (n : Bytes)
      → lookup i m.usernames_by_id ≡ some n
      → (i < m.next_memory_id)
        × ((r : UserRecord) × (lookup n m.users_by_username ≡ some r) × (r.id ≡ i))

add_user-IsConsistent :
    (m : UserStore) (n hash : Bytes)
    → IsConsistent m
    → m.next_memory_id + 1 < 2 ^ 64
    → is_some (lookup n m.users_by_username) ≡ false
    → IsConsistent (add_user m n hash)
unfolding add_user
add_user-IsConsistent m n hash v room new =
    let user : UserRecord = record { id = m.next_memory_id; username = n; password_hash = hash } in
    let next : (m.next_memory_id + 1) % 2 ^ 64 ≡ m.next_memory_id + 1 = omega arith in
    record {
      named = λ k r found. elim (insert-eq-some n k user r m.users_by_username found) [
        | inl (same, is) ↦
            let owner : n ≡ r.username = ap (λ u. u.username) is in
            let number : m.next_memory_id ≡ r.id = ap (λ u. u.id) is in
            (cc, subst2 same number (insert_self m.next_memory_id n m.usernames_by_id))
        | inr (apart, old) ↦
            let (name, back) = v.named k r old in
            let (below, rest) = v.numbered r.id k back in
            (name, insert_other m.next_memory_id r.id n m.usernames_by_id (omega arith) ∙ back)
      ];
      numbered = λ i k found. elim (insert-eq-some m.next_memory_id i n k m.usernames_by_id found) [
        | inl (same, is) ↦ (
          omega arith,
          (
            user,
            subst (λ x. lookup x (insert n user m.users_by_username) ≡ some user) is
                (insert_self n user m.users_by_username),
            same,
          ),
        )
        | inr (apart, old) ↦
            let (below, (r, there, number)) = v.numbered i k old in
            (
              omega arith,
              (
                r,
                insert_other n k user m.users_by_username
                      (λ same. ground (arith, ap (λ x. lookup x m.users_by_username) same))
                    ∙ there,
                number,
              ),
            )
      ];
    }
  where
    subst2 :
        {k : Bytes} {i : ℕ}
        → n ≡ k
        → m.next_memory_id ≡ i
        → lookup m.next_memory_id (insert m.next_memory_id n m.usernames_by_id) ≡ some n
        → lookup i (insert m.next_memory_id n m.usernames_by_id) ≡ some k
    subst2 e e' h = cc

-- Registering keeps the two maps in agreement, whatever it answers, as long as the ids have 64 bits.
pub register_user-IsConsistent :
    (pbkdf2 : Bytes → ℕ → Bytes → Option Bytes) (m : UserStore) (salt : Option Bytes)
    (username password : Bytes)
    → IsConsistent m
    → m.next_memory_id + 1 < 2 ^ 64
    → IsConsistent (register_user pbkdf2 m salt username password).0
unfolding register_user
register_user-IsConsistent pbkdf2 m salt username password v room =
    ground
      (arith, add_user-IsConsistent m username (hash_password_pbkdf2 pbkdf2 salt password) v room)

-- In such a store, a lookup by id gives the user of that id that the lookup by name gives, and no
-- other.
pub find_user_by_id_iff :
    (m : UserStore) (i : ℕ) (r : UserRecord)
    → IsConsistent m
    → (find_user_by_id m i ≡ some r) ↔ ((find_user_by_username m r.username ≡ some r) × (r.id ≡ i))
unfolding find_user_by_id find_user_by_username
find_user_by_id_iff m i r v = (to, from)
  where
    to :
        user_named m (lookup i m.usernames_by_id) ≡ some r
        → (lookup r.username m.users_by_username ≡ some r) × (r.id ≡ i)
    to h = elim (Option-cases (lookup i m.usernames_by_id)) [
      | inl e ↦ absurd (unfold user_named in ground (arith, e))
      | inr (n, e) ↦
          let (below, (t, there, number)) = v.numbered i n e in
          let (name, back) = v.named n t there in unfold user_named in ground (arith, e)
    ]

    from :
        (lookup r.username m.users_by_username ≡ some r) × (r.id ≡ i)
        → user_named m (lookup i m.usernames_by_id) ≡ some r
    from (found, same) =
        let (name, back) = v.named r.username r found in
        unfold user_named in ground (arith, ap (λ x. lookup x m.usernames_by_id) same)

lookup-add_user :
    (m : UserStore) (n hash : Bytes)
    → find_user_by_username (add_user m n hash) n
      ≡ some (record { id = m.next_memory_id; username = n; password_hash = hash })
unfolding add_user find_user_by_username
lookup-add_user m n hash = insert_self n _ m.users_by_username

-- If `pbkdf2` gives hashes of at least one byte and the salt has at least one: after a registration
-- that succeeds, a login under that name succeeds for exactly the passwords to which `pbkdf2` gives,
-- with that salt, the hash of the registered one.
pub verify_login-register_user :
    (pbkdf2 : Bytes → ℕ → Bytes → Option Bytes) (m : UserStore)
    (salt username password attempt hash : Bytes)
    → ((password salt hash : Bytes)
        → pbkdf2 password pbkdf2_iterations salt ≡ some hash
        → AreBytes hash × (hash ≢ []))
    → AreBytes salt
    → salt ≢ []
    → pbkdf2 password pbkdf2_iterations salt ≡ some hash
    → (register_user pbkdf2 m (some salt) username password).1.success ≡ true
    → let m' = (register_user pbkdf2 m (some salt) username password).0 in
      (is_some (verify_login pbkdf2 m' username attempt) ≡ true)
      ↔ (pbkdf2 attempt pbkdf2_iterations salt ≡ some hash)
unfolding register_user verify_login accepted
verify_login-register_user pbkdf2 m salt username password attempt hash good b ne e done = ground (
  arith,
  verify_password_pbkdf2_iff pbkdf2 good password attempt salt hash b ne e,
  lookup-add_user m username (hash_password_pbkdf2 pbkdf2 (some salt) password),
)

-- A login gives the user of that name.
pub verify_login-username :
    (pbkdf2 : Bytes → ℕ → Bytes → Option Bytes) (m : UserStore) (username password : Bytes)
    (user : UserRecord)
    → IsConsistent m
    → verify_login pbkdf2 m username password ≡ some user
    → user.username ≡ username
unfolding verify_login find_user_by_username accepted
verify_login-username pbkdf2 m username password user v h =
    elim (Option-cases (lookup username m.users_by_username)) [
      | inl e ↦ absurd (ground (arith, e))
      | inr (r, e) ↦ let (name, back) = v.named username r e in ground (arith, e)
    ]
