-- ===== src/Storage/Users/Pooled/Login.antt =====
-- With the database, a registered user can log in, with the password that was registered.
use cpp_chat.Base.{
  ℕ, ◌≡◌, ◌≢◌, ◌↔◌, refl, sym, ap, ◌∙◌, true, false, Bool, Bool-cases, inl, inr, ◌||◌, List, [],
  ◌∷◌, ◌++◌, Option, none, some, arith, Bytes, if◌then◌else◌, is_some, is_empty, codes, ltb, length,
}
use cpp_chat.Storage.Statements.{
  integer, text, Fetch, row, Reply, Server, Client, available, select, run_statement, fetch_all,
}
use cpp_chat.Storage.Users.{UserRecord, UserStore, RegisterResult, register_refused, accepted}
use cpp_chat.Storage.Users.Password.{
  hash_password_pbkdf2, pbkdf2_iterations, verify_password_pbkdf2,
}
use cpp_chat.Storage.Users.Password.Verify.{AreBytes, verify_password_pbkdf2_iff}
use cpp_chat.Storage.Users.Pooled.{
  name_query, register_query, fetched_user, fetch_user_by_username, find_user_by_username_pooled,
  after_register, register_new, register_valid, register_user_pooled, verify_login_pooled,
}

-- Every call succeeds, and these rows are fetched.
abbrev pub fetched_reply : List Fetch → Reply
fetched_reply fetches = record {
  is_made = true;
  is_prepared = true;
  is_bound = true;
  is_executed = true;
  is_result_bound = true;
  fetches = fetches;
  affected_rows = 0;
  insert_id = 0;
  error_number = 0;
}

abbrev pub registered_reply : ℕ → Reply
registered_reply insert_id = record (fetched_reply []) { affected_rows = 1; insert_id = insert_id }

-- The error of a key that is there already.
abbrev pub taken_reply : Reply
taken_reply = record (fetched_reply []) { is_executed = false; error_number = 1062 }

abbrev pub fetches_of : Option UserRecord → List Fetch
fetches_of none = []
fetches_of (some user) =
    row (integer user.id ∷ text user.username ∷ text user.password_hash ∷ []) true ∷ []

-- The first user of that name, as far as `same` tells names apart.
unfoldable pub named : (Bytes → Bytes → Bool) → Bytes → List UserRecord → Option UserRecord
named same username [] = none
named same username (user ∷ users) =
    let rest = named same username users in if same user.username username then some user else rest

module _ {D : Type 0} (server : Server D) (same : Bytes → Bytes → Bool) where
  -- The server runs each statement as its text says, where the collation of the column takes `same`
  -- names for equal: `utf8mb4_unicode_ci` does not tell upper from lower case.
  pub record IsUserServer (table : D → List UserRecord) (next_id : D → ℕ) : Type 0 where
    pub reflexive : (username : Bytes) → same username username ≡ true
    pub by_name :
        (username : Bytes) (d : D)
        → server.statement name_query (text username ∷ []) d
          ≡ (d, fetched_reply (fetches_of (named same username (table d))))
    pub insert :
        (username hash : Bytes) (d : D)
        → named same username (table d) ≡ none
        → ((server.statement register_query (text username ∷ text hash ∷ []) d).1
            ≡ registered_reply (next_id d))
          × (table (server.statement register_query (text username ∷ text hash ∷ []) d).0
              ≡ table d
                ++ record { id = next_id d; username = username; password_hash = hash } ∷ [])
    pub refuse :
        (username hash : Bytes) (d : D)
        → is_some (named same username (table d)) ≡ true
        → server.statement register_query (text username ∷ text hash ∷ []) d ≡ (d, taken_reply)

fetched_user-fetches_of : (o : Option UserRecord) → fetched_user (fetches_of o) ≡ o
unfolding fetched_user
fetched_user-fetches_of none = refl
fetched_user-fetches_of (some user) = refl

-- A user behind others, none of whom has the name.
named-behind :
    (same : Bytes → Bytes → Bool) (username : Bytes) (users : List UserRecord) (user : UserRecord)
    → named same username users ≡ none
    → same user.username username ≡ true
    → named same username (users ++ user ∷ []) ≡ some user
unfolding named
named-behind same username [] user h e = rw e refl
named-behind same username (x ∷ users) user h e = elim (Bool-cases (same x.username username)) [
  | inl k ↦ absurd (ground (arith, k))
  | inr k ↦ rw k (named-behind same username users user (ground (arith, k)) e)
]

module _ {D : Type 0} (server : Server D) (same : Bytes → Bytes → Bool)
    (table : D → List UserRecord) (next_id : D → ℕ)
    (v : IsUserServer server same table next_id) where
  fetched-named :
      (c : Client D) (username : Bytes)
      → ((fetch_user_by_username server c username).1 ≡ named same username (table c.database))
        × ((fetch_user_by_username server c username).0.database ≡ c.database)
  unfolding fetch_user_by_username select run_statement fetch_all
  fetched-named c username =
      let e = v.by_name username c.database in (rw e (fetched_user-fetches_of _), rw e refl)

  inserted-named :
      (c : Client D) (username hash : Bytes)
      → named same username (table c.database) ≡ none
      → named same username (
          table
            (after_register server
              (run_statement server register_query (text username ∷ text hash ∷ []) c)).0.database)
        ≡ some (record { id = next_id c.database; username = username; password_hash = hash })
  unfolding after_register run_statement
  inserted-named c username hash h =
      let e = v.insert username hash c.database h in
      rw e.0 (
        ap (named same username) e.1
        ∙ named-behind same username (table c.database) _ h (v.reflexive username))

  -- A registration that succeeds has gone through the statement.
  through :
      (c : Client D) (taken : Option UserRecord) (failed : Bool)
      (inserted : Client D × RegisterResult)
      → let r =
          if◌then◌else◌ {A = Client D × RegisterResult}
            (is_some taken)
            (c, register_refused (codes "username already exists"))
            (if◌then◌else◌ {A = Client D × RegisterResult} failed
              (c, register_refused (codes "failed to hash password"))
              inserted) in
        r.1.success ≡ true → (taken ≡ none) × (r ≡ inserted)
  through c (some user) failed inserted done = absurd (cc)
  through c none true inserted done = absurd (cc)
  through c none false inserted done = (refl, refl)

  module _ (pbkdf2 : Bytes → ℕ → Bytes → Option Bytes) where
    register_new-named :
        (c : Client D) (salt : Option Bytes) (username password : Bytes)
        → (register_new server pbkdf2 c salt username password).1.success ≡ true
        → named same username
            (table (register_new server pbkdf2 c salt username password).0.database)
          ≡ some (record {
            id = next_id c.database;
            username = username;
            password_hash = hash_password_pbkdf2 pbkdf2 salt password;
          })
    unfolding register_new
    register_new-named c salt username password done =
        let hash = hash_password_pbkdf2 pbkdf2 salt password in
        let looked = fetch_user_by_username server c username in
        let inserted =
          after_register server
            (run_statement server register_query (text username ∷ text hash ∷ []) looked.0) in
        let gone = through looked.0 looked.1 (is_empty hash) inserted done in
        let found = fetched-named c username in
        let free = ap (λ d. named same username (table d)) found.1 ∙ (sym found.0 ∙ gone.0) in
        ap (λ r. named same username (table r.0.database)) gone.1
        ∙ (inserted-named looked.0 username hash free
            ∙ ap (λ d. some (record { id = next_id d; username = username; password_hash = hash }))
                found.1)

    guarded :
        (m : UserStore) (c : Client D) (missing long : Bool)
        (valid : UserStore × (Client D × RegisterResult))
        → let r =
            if◌then◌else◌ {A = UserStore × (Client D × RegisterResult)} missing
              (m, (c, register_refused (codes "username and password are required")))
              (if◌then◌else◌ {A = UserStore × (Client D × RegisterResult)} long
                (m, (c, register_refused (codes "username too long")))
                valid) in
          r.1.1.success ≡ true → r ≡ valid
    guarded m c true long valid done = absurd (cc)
    guarded m c false true valid done = absurd (cc)
    guarded m c false false valid done = refl

    accepted-is_some :
        (attempt : Bytes) (user : UserRecord)
        → is_some (accepted pbkdf2 attempt (some user))
          ≡ verify_password_pbkdf2 pbkdf2 attempt user.password_hash
    unfolding accepted
    accepted-is_some attempt user =
        elim (Bool-cases (verify_password_pbkdf2 pbkdf2 attempt user.password_hash)) [
          | inl k ↦ rw k refl
          | inr k ↦ rw k refl
        ]

    register_user_pooled-named :
        (m : UserStore) (c : Client D) (salt : Option Bytes) (username password : Bytes)
        → (register_user_pooled server pbkdf2 available m c salt username password).1.1.success
          ≡ true
        → named same username (
            table
              (register_user_pooled server pbkdf2 available m c salt username
                password).1.0.database)
          ≡ some (record {
            id = next_id c.database;
            username = username;
            password_hash = hash_password_pbkdf2 pbkdf2 salt password;
          })
    unfolding register_user_pooled register_valid
    register_user_pooled-named m c salt username password done =
        let r = register_valid server pbkdf2 available m c salt username password in
        let whole =
          guarded m c (is_empty username || is_empty password) (ltb 64 (length username)) r done in
        ap (λ r'. named same username (table r'.1.0.database)) whole
        ∙ register_new-named c salt username password (ap (λ r'. r'.1.1.success) (sym whole) ∙ done)

    -- If `pbkdf2` gives hashes of at least one byte and the salt has at least one, and the server runs
    -- its statements as their texts say, whatever names its collation takes for equal: after a
    -- registration with the database that succeeds, a login under that name succeeds for exactly the
    -- passwords to which `pbkdf2` gives, with that salt, the hash of the registered one.
    pub verify_login_pooled-register_user_pooled :
        (m : UserStore) (c : Client D) (salt username password attempt hash : Bytes)
        → ((password salt hash : Bytes)
            → pbkdf2 password pbkdf2_iterations salt ≡ some hash
            → AreBytes hash × (hash ≢ []))
        → AreBytes salt
        → salt ≢ []
        → pbkdf2 password pbkdf2_iterations salt ≡ some hash
        → (register_user_pooled server pbkdf2 available m c
            (some salt)
            username
            password).1.1.success
          ≡ true
        → let (m', (c', result)) =
            register_user_pooled server pbkdf2 available m c (some salt) username password in
          (is_some (verify_login_pooled server pbkdf2 available m' c' username attempt).1 ≡ true)
          ↔ (pbkdf2 attempt pbkdf2_iterations salt ≡ some hash)
    unfolding verify_login_pooled find_user_by_username_pooled
    verify_login_pooled-register_user_pooled m c salt username password attempt hash good b ne e
          done =
        let c' =
          (register_user_pooled server pbkdf2 available m c (some salt) username password).1.0 in
        let found =
          (fetched-named c' username).0
          ∙ register_user_pooled-named m c (some salt) username password done in
        let user : UserRecord = record {
          id = next_id c.database;
          username = username;
          password_hash = hash_password_pbkdf2 pbkdf2 (some salt) password;
        } in
        let met =
          ap (λ o. is_some (accepted pbkdf2 attempt o)) found ∙ accepted-is_some attempt user in
        let iff = verify_password_pbkdf2_iff pbkdf2 good password attempt salt hash b ne e in
        (λ h. iff.0 (sym met ∙ h), λ h. met ∙ iff.1 h)
