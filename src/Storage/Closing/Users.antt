-- ===== src/Storage/Closing/Users.antt =====
-- Each operation of `UserStore` closes the statements that it makes.
use cpp_chat.Base.{
  ℕ, refl, ◌∙◌, true, false, Bool, [], ◌∷◌, Option, arith, Bytes, if◌then◌else◌, is_empty, is_some,
  codes,
}
use cpp_chat.Storage.Statements.{
  text, Server, Client, Access, in_memory, unavailable, available, run_statement,
}
use cpp_chat.Storage.Users.Password.{hash_password_pbkdf2}
use cpp_chat.Storage.Users.{UserStore, RegisterResult, register_refused}
use cpp_chat.Storage.Users.Pooled.{
  name_query, register_query, fetch_user_by_username, fetch_user_by_id,
  find_user_by_username_pooled, find_user_by_id_pooled, after_register, register_new,
  register_valid, register_user_pooled, verify_login_pooled,
}
use cpp_chat.Storage.Closing.{Keeps, run_statement-IsRun, select-Keeps, after_register-Keeps}

module _ {D : Type 0} (server : Server D) where
  pub find_user_by_username-Keeps :
      (access : Access) (m : UserStore) (c : Client D) (username : Bytes)
      → Keeps c (find_user_by_username_pooled server access m c username).0
  unfolding find_user_by_username_pooled fetch_user_by_username
  find_user_by_username-Keeps in_memory m c username = refl
  find_user_by_username-Keeps unavailable m c username = refl
  find_user_by_username-Keeps available m c username = select-Keeps server _ _ c

  pub find_user_by_id-Keeps :
      (access : Access) (m : UserStore) (c : Client D) (user_id : ℕ)
      → Keeps c (find_user_by_id_pooled server access m c user_id).0
  unfolding find_user_by_id_pooled fetch_user_by_id
  find_user_by_id-Keeps in_memory m c user_id = refl
  find_user_by_id-Keeps unavailable m c user_id = refl
  find_user_by_id-Keeps available m c user_id = select-Keeps server _ _ c

  module _ (pbkdf2 : Bytes → ℕ → Bytes → Option Bytes) where
    -- The three ends of `register_new`.
    registered-Keeps :
        (c c' : Client D) (taken failed : Bool) (inserted : Client D × RegisterResult)
        → Keeps c c'
        → Keeps c inserted.0
        → Keeps c
            (if◌then◌else◌ {A = Client D × RegisterResult} taken
              (c', register_refused (codes "username already exists"))
              (if◌then◌else◌ {A = Client D × RegisterResult} failed
                (c', register_refused (codes "failed to hash password"))
                inserted)).0
    registered-Keeps c c' true failed inserted h h' = h
    registered-Keeps c c' false true inserted h h' = h
    registered-Keeps c c' false false inserted h h' = h'

    register_new-Keeps :
        (c : Client D) (salt : Option Bytes) (username password : Bytes)
        → Keeps c (register_new server pbkdf2 c salt username password).0
    unfolding register_new fetch_user_by_username
    register_new-Keeps c salt username password =
        let r = fetch_user_by_username server c username in
        let hash = hash_password_pbkdf2 pbkdf2 salt password in
        let params = text username ∷ text hash ∷ [] in
        let inserted = run_statement server register_query params r.0 in
        let looked = select-Keeps server name_query (text username ∷ []) c in
        let kept =
          after_register-Keeps server r.0 inserted
            (run_statement-IsRun server register_query params r.0) in
        registered-Keeps c r.0 (is_some r.1) (is_empty hash) (after_register server inserted) looked
          (kept ∙ looked)

    register_valid-Keeps :
        (access : Access) (m : UserStore) (c : Client D) (salt : Option Bytes)
        (username password : Bytes)
        → Keeps c (register_valid server pbkdf2 access m c salt username password).1.0
    unfolding register_valid
    register_valid-Keeps in_memory m c salt username password = refl
    register_valid-Keeps unavailable m c salt username password = refl
    register_valid-Keeps available m c salt username password =
        register_new-Keeps c salt username password

    pub register_user-Keeps :
        (access : Access) (m : UserStore) (c : Client D) (salt : Option Bytes)
        (username password : Bytes)
        → Keeps c (register_user_pooled server pbkdf2 access m c salt username password).1.0
    unfolding register_user_pooled
    register_user-Keeps access m c salt username password =
        ground (arith, register_valid-Keeps access m c salt username password)

    pub verify_login-Keeps :
        (access : Access) (m : UserStore) (c : Client D) (username password : Bytes)
        → Keeps c (verify_login_pooled server pbkdf2 access m c username password).0
    unfolding verify_login_pooled
    verify_login-Keeps access m c username password =
        find_user_by_username-Keeps access m c username
