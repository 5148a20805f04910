-- ===== src/Storage/Users/Pooled.antt =====
-- src/storage/user_store.cpp with a connection pool: the statements of `UserStore`.
pub mod Login
use cpp_chat.Base.{
  ℕ, Bool, true, not, ◌||◌, List, [], ◌∷◌, ◌++◌, Option, none, some, ltb, ◌==◌, if◌then◌else◌,
  Bytes, codes, is_empty, is_some, length,
}
use cpp_chat.Storage.Statements.{
  Value, integer, text, Fetch, row, Server, Client, Outcome, unprepared, refused, executed, Access,
  in_memory, unavailable, available, column, integer_of, text_of, mysql_stmt_close, run_statement,
  select, execute_query,
}
use cpp_chat.Storage.Users.Password.{hash_password_pbkdf2}
use cpp_chat.Storage.Users.{
  UserRecord, RegisterResult, UserStore, register_refused, register_user, find_user_by_username,
  find_user_by_id, accepted,
}

unfoldable pub create_table : Bytes
create_table =
    codes "CREATE TABLE IF NOT EXISTS users ("
    ++ codes "id BIGINT UNSIGNED NOT NULL AUTO_INCREMENT PRIMARY KEY,"
    ++ codes "username VARCHAR(64) NOT NULL UNIQUE,"
    ++ codes "password_hash VARCHAR(255) NOT NULL,"
    ++ codes "created_at TIMESTAMP NOT NULL DEFAULT CURRENT_TIMESTAMP"
    ++ codes ") ENGINE=InnoDB DEFAULT CHARSET=utf8mb4 COLLATE=utf8mb4_unicode_ci"

unfoldable pub name_query : Bytes
name_query = codes "SELECT id, username, password_hash FROM users WHERE username = ?"

unfoldable pub id_query : Bytes
id_query = codes "SELECT id, username, password_hash FROM users WHERE id = ?"

unfoldable pub register_query : Bytes
register_query = codes "INSERT INTO users (username, password_hash) VALUES (?, ?)"

-- Names of users have at most 64 bytes, since `register_user` refuses longer ones, and hashes 125 or
-- less: they fit their buffers of 65 and 256 bytes.
abbrev pub user_of_row : List Value → UserRecord
user_of_row values = record {
  id = integer_of (column 0 values);
  username = text_of (column 1 values);
  password_hash = text_of (column 2 values);
}

unfoldable pub fetched_user : List Fetch → Option UserRecord
fetched_user (row values fetched ∷ fetches) = some (user_of_row values)
fetched_user _ = none

module _ {D : Type 0} (server : Server D) where
  -- The constructor with a pool.
  unfoldable pub open_user_store : Bool → Client D → Client D
  unfolding execute_query
  open_user_store acquired c = if not acquired then c else (execute_query server create_table c).0

  unfoldable pub fetch_user_by_username : Client D → Bytes → Client D × Option UserRecord
  unfolding select fetched_user
  fetch_user_by_username c username =
      let (c', fetches) = select server name_query (text username ∷ []) c in
      (c', fetched_user fetches)

  unfoldable pub fetch_user_by_id : Client D → ℕ → Client D × Option UserRecord
  unfolding select fetched_user
  fetch_user_by_id c user_id =
      let (c', fetches) = select server id_query (integer user_id ∷ []) c in
      (c', fetched_user fetches)

  unfoldable pub find_user_by_username_pooled :
      Access → UserStore → Client D → Bytes → Client D × Option UserRecord
  unfolding find_user_by_username fetch_user_by_username
  find_user_by_username_pooled in_memory m c username = (c, find_user_by_username m username)
  find_user_by_username_pooled unavailable m c username = (c, none)
  find_user_by_username_pooled available m c username = fetch_user_by_username c username

  unfoldable pub find_user_by_id_pooled :
      Access → UserStore → Client D → ℕ → Client D × Option UserRecord
  unfolding find_user_by_id fetch_user_by_id
  find_user_by_id_pooled in_memory m c user_id = (c, find_user_by_id m user_id)
  find_user_by_id_pooled unavailable m c user_id = (c, none)
  find_user_by_id_pooled available m c user_id = fetch_user_by_id c user_id

  -- The end of `register_user`: 1062 is the error of a name that is taken.
  unfoldable pub after_register : Client D × Outcome → Client D × RegisterResult
  unfolding mysql_stmt_close
  after_register (c, unprepared) = (c, register_refused (codes "database error"))
  after_register (c, refused error_number) =
      if error_number == 1062
      then (c, register_refused (codes "username already exists"))
      else (c, register_refused (codes "database error"))
  after_register (c, executed reply) =
      (mysql_stmt_close c, record { success = true; user_id = reply.insert_id; reason = [] })

  module _ (pbkdf2 : Bytes → ℕ → Bytes → Option Bytes) where
    -- `register_user` with a connection, behind the tests on the texts.
    unfoldable pub register_new :
        Client D → Option Bytes → Bytes → Bytes → Client D × RegisterResult
    unfolding fetch_user_by_username hash_password_pbkdf2 run_statement after_register
    register_new c salt username password =
        let (c', taken) = fetch_user_by_username c username in
        let password_hash = hash_password_pbkdf2 pbkdf2 salt password in
        let inserted =
          after_register
            (run_statement server register_query (text username ∷ text password_hash ∷ []) c') in
        if is_some taken
        then (c', register_refused (codes "username already exists"))
        else if is_empty password_hash
        then (c', register_refused (codes "failed to hash password"))
        else inserted

    -- Behind the tests on the texts.
    unfoldable pub register_valid :
        Access
        → UserStore
        → Client D
        → Option Bytes
        → Bytes
        → Bytes
        → UserStore × (Client D × RegisterResult)
    unfolding register_user register_new
    register_valid in_memory m c salt username password =
        let (m', result) = register_user pbkdf2 m salt username password in (m', (c, result))
    register_valid unavailable m c salt username password =
        (m, (c, register_refused (codes "database error")))
    register_valid available m c salt username password = (m, register_new c salt username password)

    unfoldable pub register_user_pooled :
        Access
        → UserStore
        → Client D
        → Option Bytes
        → Bytes
        → Bytes
        → UserStore × (Client D × RegisterResult)
    unfolding register_valid
    register_user_pooled access m c salt username password =
        if is_empty username || is_empty password
        then (m, (c, register_refused (codes "username and password are required")))
        else if ltb 64 (length username)
        then (m, (c, register_refused (codes "username too long")))
        else register_valid access m c salt username password

    unfoldable pub verify_login_pooled :
        Access → UserStore → Client D → Bytes → Bytes → Client D × Option UserRecord
    unfolding find_user_by_username_pooled accepted
    verify_login_pooled access m c username password =
        let (c', user) = find_user_by_username_pooled access m c username in
        (c', accepted pbkdf2 password user)
