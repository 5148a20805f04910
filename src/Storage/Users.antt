-- ===== src/Storage/Users.antt =====
-- src/storage/user_store.cpp and include/cpp_chat/storage/user_store.h: the users kept in memory.
-- OpenSSL's part is a parameter, as in Password; the answer of `RAND_bytes` is an argument.
pub mod Password
pub mod Laws
pub mod Pooled
use cpp_chat.Base.{
  ℕ, ◌+◌, ◌%◌, ◌^◌, Bool, true, false, ◌||◌, List, Option, none, some, [], ltb, if◌then◌else◌,
  Bytes, codes, is_empty, is_some, length, nat_eq, string_eq,
}
use cpp_chat.Base.Maps.{lookup, insert}
use cpp_chat.Storage.Users.Password.{hash_password_pbkdf2, verify_password_pbkdf2}

pub record UserRecord : Type 0 where
  pub id : ℕ
  pub username : Bytes
  pub password_hash : Bytes

pub record RegisterResult : Type 0 where
  pub success : Bool
  pub user_id : ℕ
  pub reason : Bytes

-- The private fields, without the pool.
pub record UserStore : Type 0 where
  pub users_by_username : List (Bytes × UserRecord)
  pub usernames_by_id : List (ℕ × Bytes)
  pub next_memory_id : ℕ

abbrev pub register_refused : Bytes → RegisterResult
register_refused reason = record { success = false; user_id = 0; reason = reason }

unfoldable pub find_user_by_username : UserStore → Bytes → Option UserRecord
unfolding lookup
find_user_by_username m username = lookup username m.users_by_username

-- The user of the name that the other map gave.
user_named : UserStore → Option Bytes → Option UserRecord
unfolding lookup
user_named m none = none
user_named m (some username) = lookup username m.users_by_username

unfoldable pub find_user_by_id : UserStore → ℕ → Option UserRecord
unfolding user_named lookup
find_user_by_id m user_id = user_named m (lookup user_id m.usernames_by_id)

-- The three assignments of `register_user`.
unfoldable pub add_user : UserStore → Bytes → Bytes → UserStore
unfolding insert
add_user m username password_hash =
    let user_id = m.next_memory_id in
    record {
      users_by_username =
          insert username
            (record { id = user_id; username = username; password_hash = password_hash })
            m.users_by_username;
      usernames_by_id = insert user_id username m.usernames_by_id;
      next_memory_id = (user_id + 1) % 2 ^ 64;
    }

module _ (pbkdf2 : Bytes → ℕ → Bytes → Option Bytes) where
  unfoldable pub register_user :
      UserStore → Option Bytes → Bytes → Bytes → UserStore × RegisterResult
  unfolding hash_password_pbkdf2 lookup add_user
  register_user m salt username password =
      let password_hash = hash_password_pbkdf2 pbkdf2 salt password in
      if is_empty username || is_empty password
      then (m, register_refused (codes "username and password are required"))
      else if ltb 64 (length username)
      then (m, register_refused (codes "username too long"))
      else if is_some (lookup username m.users_by_username)
      then (m, register_refused (codes "username already exists"))
      else if is_empty password_hash
      then (m, register_refused (codes "failed to hash password"))
      else (
        add_user m username password_hash,
        record { success = true; user_id = m.next_memory_id; reason = [] },
      )

  -- The user is what the source writes to `out_user` before it returns true.
  unfoldable pub accepted : Bytes → Option UserRecord → Option UserRecord
  unfolding verify_password_pbkdf2
  accepted password none = none
  accepted password (some user) =
      if verify_password_pbkdf2 pbkdf2 password user.password_hash then some user else none

  unfoldable pub verify_login : UserStore → Bytes → Bytes → Option UserRecord
  unfolding accepted find_user_by_username
  verify_login m username password = accepted password (find_user_by_username m username)
