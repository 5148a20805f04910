-- ===== src/Tests/Logins.antt =====
-- A server of MySQL that keeps the table `users`, and one registration.
use cpp_chat.Base.{
  suc, ◌≡◌, ◌↔◌, refl, true, List, [], ◌∷◌, ◌++◌, some, Bytes, codes, bytes_eq, bytes_eq_iff,
  is_some, if◌then◌else◌, length,
}
use cpp_chat.Storage.Statements.{Value, Reply, Server, Client, available, column, text_of}
use cpp_chat.Storage.Users.{UserRecord}
use cpp_chat.Storage.Users.Password.{pbkdf2_iterations, hash_password_pbkdf2}
use cpp_chat.Storage.Users.Pooled.{
  name_query, register_query, register_user_pooled, verify_login_pooled,
}
use cpp_chat.Storage.Users.Pooled.Login.{
  fetched_reply, registered_reply, taken_reply, fetches_of, named, IsUserServer,
  verify_login_pooled-register_user_pooled,
}
use cpp_chat.Tests.Stores.{no_users, first_letter, salt_bytes, first_letter-AreBytes, salt-AreBytes}

insert_user : Bytes → Bytes → List UserRecord → List UserRecord × Reply
unfolding named
insert_user username hash rows =
    if is_some (named bytes_eq username rows) then (rows, taken_reply) else (
      rows ++ (record { id = suc (length rows); username = username; password_hash = hash }) ∷ [],
      registered_reply (suc (length rows)),
    )

user_statement : Bytes → List Value → List UserRecord → List UserRecord × Reply
unfolding insert_user named
user_statement query params rows =
    let name = text_of (column 0 params) in
    let hash = text_of (column 1 params) in
    if bytes_eq query name_query
    then (rows, fetched_reply (fetches_of (named bytes_eq name rows)))
    else insert_user name hash rows

abbrev user_server : Server (List UserRecord)
user_server = record { query = λ query rows. (rows, true); statement = user_statement }

user_server-IsUserServer :
    IsUserServer user_server bytes_eq (λ rows. rows) (λ rows. suc (length rows))
unfolding user_statement insert_user bytes_eq name_query register_query
user_server-IsUserServer = record {
  reflexive = λ username. (bytes_eq_iff username username).1 refl;
  by_name = λ username rows. refl;
  insert = λ username hash rows h. rw h (refl, refl);
  refuse = λ username hash rows h. rw h refl;
}

abbrev no_rows : Client (List UserRecord)
no_rows = record { database = []; open_statements = 0 }

verify_login_pooled-register_user_pooled_example :
    let (m', (c', result)) =
      register_user_pooled user_server first_letter available no_users no_rows
        (some salt_bytes)
        (codes "alice")
        (codes "secret") in
    (is_some
        (verify_login_pooled user_server first_letter available m' c'
          (codes "alice")
          (codes "guess")).1
      ≡ true)
    ↔ (first_letter (codes "guess") pbkdf2_iterations salt_bytes ≡ some (codes "s"))
unfolding register_user_pooled user_statement insert_user name_query register_query named
    hash_password_pbkdf2 bytes_eq
verify_login_pooled-register_user_pooled_example =
    verify_login_pooled-register_user_pooled user_server bytes_eq (λ rows. rows)
      (λ rows. suc (length rows)) user_server-IsUserServer first_letter no_users no_rows salt_bytes
      (codes "alice") (codes "secret") (codes "guess") (codes "s") first_letter-AreBytes
      salt-AreBytes (λ e. cc) refl refl
