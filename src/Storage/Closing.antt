-- ===== src/Storage/Closing.antt =====
-- What the calls of a statement leave open.
pub mod Messages
pub mod Groups
pub mod Users
pub mod Stores
use cpp_chat.Base.{
  ℕ, suc, ◌≡◌, refl, ap, ◌∙◌, true, false, Bool, Bool-cases, inl, inr, not, List, [], ◌∷◌, Option,
  none, some, arith, Bytes, if◌then◌else◌, map, ltb, ◌||◌, is_empty, is_some, length, codes, ◌==◌,
}
use cpp_chat.Protocol.Message.{Message}
use cpp_chat.Storage.Statements.{
  Value, integer, Fetch, Reply, Server, Client, Outcome, unprepared, refused, executed, Access,
  in_memory, unavailable, available, mysql_stmt_init, mysql_stmt_close, run_statement, fetch_all,
  select, affected_rows_of, change, execute_query,
}
use cpp_chat.Storage.Groups.{GroupStore}
use cpp_chat.Storage.Groups.Pooled.{
  open_group_store, after_create, create_named, create_group_pooled, find_group_pooled,
  group_exists_pooled,
}
use cpp_chat.Storage.Members.{GroupMemberStore}
use cpp_chat.Storage.Members.Pooled.{
  open_member_store, join_group_pooled, leave_group_pooled, is_group_member_pooled,
  load_group_members_pooled, load_user_groups_pooled,
}
use cpp_chat.Storage.Messages.{StoredMessage, MessageStore}
use cpp_chat.Storage.Messages.Pooled.{
  execute_history_query, execute_history_page_query, execute_unread_query, table_column_exists,
  add_column_if_missing, ensure_messages_schema, open_message_store, after_insert, append_pooled,
  direct_history_pooled, group_history_pooled, page_pooled, direct_history_page_pooled,
  group_history_page_pooled, unread_page_pooled,
}
use cpp_chat.Storage.Users.{UserStore, UserRecord}
use cpp_chat.Storage.Users.Pooled.{
  open_user_store, fetch_user_by_username, fetch_user_by_id, find_user_by_username_pooled,
  find_user_by_id_pooled, after_register, register_new, register_valid, register_user_pooled,
  verify_login_pooled,
}

module _ {D : Type 0} where
  -- As many statements are open.
  abbrev pub Keeps : Client D → Client D → Type 0
  Keeps c c' = c'.open_statements ≡ c.open_statements

  -- The statement that was run is open exactly if it was executed.
  abbrev pub IsRun : Client D → Client D × Outcome → Type 0
  IsRun c (c', unprepared) = c'.open_statements ≡ c.open_statements
  IsRun c (c', refused error_number) = c'.open_statements ≡ c.open_statements
  IsRun c (c', executed reply) = c'.open_statements ≡ suc c.open_statements

  fetch_all-Keeps : (c : Client D) (r : Client D × Outcome) → IsRun c r → Keeps c (fetch_all r).0
  unfolding fetch_all mysql_stmt_close
  fetch_all-Keeps c (c', unprepared) h = h
  fetch_all-Keeps c (c', refused error_number) h = h
  fetch_all-Keeps c (c', executed reply) h = omega arith

  affected_rows_of-Keeps :
      (c : Client D) (r : Client D × Outcome) → IsRun c r → Keeps c (affected_rows_of r).0
  unfolding affected_rows_of mysql_stmt_close
  affected_rows_of-Keeps c (c', unprepared) h = h
  affected_rows_of-Keeps c (c', refused error_number) h = h
  affected_rows_of-Keeps c (c', executed reply) h = omega arith

module _ {D : Type 0} (server : Server D) where
  -- The four tests of `run_statement`.
  run_tested : Client D → D → Reply → Bool → Bool → Bool → Bool → Client D × Outcome
  unfolding mysql_stmt_init mysql_stmt_close
  run_tested c database reply made prepared bound done =
      let opened = mysql_stmt_init c in
      let changed = record opened { database = database } in
      if not made
      then (c, unprepared)
      else if not prepared
      then (mysql_stmt_close opened, unprepared)
      else if not bound
      then (mysql_stmt_close opened, refused reply.error_number)
      else if not done
      then (mysql_stmt_close changed, refused reply.error_number)
      else (changed, executed reply)

  run_tested-IsRun :
      (c : Client D) (database : D) (reply : Reply) (made prepared bound done : Bool)
      → IsRun c (run_tested c database reply made prepared bound done)
  unfolding run_tested
  run_tested-IsRun c database reply false prepared bound done = refl
  run_tested-IsRun c database reply true false bound done = omega arith
  run_tested-IsRun c database reply true true false done = omega arith
  run_tested-IsRun c database reply true true true false = omega arith
  run_tested-IsRun c database reply true true true true = refl

  pub run_statement-IsRun :
      (query : Bytes) (params : List Value) (c : Client D)
      → IsRun c (run_statement server query params c)
  unfolding run_statement run_tested
  run_statement-IsRun query params c =
      let r = server.statement query params c.database in
      run_tested-IsRun c r.0 r.1 r.1.is_made r.1.is_prepared r.1.is_bound r.1.is_executed

  pub select-Keeps :
      (query : Bytes) (params : List Value) (c : Client D)
      → Keeps c (select server query params c).0
  unfolding select
  select-Keeps query params c = fetch_all-Keeps c _ (run_statement-IsRun query params c)

  pub change-Keeps :
      (query : Bytes) (params : List Value) (c : Client D)
      → Keeps c (change server query params c).0
  unfolding change
  change-Keeps query params c = affected_rows_of-Keeps c _ (run_statement-IsRun query params c)

  pub if-Keeps :
      (c c1 c2 : Client D) (b : Bool) → Keeps c c1 → Keeps c c2 → Keeps c (if b then c1 else c2)
  if-Keeps c c1 c2 true h h' = h
  if-Keeps c c1 c2 false h h' = h'

  add_column-Keeps :
      (c : Client D) (name add_column : Bytes)
      → Keeps c (add_column_if_missing server c name add_column)
  unfolding add_column_if_missing table_column_exists execute_query
  add_column-Keeps c name add_column = if-Keeps c _ _ _ (select-Keeps _ _ c) (select-Keeps _ _ c)

  pub schema-Keeps : (c : Client D) → Keeps c (ensure_messages_schema server c)
  unfolding ensure_messages_schema execute_query
  schema-Keeps c = add_column-Keeps _ _ _ ∙ add_column-Keeps c _ _

  pub after_insert-Keeps :
      (c : Client D) (stored : StoredMessage) (r : Client D × Outcome)
      → IsRun c r
      → Keeps c (after_insert server stored r).0
  unfolding after_insert mysql_stmt_close
  after_insert-Keeps c stored (c', unprepared) h = h
  after_insert-Keeps c stored (c', refused error_number) h = h
  after_insert-Keeps c stored (c', executed reply) h = omega arith

  pub after_create-Keeps :
      (c : Client D) (name : Bytes) (owner_id : ℕ) (r : Client D × Outcome)
      → IsRun c r
      → Keeps c (after_create server name owner_id r).0
  unfolding after_create mysql_stmt_close
  after_create-Keeps c name owner_id (c', unprepared) h = h
  after_create-Keeps c name owner_id (c', refused error_number) h = h
  after_create-Keeps c name owner_id (c', executed reply) h = omega arith

  pub after_register-Keeps :
      (c : Client D) (r : Client D × Outcome) → IsRun c r → Keeps c (after_register server r).0
  unfolding after_register mysql_stmt_close
  after_register-Keeps c (c', unprepared) h = h
  after_register-Keeps c (c', refused error_number) h = ground arith
  after_register-Keeps c (c', executed reply) h = omega arith
