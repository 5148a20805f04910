-- ===== src/Storage/Closing/Stores.antt =====
-- Whatever the server answers, the stores and the logger close each statement that they make.
use cpp_chat.Base.{ℕ, refl, arith, true, false, Bool, not, List, Option, Bytes, if◌then◌else◌}
use cpp_chat.Protocol.Message.{Message}
use cpp_chat.Logger.{LogLevel, Log, open_logger, after_log, insert_log, write}
use cpp_chat.Storage.Statements.{
  Server, Client, Outcome, unprepared, refused, executed, Access, in_memory, unavailable, available,
  execute_query, mysql_stmt_close,
}
use cpp_chat.Storage.Groups.{GroupStore}
use cpp_chat.Storage.Groups.Pooled.{
  open_group_store, create_group_pooled, find_group_pooled, group_exists_pooled,
}
use cpp_chat.Storage.Members.{GroupMemberStore}
use cpp_chat.Storage.Members.Pooled.{
  open_member_store, join_group_pooled, leave_group_pooled, is_group_member_pooled,
  load_group_members_pooled, load_user_groups_pooled,
}
use cpp_chat.Storage.Messages.{MessageStore}
use cpp_chat.Storage.Messages.Pooled.{
  open_message_store, append_pooled, direct_history_pooled, group_history_pooled,
  direct_history_page_pooled, group_history_page_pooled, unread_page_pooled,
}
use cpp_chat.Storage.Users.{UserStore}
use cpp_chat.Storage.Users.Pooled.{
  open_user_store, find_user_by_username_pooled, find_user_by_id_pooled, register_user_pooled,
  verify_login_pooled,
}
use cpp_chat.Storage.Closing.{Keeps, IsRun, run_statement-IsRun}
use cpp_chat.Storage.Closing.Messages.{
  open_message_store-Keeps, append-Keeps, direct_history-Keeps, group_history-Keeps,
  direct_page-Keeps, group_page-Keeps, unread_page-Keeps,
}
use cpp_chat.Storage.Closing.Groups.{
  create_group-Keeps, find_group-Keeps, group_exists-Keeps, join_group-Keeps, leave_group-Keeps,
  is_group_member-Keeps, load_group_members-Keeps, load_user_groups-Keeps,
}
use cpp_chat.Storage.Closing.Users.{
  find_user_by_username-Keeps, find_user_by_id-Keeps, register_user-Keeps, verify_login-Keeps,
}

-- Every operation of the stores and of the logger leaves as many statements open as there were.
pub record ClosesStatements {D : Type 0} (server : Server D)
    (pbkdf2 : Bytes → ℕ → Bytes → Option Bytes) : Type 0 where
  pub by_open_message_store : (b : Bool) (c : Client D) → Keeps c (open_message_store server b c)
  pub by_append :
      (b : Bool) (m : MessageStore) (c : Client D) (message : Message)
      → Keeps c (append_pooled server b m c message).1.0
  pub by_direct_history :
      (b : Bool) (m : MessageStore) (c : Client D) (user_id peer_id : ℕ)
      → Keeps c (direct_history_pooled server b m c user_id peer_id).0
  pub by_group_history :
      (b : Bool) (m : MessageStore) (c : Client D) (group_id : ℕ)
      → Keeps c (group_history_pooled server b m c group_id).0
  pub by_direct_history_page :
      (b : Bool) (m : MessageStore) (c : Client D) (user_id peer_id limit before_id : ℕ)
      → Keeps c (direct_history_page_pooled server b m c user_id peer_id limit before_id).0
  pub by_group_history_page :
      (b : Bool) (m : MessageStore) (c : Client D) (group_id limit before_id : ℕ)
      → Keeps c (group_history_page_pooled server b m c group_id limit before_id).0
  pub by_unread_page :
      (b : Bool) (m : MessageStore) (c : Client D) (user_id : ℕ) (group_ids : List ℕ)
      (last_seen limit : ℕ)
      → Keeps c (unread_page_pooled server b m c user_id group_ids last_seen limit).0
  pub by_open_group_store : (b : Bool) (c : Client D) → Keeps c (open_group_store server b c)
  pub by_create_group :
      (access : Access) (m : GroupStore) (c : Client D) (name : Bytes) (owner_id : ℕ)
      → Keeps c (create_group_pooled server access m c name owner_id).1.0
  pub by_find_group :
      (access : Access) (m : GroupStore) (c : Client D) (group_id : ℕ)
      → Keeps c (find_group_pooled server access m c group_id).0
  pub by_group_exists :
      (access : Access) (m : GroupStore) (c : Client D) (group_id : ℕ)
      → Keeps c (group_exists_pooled server access m c group_id).0
  pub by_open_member_store : (b : Bool) (c : Client D) → Keeps c (open_member_store server b c)
  pub by_join_group :
      (access : Access) (m : GroupMemberStore) (c : Client D) (group_id user_id : ℕ)
      → Keeps c (join_group_pooled server access m c group_id user_id).1.0
  pub by_leave_group :
      (access : Access) (m : GroupMemberStore) (c : Client D) (group_id user_id : ℕ)
      → Keeps c (leave_group_pooled server access m c group_id user_id).1.0
  pub by_is_group_member :
      (access : Access) (m : GroupMemberStore) (c : Client D) (group_id user_id : ℕ)
      → Keeps c (is_group_member_pooled server access m c group_id user_id).0
  pub by_load_group_members :
      (access : Access) (m : GroupMemberStore) (c : Client D) (group_id : ℕ)
      → Keeps c (load_group_members_pooled server access m c group_id).0
  pub by_load_user_groups :
      (access : Access) (m : GroupMemberStore) (c : Client D) (user_id : ℕ)
      → Keeps c (load_user_groups_pooled server access m c user_id).0
  pub by_open_user_store : (b : Bool) (c : Client D) → Keeps c (open_user_store server b c)
  pub by_find_user_by_username :
      (access : Access) (m : UserStore) (c : Client D) (username : Bytes)
      → Keeps c (find_user_by_username_pooled server access m c username).0
  pub by_find_user_by_id :
      (access : Access) (m : UserStore) (c : Client D) (user_id : ℕ)
      → Keeps c (find_user_by_id_pooled server access m c user_id).0
  pub by_register_user :
      (access : Access) (m : UserStore) (c : Client D) (salt : Option Bytes)
      (username password : Bytes)
      → Keeps c (register_user_pooled server pbkdf2 access m c salt username password).1.0
  pub by_verify_login :
      (access : Access) (m : UserStore) (c : Client D) (username password : Bytes)
      → Keeps c (verify_login_pooled server pbkdf2 access m c username password).0
  pub by_open_logger : (b : Bool) (c : Client D) → Keeps c (open_logger server b c)
  pub by_write :
      (access : Access) (now : Bytes) (log : Log D) (level : LogLevel) (message : Bytes)
      → Keeps log.client (write server access now log level message).client

open_simple-Keeps :
    {D : Type 0} (b : Bool) (c c' : Client D) → Keeps c c' → Keeps c (if not b then c else c')
open_simple-Keeps true c c' h = h
open_simple-Keeps false c c' h = refl

after_log-Keeps :
    {D : Type 0} (c : Client D) (r : Client D × Outcome) → IsRun c r → Keeps c (after_log r)
unfolding after_log mysql_stmt_close
after_log-Keeps c (c', unprepared) h = h
after_log-Keeps c (c', refused error_number) h = h
after_log-Keeps c (c', executed reply) h = omega arith

insert_log-Keeps :
    {D : Type 0} (server : Server D) (access : Access) (c : Client D) (level : LogLevel)
    (message : Bytes)
    → Keeps c (insert_log server access c level message)
unfolding insert_log
insert_log-Keeps server in_memory c level message = refl
insert_log-Keeps server unavailable c level message = refl
insert_log-Keeps server available c level message =
    after_log-Keeps c _ (run_statement-IsRun server _ _ c)

module _ {D : Type 0} (server : Server D) (pbkdf2 : Bytes → ℕ → Bytes → Option Bytes) where
  -- Whatever the server answers to a call, and whichever early return is taken: each operation of
  -- the four stores and of the logger leaves as many statements open as there were, so it closes
  -- those that it makes.
  pub stores-ClosesStatements : ClosesStatements server pbkdf2
  unfolding open_group_store open_member_store open_user_store execute_query open_logger write
  stores-ClosesStatements = record {
    by_open_message_store = open_message_store-Keeps server;
    by_append = append-Keeps server;
    by_direct_history = direct_history-Keeps server;
    by_group_history = group_history-Keeps server;
    by_direct_history_page = direct_page-Keeps server;
    by_group_history_page = group_page-Keeps server;
    by_unread_page = unread_page-Keeps server;
    by_open_group_store = λ b c. open_simple-Keeps b c _ refl;
    by_create_group = create_group-Keeps server;
    by_find_group = find_group-Keeps server;
    by_group_exists = group_exists-Keeps server;
    by_open_member_store = λ b c. open_simple-Keeps b c _ refl;
    by_join_group = join_group-Keeps server;
    by_leave_group = leave_group-Keeps server;
    by_is_group_member = is_group_member-Keeps server;
    by_load_group_members = load_group_members-Keeps server;
    by_load_user_groups = load_user_groups-Keeps server;
    by_open_user_store = λ b c. open_simple-Keeps b c _ refl;
    by_find_user_by_username = find_user_by_username-Keeps server;
    by_find_user_by_id = find_user_by_id-Keeps server;
    by_register_user = register_user-Keeps server pbkdf2;
    by_verify_login = verify_login-Keeps server pbkdf2;
    by_open_logger = λ b c. open_simple-Keeps b c _ refl;
    by_write = λ access now log. insert_log-Keeps server access log.client;
  }
