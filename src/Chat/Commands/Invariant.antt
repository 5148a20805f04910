-- ===== src/Chat/Commands/Invariant.antt =====
-- Each command leaves the sessions, the users and the group members well formed.
use cpp_chat.Base.{
  ℕ, ◌+◌, ◌<◌, ◌^◌, ◌≡◌, refl, false, Option, none, some, inl, inr, Bytes, Bool-cases, is_some,
}
use cpp_chat.Protocol.Message.{ClientCommand}
use cpp_chat.Session.{Session, SessionManager, is_username_online, find_by_connection}
use cpp_chat.Session.Consistency
use cpp_chat.Session.Methods
use cpp_chat.Storage.Users.{UserRecord, verify_login}
use cpp_chat.Storage.Users.Laws
use cpp_chat.Storage.Members.Laws.{IsWellFormed, join_group-IsWellFormed, leave_group-IsWellFormed}
use cpp_chat.Chat.Commands.{
  ChatService, register, login, log_in, logout, create_group, group_join, group_leave, group_chat,
  history_query, group_history, with_peer, direct_chat, send_direct,
}

pub record IsConsistent (s : ChatService) : Type 0 where
  pub sessions : cpp_chat.Session.Consistency.IsConsistent s.sessions
  pub users : cpp_chat.Storage.Users.Laws.IsConsistent s.user_store
  pub members : IsWellFormed s.group_member_store

pub register-IsConsistent :
    (pbkdf2 : Bytes → ℕ → Bytes → Option Bytes) (s : ChatService) (salt : Option Bytes)
    (connection_id : ℕ) (command : ClientCommand)
    → IsConsistent s
    → s.user_store.next_memory_id + 1 < 2 ^ 64
    → IsConsistent (register pbkdf2 s salt connection_id command).0
unfolding register
register-IsConsistent pbkdf2 s salt connection_id command v room =
    elim (Bool-cases (is_some (find_by_connection s.sessions connection_id))) [
      | inl e ↦ rw e v
      | inr e ↦
          rw e
            (elim (Bool-cases
              (cpp_chat.Storage.Users.register_user pbkdf2 s.user_store salt command.username
                command.password).1.success) [
                  | inl e' ↦ rw e' (record {
                    sessions = v.sessions;
                    users =
                        cpp_chat.Storage.Users.Laws.register_user-IsConsistent pbkdf2 s.user_store
                          salt command.username command.password v.users room;
                    members = v.members;
                  })
                  | inr e' ↦ rw e' (record {
                    sessions = v.sessions;
                    users =
                        cpp_chat.Storage.Users.Laws.register_user-IsConsistent pbkdf2 s.user_store
                          salt command.username command.password v.users room;
                    members = v.members;
                  })
                ])
    ]

log_in-IsConsistent :
    (pbkdf2 : Bytes → ℕ → Bytes → Option Bytes) (s : ChatService) (connection_id : ℕ)
    (o : Option UserRecord)
    → IsConsistent s
    → ((user : UserRecord) → o ≡ some user → is_username_online s.sessions user.username ≡ false)
    → IsConsistent (log_in pbkdf2 s connection_id o).0
unfolding log_in
log_in-IsConsistent pbkdf2 s connection_id none v free = v
log_in-IsConsistent pbkdf2 s connection_id (some user) v free =
    let session : Session = record {
      user_id = user.id;
      connection_id = connection_id;
      username = user.username;
    } in
    record {
      sessions = cpp_chat.Session.Methods.bind-IsConsistent s.sessions session v.sessions (
          cpp_chat.Session.Methods.offline-IsNameFree s.sessions session v.sessions
            (free user refl));
      users = v.users;
      members = v.members;
    }

pub login-IsConsistent :
    (pbkdf2 : Bytes → ℕ → Bytes → Option Bytes) (s : ChatService) (connection_id : ℕ)
    (command : ClientCommand)
    → IsConsistent s
    → IsConsistent (login pbkdf2 s connection_id command).0
unfolding login
login-IsConsistent pbkdf2 s connection_id command v =
    elim (Bool-cases (is_some (find_by_connection s.sessions connection_id))) [
      | inl e ↦ rw e v
      | inr e ↦ rw e (elim (Bool-cases (is_username_online s.sessions command.username)) [
        | inl e' ↦ rw e' v
        | inr e' ↦ rw e' (
            log_in-IsConsistent pbkdf2 s connection_id _ v (λ user found.
              rw
                (cpp_chat.Storage.Users.Laws.verify_login-username pbkdf2 s.user_store
                  command.username command.password user v.users found)
                e'))
      ])
    ]

pub logout-IsConsistent :
    (s : ChatService) (connection_id : ℕ) → IsConsistent s → IsConsistent (logout s connection_id).0
unfolding logout
logout-IsConsistent s connection_id v = record {
  sessions =
      cpp_chat.Session.Methods.unbind_connection-IsConsistent s.sessions connection_id v.sessions;
  users = v.users;
  members = v.members;
}

module _ (s : ChatService) (connection_id : ℕ) (sender : Session) (command : ClientCommand)
    (v : IsConsistent s) where
  pub create_group-IsConsistent : IsConsistent (create_group s connection_id sender command).0
  unfolding create_group
  create_group-IsConsistent =
      let (groups, result) =
        cpp_chat.Storage.Groups.create_group s.group_store command.group_name sender.user_id in
      elim (Bool-cases
        (cpp_chat.Storage.Groups.create_group s.group_store command.group_name
          sender.user_id).1.success) [
            | inl e ↦ rw e (record {
              sessions =
                  cpp_chat.Session.Methods.join_group-IsConsistent s.sessions result.group.id
                    sender.user_id v.sessions;
              users = v.users;
              members =
                  join_group-IsWellFormed s.group_member_store result.group.id sender.user_id
                    v.members;
            })
            | inr e ↦ rw e (record { sessions = v.sessions; users = v.users; members = v.members })
          ]

  pub group_join-IsConsistent : IsConsistent (group_join s connection_id sender command).0
  unfolding group_join cpp_chat.Storage.Members.join_group
  group_join-IsConsistent = record {
    sessions =
        cpp_chat.Session.Methods.join_group-IsConsistent s.sessions command.group_id sender.user_id
          v.sessions;
    users = v.users;
    members =
        join_group-IsWellFormed s.group_member_store command.group_id sender.user_id v.members;
  }

  pub group_leave-IsConsistent : IsConsistent (group_leave s connection_id sender command).0
  unfolding group_leave
  group_leave-IsConsistent =
      elim (Bool-cases
        (cpp_chat.Storage.Members.leave_group s.group_member_store command.group_id
          sender.user_id).1.success) [
            | inl e ↦ rw e (record {
              sessions =
                  cpp_chat.Session.Methods.leave_group-IsConsistent s.sessions command.group_id
                    sender.user_id v.sessions;
              users = v.users;
              members =
                  leave_group-IsWellFormed s.group_member_store command.group_id sender.user_id
                    v.members;
            })
            | inr e ↦ rw e (record {
              sessions = v.sessions;
              users = v.users;
              members =
                  leave_group-IsWellFormed s.group_member_store command.group_id sender.user_id
                    v.members;
            })
          ]

  pub group_chat-IsConsistent : IsConsistent (group_chat s connection_id sender command).0
  unfolding group_chat
  group_chat-IsConsistent =
      elim (Bool-cases (
        cpp_chat.Storage.Members.is_group_member s.group_member_store command.group_id
          sender.user_id)) [
            | inl e ↦ rw e (record { sessions = v.sessions; users = v.users; members = v.members })
            | inr e ↦ rw e v
          ]

  send_direct-IsConsistent :
      (o : Option UserRecord) → IsConsistent (send_direct s connection_id sender command o).0
  unfolding send_direct
  send_direct-IsConsistent none = v
  send_direct-IsConsistent (some receiver) = record {
    sessions = v.sessions;
    users = v.users;
    members = v.members;
  }

  pub direct_chat-IsConsistent : IsConsistent (direct_chat s connection_id sender command).0
  unfolding direct_chat
  direct_chat-IsConsistent = send_direct-IsConsistent _

  with_peer-IsConsistent :
      (o : Option UserRecord) → IsConsistent (with_peer s connection_id sender command o).0
  unfolding with_peer
  with_peer-IsConsistent none = v
  with_peer-IsConsistent (some peer) = v

  group_history-IsConsistent : IsConsistent (group_history s connection_id sender command).0
  unfolding group_history
  group_history-IsConsistent =
      elim (Bool-cases (
        cpp_chat.Storage.Members.is_group_member s.group_member_store command.group_id
          sender.user_id)) [ inl e ↦ rw e v | inr e ↦ rw e v ]

  pub history_query-IsConsistent : IsConsistent (history_query s connection_id sender command).0
  unfolding history_query
  history_query-IsConsistent = elim (Bool-cases command.group_history) [
    | inl e ↦ rw e group_history-IsConsistent
    | inr e ↦ rw e (with_peer-IsConsistent _)
  ]
