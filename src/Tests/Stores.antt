-- ===== src/Tests/Stores.antt =====
-- Two messages, a group of two members, and a user with a stand-in for `PKCS5_PBKDF2_HMAC`.
use cpp_chat.Base.{
  ℕ, ◌≡◌, ◌≢◌, ◌↔◌, refl, [], ◌∷◌, Option, some, none, true, arith, if◌then◌else◌, Bytes, codes,
  is_some, take, reverse, nat_eq, string_eq, ltb,
}
use cpp_chat.Base.Maps.{lookup}
use cpp_chat.Protocol.Message.{MessageType}
use cpp_chat.Storage.Messages.{
  MessageStore, is_between, is_unread, page_size, direct_history_page, unread_page,
}
use cpp_chat.Storage.Messages.Pages.{
  older, newer, numbered, direct_history_page-older, unread_page-newer,
}
use cpp_chat.Storage.Members.{GroupMemberStore}
use cpp_chat.Storage.Groups.{GroupStore, find_group, IsFresh}
use cpp_chat.Storage.Users.{UserStore, UserRecord, register_user, verify_login}
use cpp_chat.Storage.Users.Laws.{IsConsistent, verify_login-register_user}
use cpp_chat.Storage.Users.Password.{pbkdf2_iterations, hash_password_pbkdf2}
use cpp_chat.Storage.Users.Password.Verify.{AreBytes}

abbrev two_messages : MessageStore
two_messages = record {
  messages =
      (record { type = MessageType.direct_chat; sender_id = 1; receiver_id = 2; body = codes "hi" })
      ∷ (record {
        type = MessageType.group_chat;
        sender_id = 2;
        receiver_id = 5;
        body = codes "all";
      })
      ∷ [];
}

direct_history_page-older_example :
    direct_history_page two_messages 1 2 10 0
    ≡ take (page_size 10) (reverse (older (is_between 1 2) 0 (numbered 0 two_messages.messages)))
direct_history_page-older_example = direct_history_page-older two_messages 1 2 10 0

unread_page-newer_example :
    unread_page two_messages 1 (5 ∷ []) 1 10
    ≡ take (page_size 10) (newer (is_unread 1 (5 ∷ [])) 1 (numbered 0 two_messages.messages))
unread_page-newer_example = unread_page-newer two_messages 1 (5 ∷ []) 1 10

abbrev two_members : GroupMemberStore
two_members = record { memory_members = (5, 2 ∷ 1 ∷ []) ∷ [] }

abbrev no_groups : GroupStore
no_groups = record { memory_groups = []; next_group_id = 1 }

no_groups-IsFresh : IsFresh no_groups
unfolding find_group lookup
no_groups-IsFresh = λ g h. absurd (ground arith)

-- It gives every password a hash of one byte, that of the password's first letter.
abbrev pub first_letter : Bytes → ℕ → Bytes → Option Bytes
first_letter [] iterations salt = none
first_letter (c ∷ password) iterations salt = if ltb c 256 then some (c ∷ []) else none

pub first_letter-AreBytes :
    (password salt hash : Bytes)
    → first_letter password pbkdf2_iterations salt ≡ some hash
    → AreBytes hash × (hash ≢ [])
first_letter-AreBytes [] salt hash h = absurd (cc)
first_letter-AreBytes (c ∷ password) salt hash h = ground arith

abbrev pub salt_bytes : Bytes
salt_bytes = 171 ∷ 5 ∷ []

pub salt-AreBytes : AreBytes salt_bytes
salt-AreBytes = (omega arith, (omega arith, tt))

abbrev pub no_users : UserStore
no_users = record { users_by_username = []; usernames_by_id = []; next_memory_id = 1 }

no_users-IsConsistent : IsConsistent no_users
unfolding lookup
no_users-IsConsistent = record { named = λ n r h. absurd (cc); numbered = λ i n h. absurd (cc) }

abbrev one_user_store : UserStore
unfolding register_user
one_user_store =
    (register_user first_letter no_users (some salt_bytes) (codes "alice") (codes "secret")).0

abbrev alice_record : UserRecord
alice_record = record {
  id = 1;
  username = codes "alice";
  password_hash = hash_password_pbkdf2 first_letter (some salt_bytes) (codes "secret");
}

verify_login-register_user_example :
    (is_some (verify_login first_letter one_user_store (codes "alice") (codes "guess")) ≡ true)
    ↔ (first_letter (codes "guess") pbkdf2_iterations salt_bytes ≡ some (codes "s"))
unfolding one_user_store register_user hash_password_pbkdf2 lookup
verify_login-register_user_example =
    verify_login-register_user first_letter no_users salt_bytes (codes "alice") (codes "secret")
      (codes "guess") (codes "s") first_letter-AreBytes salt-AreBytes (λ e. cc) refl refl
