-- ===== src/Protocol/Command/Validity.antt =====
-- What `ChatService` may rely on in a command that `parse_client_command` accepts.
use cpp_chat.Base.{
  ℕ, ◌≤◌, ◌≡◌, ◌≢◌, refl, sym, subst, if◌then◌else◌, List, ◌∷◌, [], arith, bytes_eq, Bytes, codes,
  Bool, true, false, min, ◌||◌, not, is_empty,
}
use cpp_chat.Protocol.Message.{MessageType, ClientCommand}
use cpp_chat.Protocol.Result.{Parsed, ok, err, ◌>>=◌, ◌>>◌, guard}
use cpp_chat.Protocol.Json.{
  JsonObject, parse_json_object, trim_trailing_cr, get_string, get_uint64, get_uint64_or,
}
use cpp_chat.Protocol.Command.{
  parse_client_command, command_of, credentials, direct_message, create_group, membership,
  group_message, page_limit, history, group_history, unread,
}

-- By type: the texts that are there, and the page sizes.
abbrev pub IsComplete : MessageType → ClientCommand → Type 0
IsComplete MessageType.register c = (c.username ≢ []) × (c.password ≢ [])
IsComplete MessageType.login c = (c.username ≢ []) × (c.password ≢ [])
IsComplete MessageType.direct_chat c = (c.target_username ≢ []) × (c.body ≢ [])
IsComplete MessageType.create_group c = c.group_name ≢ []
IsComplete MessageType.group_chat c = c.body ≢ []
IsComplete MessageType.history_query c =
    (c.limit ≤ 100) × (c.group_history ≡ false → c.target_username ≢ [])
IsComplete MessageType.unread_query c = c.limit ≤ 100
IsComplete MessageType.system c = ⊥
IsComplete _ c = Unit

-- The same of a result.
unfoldable Accepts : Parsed ClientCommand → Type 0
Accepts (ok c) = IsComplete c.type c
Accepts (err e) = Unit

>>=-Accepts {ℓ} :
    {A : Type ℓ} (m : Parsed A) (f : A → Parsed ClientCommand)
    → ((a : A) → Accepts (f a))
    → Accepts (m >>= f)
unfolding Accepts
>>=-Accepts (ok a) f h = h a
>>=-Accepts (err e) f h = tt

guard-Accepts :
    (b : Bool) (e : Bytes) (c : ClientCommand)
    → (b ≡ true → IsComplete c.type c)
    → Accepts (guard b e >> ok c)
unfolding Accepts
guard-Accepts true e c h = h refl
guard-Accepts false e c h = tt

both_present {ℓ} :
    {A : Type ℓ} (a b : List A) → not (is_empty a || is_empty b) ≡ true → (a ≢ []) × (b ≢ [])
both_present [] b h = ground arith
both_present (x ∷ a) [] h = ground arith
both_present (x ∷ a) (y ∷ b) h = ground arith

present {ℓ} : {A : Type ℓ} (a : List A) → not (is_empty a) ≡ true → a ≢ []
present [] h = ground arith
present (x ∷ a) h = ground arith

credentials-Accepts :
    (type : MessageType) (object : JsonObject)
    → ((c : ClientCommand)
        → c.username ≢ []
        → c.password ≢ []
        → c.type ≡ type
        → IsComplete c.type c)
    → Accepts (credentials type object)
unfolding credentials
credentials-Accepts type object complete =
    >>=-Accepts (get_string object (codes "username")) _ (λ username.
      >>=-Accepts (get_string object (codes "password")) _ (λ password.
        guard-Accepts (not (is_empty username || is_empty password)) _ _
          (λ e. let (u, p) = both_present username password e in complete _ u p refl)))

direct_message-Accepts : (object : JsonObject) → Accepts (direct_message object)
unfolding direct_message
direct_message-Accepts object = >>=-Accepts (get_string object (codes "to")) _ (λ to.
    >>=-Accepts (get_string object (codes "body")) _
      (λ body. guard-Accepts (not (is_empty to || is_empty body)) _ _ (both_present to body)))

create_group-Accepts : (object : JsonObject) → Accepts (create_group object)
unfolding create_group
create_group-Accepts object =
    >>=-Accepts (get_string object (codes "name")) _
      (λ name. guard-Accepts (not (is_empty name)) _ _ (present name))

group_message-Accepts : (object : JsonObject) → Accepts (group_message object)
unfolding group_message
group_message-Accepts object = >>=-Accepts (get_uint64 object (codes "group_id")) _ (λ group_id.
    >>=-Accepts (get_string object (codes "body")) _
      (λ body. guard-Accepts (not (is_empty body)) _ _ (present body)))

capped :
    (m : Parsed ℕ) (f : ℕ → Parsed ClientCommand)
    → ((limit : ℕ) → limit ≤ 100 → Accepts (f limit))
    → Accepts ((m >>= λ n. ok (min n 100)) >>= f)
unfolding Accepts
capped (ok n) f h = h (min n 100) (ground arith)
capped (err e) f h = tt

bounded_page :
    (object : JsonObject) (f : ℕ → Parsed ClientCommand)
    → ((limit : ℕ) → limit ≤ 100 → Accepts (f limit))
    → Accepts (page_limit object >>= f)
unfolding page_limit
bounded_page object = capped (get_uint64_or object (codes "limit") 20)

history-Accepts : (object : JsonObject) → Accepts (history object)
unfolding history
history-Accepts object = >>=-Accepts (get_string object (codes "peer")) _ (λ peer.
    bounded_page object _ (λ limit small.
      >>=-Accepts (get_uint64_or object (codes "before_id") 0) _
        (λ before_id. guard-Accepts (not (is_empty peer)) _ _ (λ e. (small, λ _. present peer e)))))

group_history-Accepts : (object : JsonObject) → Accepts (group_history object)
unfolding Accepts group_history
group_history-Accepts object = >>=-Accepts (get_uint64 object (codes "group_id")) _ (λ group_id.
    bounded_page object _ (λ limit small.
      >>=-Accepts (get_uint64_or object (codes "before_id") 0) _
        (λ before_id. (small, λ e. ground arith))))

unread-Accepts : (object : JsonObject) → Accepts (unread object)
unfolding Accepts unread
unread-Accepts object =
    >>=-Accepts (get_uint64_or object (codes "last_seen_message_id") 0) _
      (λ last_seen. bounded_page object _ (λ limit small. small))

membership-Accepts :
    (type : MessageType) (object : JsonObject)
    → ((c : ClientCommand) → c.type ≡ type → IsComplete c.type c)
    → Accepts (membership type object)
unfolding Accepts membership
membership-Accepts type object complete =
    >>=-Accepts (get_uint64 object (codes "group_id")) _ (λ group_id. complete _ refl)

if-Accepts :
    (b : Bool) (x y : Parsed ClientCommand) → Accepts x → Accepts y → Accepts (if b then x else y)
if-Accepts true x y h k = h
if-Accepts false x y h k = k

command_of-Accepts : (type : Bytes) (object : JsonObject) → Accepts (command_of type object)
unfolding Accepts command_of
command_of-Accepts type object =
    if-Accepts (bytes_eq type (codes "register")) _ _
      (credentials-Accepts MessageType.register object
        (λ c u p e. subst (λ t. IsComplete t c) (sym e) (u, p)))
      (if-Accepts (bytes_eq type (codes "login")) _ _
        (credentials-Accepts MessageType.login object
          (λ c u p e. subst (λ t. IsComplete t c) (sym e) (u, p)))
        (if-Accepts (bytes_eq type (codes "logout")) _ _ tt (
          if-Accepts (bytes_eq type (codes "ping")) _ _ tt (
            if-Accepts (bytes_eq type (codes "dm")) _ _ (direct_message-Accepts object) (
              if-Accepts (bytes_eq type (codes "create_group")) _ _ (create_group-Accepts object) (
                if-Accepts (bytes_eq type (codes "join_group")) _ _
                  (membership-Accepts MessageType.group_join object
                    (λ c e. subst (λ t. IsComplete t c) (sym e) tt))
                  (if-Accepts (bytes_eq type (codes "leave_group")) _ _
                    (membership-Accepts MessageType.group_leave object
                      (λ c e. subst (λ t. IsComplete t c) (sym e) tt))
                    (if-Accepts (bytes_eq type (codes "group_message")) _ _
                      (group_message-Accepts object)
                      (if-Accepts (bytes_eq type (codes "history")) _ _ (history-Accepts object) (
                        if-Accepts (bytes_eq type (codes "group_history")) _ _
                          (group_history-Accepts object)
                          (if-Accepts (bytes_eq type (codes "unread")) _ _ (unread-Accepts object)
                            tt)))))))))))

-- An accepted command names a known type and has what that type needs: both credentials, the
-- peer and the body of a direct message, the name of a group, the body of a group message, the
-- peer of a private history, and at most 100 messages for a page.
pub parse_client_command-IsComplete :
    (line : Bytes) (c : ClientCommand) → parse_client_command line ≡ ok c → IsComplete c.type c
unfolding Accepts parse_client_command
parse_client_command-IsComplete line c h = subst Accepts h (
    >>=-Accepts (parse_json_object (trim_trailing_cr line)) _ (λ object.
      >>=-Accepts (get_string object (codes "type")) _ (λ type. command_of-Accepts type object)))
