-- ===== src/Protocol/Command/Requests.antt =====
-- The requests that message.h documents, and the commands that they are read as.
use cpp_chat.Base.{
  ℕ, ◌<◌, ◌^◌, min, List, [], ◌∷◌, ◌++◌, ◌≡◌, ◌≢◌, refl, ap, ◌∙◌, arith, append_assoc, Bytes, codes,
  true, Option, some, none, bytes_eq,
}
use cpp_chat.Base.Maps.{lookup, insert}
use cpp_chat.Protocol.Message.{MessageType, ClientCommand, default_command}
use cpp_chat.Protocol.Result.{ok, ◌>>=◌}
use cpp_chat.Protocol.Format.{escape_json}
use cpp_chat.Protocol.Json.{
  JsonValue, string, number, parse_json_object, trim_trailing_cr, get_string,
}
use cpp_chat.Protocol.Json.Object.{
  object_text, tail_text, field_text, insert_all, AreFields, parse_json_object-object_text,
}
use cpp_chat.Protocol.Command.{parse_client_command, command_of}

-- An optional number: the field may be left out.
pub data Request : Type 0 where
  register login : Bytes → Bytes → Request
  logout ping : Request
  dm : Bytes → Bytes → Request
  create_group : Bytes → Request
  join_group leave_group : ℕ → Request
  group_message : ℕ → Bytes → Request
  history : Bytes → Option ℕ → Option ℕ → Request
  group_history : ℕ → Option ℕ → Option ℕ → Request
  unread : Option ℕ → Option ℕ → Request

abbrev optional : Bytes → Option ℕ → List (Bytes × JsonValue)
optional name none = []
optional name (some n) = (name, number n) ∷ []

abbrev type_field : Bytes → Bytes × JsonValue
type_field type = (codes "type", string type)

abbrev pub request_fields : Request → List (Bytes × JsonValue)
request_fields (register username password) =
    type_field (codes "register")
    ∷ (codes "username", string username)
    ∷ (codes "password", string password)
    ∷ []
request_fields (login username password) =
    type_field (codes "login")
    ∷ (codes "username", string username)
    ∷ (codes "password", string password)
    ∷ []
request_fields logout = type_field (codes "logout") ∷ []
request_fields ping = type_field (codes "ping") ∷ []
request_fields (dm to body) =
    type_field (codes "dm") ∷ (codes "to", string to) ∷ (codes "body", string body) ∷ []
request_fields (create_group name) =
    type_field (codes "create_group") ∷ (codes "name", string name) ∷ []
request_fields (join_group group_id) =
    type_field (codes "join_group") ∷ (codes "group_id", number group_id) ∷ []
request_fields (leave_group group_id) =
    type_field (codes "leave_group") ∷ (codes "group_id", number group_id) ∷ []
request_fields (group_message group_id body) =
    type_field (codes "group_message")
    ∷ (codes "group_id", number group_id)
    ∷ (codes "body", string body)
    ∷ []
request_fields (history peer limit before_id) =
    type_field (codes "history")
    ∷ (codes "peer", string peer)
    ∷ (optional (codes "limit") limit ++ optional (codes "before_id") before_id)
request_fields (group_history group_id limit before_id) =
    type_field (codes "group_history")
    ∷ (codes "group_id", number group_id)
    ∷ (optional (codes "limit") limit ++ optional (codes "before_id") before_id)
request_fields (unread last_seen limit) =
    type_field (codes "unread")
    ∷ (optional (codes "last_seen_message_id") last_seen ++ optional (codes "limit") limit)

abbrev or_default : Option ℕ → ℕ → ℕ
or_default none n = n
or_default (some m) n = m

-- The command that each request stands for.
abbrev pub request_command : Request → ClientCommand
request_command (register username password) = record default_command {
  type = MessageType.register;
  username = username;
  password = password;
}
request_command (login username password) = record default_command {
  type = MessageType.login;
  username = username;
  password = password;
}
request_command logout = record default_command { type = MessageType.logout }
request_command ping = record default_command { type = MessageType.ping }
request_command (dm to body) = record default_command {
  type = MessageType.direct_chat;
  target_username = to;
  body = body;
}
request_command (create_group name) = record default_command {
  type = MessageType.create_group;
  group_name = name;
}
request_command (join_group group_id) = record default_command {
  type = MessageType.group_join;
  group_id = group_id;
  receiver_id = group_id;
}
request_command (leave_group group_id) = record default_command {
  type = MessageType.group_leave;
  group_id = group_id;
  receiver_id = group_id;
}
request_command (group_message group_id body) = record default_command {
  type = MessageType.group_chat;
  group_id = group_id;
  receiver_id = group_id;
  body = body;
}
request_command (history peer limit before_id) = record default_command {
  type = MessageType.history_query;
  target_username = peer;
  limit = min (or_default limit 20) 100;
  before_id = or_default before_id 0;
}
request_command (group_history group_id limit before_id) = record default_command {
  type = MessageType.history_query;
  group_history = true;
  group_id = group_id;
  receiver_id = group_id;
  limit = min (or_default limit 20) 100;
  before_id = or_default before_id 0;
}
request_command (unread last_seen limit) = record default_command {
  type = MessageType.unread_query;
  last_seen_message_id = or_default last_seen 0;
  limit = min (or_default limit 20) 100;
}

abbrev IsWord : Option ℕ → Type 0
IsWord none = Unit
IsWord (some n) = n < 2 ^ 64

-- The texts that must be there are, and the numbers have 64 bits.
abbrev pub IsRequest : Request → Type 0
IsRequest (register username password) = (username ≢ []) × (password ≢ [])
IsRequest (login username password) = (username ≢ []) × (password ≢ [])
IsRequest logout = Unit
IsRequest ping = Unit
IsRequest (dm to body) = (to ≢ []) × (body ≢ [])
IsRequest (create_group name) = name ≢ []
IsRequest (join_group group_id) = group_id < 2 ^ 64
IsRequest (leave_group group_id) = group_id < 2 ^ 64
IsRequest (group_message group_id body) = (group_id < 2 ^ 64) × (body ≢ [])
IsRequest (history peer limit before_id) = (peer ≢ []) × IsWord limit × IsWord before_id
IsRequest (group_history group_id limit before_id) =
    (group_id < 2 ^ 64) × IsWord limit × IsWord before_id
IsRequest (unread last_seen limit) = IsWord last_seen × IsWord limit

request-AreFields : (q : Request) → IsRequest q → AreFields (request_fields q)
unfolding escape_json
request-AreFields (register u p) h = ground arith
request-AreFields _ h = ground arith

-- The closing brace is no carriage return.
trim_brace : (text : Bytes) → trim_trailing_cr (text ++ b'}' ∷ []) ≡ text ++ b'}' ∷ []
unfolding trim_trailing_cr
trim_brace [] = refl
trim_brace (c ∷ []) = refl
trim_brace (c ∷ d ∷ text) = ap (◌∷◌ c) (trim_brace (d ∷ text))

tail_brace :
    (fields : List (Bytes × JsonValue)) → (text : Bytes) × (tail_text fields ≡ text ++ b'}' ∷ [])
unfolding tail_text
tail_brace [] = ([], refl)
tail_brace ((name, v) ∷ fields) =
    let (text, e) = tail_brace fields in (b',' ∷ (field_text name v ++ text), rw (e, append_assoc))

trim-object_text :
    (fields : List (Bytes × JsonValue)) → trim_trailing_cr (object_text fields) ≡ object_text fields
unfolding object_text
trim-object_text [] = unfold trim_trailing_cr in refl
trim-object_text ((name, v) ∷ fields) =
    let (text, e) = tail_brace fields in
    rw (e, ← append_assoc) (trim_brace (b'{' ∷ (field_text name v ++ text)))

request_read :
    (q : Request)
    → IsRequest q
    → (get_string (insert_all [] (request_fields q)) (codes "type") >>= λ type.
        command_of type (insert_all [] (request_fields q)))
      ≡ ok (request_command q)
unfolding get_string command_of lookup insert bytes_eq
request_read (register [] password) h = ground arith
request_read (register (x ∷ username) []) h = ground arith
request_read (register (x ∷ username) (y ∷ password)) h = refl
request_read (login [] password) h = ground arith
request_read (login (x ∷ username) []) h = ground arith
request_read (login (x ∷ username) (y ∷ password)) h = refl
request_read logout h = refl
request_read ping h = refl
request_read (dm [] body) h = ground arith
request_read (dm (x ∷ to) []) h = ground arith
request_read (dm (x ∷ to) (y ∷ body)) h = refl
request_read (create_group []) h = ground arith
request_read (create_group (x ∷ name)) h = refl
request_read (join_group group_id) h = refl
request_read (leave_group group_id) h = refl
request_read (group_message group_id []) h = ground arith
request_read (group_message group_id (x ∷ body)) h = refl
request_read (history [] limit before_id) h = ground arith
request_read (history (x ∷ peer) none none) h = refl
request_read (history (x ∷ peer) (some n) none) h = refl
request_read (history (x ∷ peer) none (some m)) h = refl
request_read (history (x ∷ peer) (some n) (some m)) h = refl
request_read (group_history group_id none none) h = refl
request_read (group_history group_id (some n) none) h = refl
request_read (group_history group_id none (some m)) h = refl
request_read (group_history group_id (some n) (some m)) h = refl
request_read (unread none none) h = refl
request_read (unread (some n) none) h = refl
request_read (unread none (some m)) h = refl
request_read (unread (some n) (some m)) h = refl

-- A request in the documented form, whose required texts are not empty and whose numbers have 64
-- bits, is read as the command that it stands for, whatever bytes its texts hold.
pub parse_client_command-Request :
    (q : Request)
    → IsRequest q
    → parse_client_command (object_text (request_fields q)) ≡ ok (request_command q)
unfolding parse_client_command
parse_client_command-Request q h =
    ap
      (λ t. parse_json_object t >>= λ object.
        get_string object (codes "type") >>= λ type. command_of type object)
      (trim-object_text (request_fields q))
    ∙ ap (λ m. m >>= λ object. get_string object (codes "type") >>= λ type. command_of type object)
        (parse_json_object-object_text (request_fields q) (request-AreFields q h))
    ∙ request_read q h
