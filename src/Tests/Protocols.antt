-- ===== src/Tests/Protocols.antt =====
-- Texts with quotes, a request, and a reply.
use cpp_chat.Base.{◌≡◌, ◌≢◌, refl, List, [], ◌∷◌, ◌++◌, true, false, arith, Bytes, codes}
use cpp_chat.Protocol.Result.{ok}
use cpp_chat.Protocol.Message.{MessageType, ClientCommand, default_command}
use cpp_chat.Protocol.Format.{escape_json}
use cpp_chat.Protocol.Json.{JsonValue, string, number, parse_json_object}
use cpp_chat.Protocol.Json.Object.{object_text, insert_all, AreFields}
use cpp_chat.Protocol.Format.Objects.{message_ack, written, fields_of, parse_json_object-written}
use cpp_chat.Protocol.Command.{parse_client_command}
use cpp_chat.Protocol.Command.Requests.{request_fields, parse_client_command-Request, dm}
use cpp_chat.Protocol.Command.Validity.{parse_client_command-IsComplete}

-- "say \"hi\"", with a line end behind.
abbrev quoted : Bytes
quoted = codes "say " ++ (b'"' ∷ codes "hi" ++ b'"' ∷ b'\n' ∷ [])

dm_present : (codes "bob" ≢ []) × (quoted ≢ [])
dm_present = (λ e. cc, λ e. cc)

parse_client_command-Request_example :
    parse_client_command (object_text (request_fields (dm (codes "bob") quoted)))
    ≡ ok (record default_command {
      type = MessageType.direct_chat;
      target_username = codes "bob";
      body = quoted;
    })
parse_client_command-Request_example =
    parse_client_command-Request (dm (codes "bob") quoted) dm_present

abbrev dm_command : ClientCommand
dm_command = record default_command {
  type = MessageType.direct_chat;
  target_username = codes "bob";
  body = quoted;
}

dm_read :
    parse_client_command (object_text (request_fields (dm (codes "bob") quoted))) ≡ ok dm_command
dm_read = parse_client_command-Request (dm (codes "bob") quoted) dm_present

parse_client_command-IsComplete_example : (codes "bob" ≢ []) × (quoted ≢ [])
parse_client_command-IsComplete_example =
    parse_client_command-IsComplete (object_text (request_fields (dm (codes "bob") quoted)))
      dm_command dm_read

parse_json_object-written_example :
    parse_json_object (written (message_ack 3 true false))
    ≡ ok (insert_all [] (fields_of (message_ack 3 true false)))
parse_json_object-written_example =
    parse_json_object-written (message_ack 3 true false) (omega arith)

abbrev two_fields : List (Bytes × JsonValue)
two_fields = (codes "n", number 41) ∷ (codes "s", string quoted) ∷ []

two-AreFields : AreFields two_fields
unfolding escape_json
two-AreFields = (refl, omega arith, (refl, tt, tt))
