-- ===== src/Protocol/Json/Object.antt =====
-- `parse_json_object` reads back every object that the field writers make.
use cpp_chat.Base.{
  ℕ, ◌<◌, ◌^◌, true, false, List, [], ◌∷◌, ◌++◌, ◌≡◌, refl, sym, ap, ◌∙◌, arith, append_assoc,
  if◌then◌else◌, Bytes, codes, length, string_eq,
}
use cpp_chat.Base.Maps.{insert}
use cpp_chat.Protocol.Result.{ok, ◌>>=◌}
use cpp_chat.Protocol.Format.{
  json_string_field, json_number_field, json_bool_field, escape_json, decimal,
}
use cpp_chat.Protocol.Json.Escape.{parse_string-escape_json}
use cpp_chat.Protocol.Json.Number.{parse_number-decimal, decimal_head}
use cpp_chat.Protocol.Json.Shrink.{parse_members_lem, after_member}
use cpp_chat.Protocol.Json.{
  JsonValue, string, number, bool, JsonObject, skip_ws, take_char, expect_char, parse_string,
  parse_number, parse_bool, has_prefix, string_value, number_value, bool_value, value_at,
  parse_value, member_end, parse_member, parse_members, end_of_text, is_digit, parse_json_object,
}

-- A field, by the writer for its value.
unfoldable pub field_text : Bytes → JsonValue → Bytes
field_text name (string s) = json_string_field name s
field_text name (number n) = json_number_field name n
field_text name (bool b) = json_bool_field name b

-- The text of a value.
pub value_text : JsonValue → Bytes
value_text (string s) = b'"' ∷ (escape_json s ++ b'"' ∷ [])
value_text (number n) = decimal n
value_text (bool b) = if b then codes "true" else codes "false"

-- A name that needs no escapes, and a number of 64 bits.
abbrev pub IsPlain : Bytes → Type 0
IsPlain name = escape_json name ≡ name

abbrev pub IsWord64 : JsonValue → Type 0
IsWord64 (string s) = Unit
IsWord64 (number n) = n < 2 ^ 64
IsWord64 (bool b) = Unit

field_text-value_text :
    (name : Bytes) (v : JsonValue) (rest : Bytes)
    → field_text name v ++ rest ≡ b'"' ∷ (name ++ (b'"' ∷ b':' ∷ (value_text v ++ rest)))
unfolding field_text value_text json_string_field json_number_field json_bool_field
field_text-value_text name (string s) rest = simp append_assoc
field_text-value_text name (number n) rest = simp append_assoc
field_text-value_text name (bool b) rest = simp append_assoc

string_value_ok :
    (input s rest : Bytes)
    → parse_string input ≡ ok (s, rest)
    → string_value input ≡ ok (string s, rest)
unfolding string_value
string_value_ok input s rest e = ap (λ m. m >>= λ p. ok (string p.0, p.1)) e

number_value_ok :
    (input : Bytes) (n : ℕ) (rest : Bytes)
    → parse_number input ≡ ok (n, rest)
    → number_value input ≡ ok (number n, rest)
unfolding number_value
number_value_ok input n rest e = ap (λ m. m >>= λ p. ok (number p.0, p.1)) e

-- A text with a digit in front is read as a number.
parse_value_digit :
    (c : ℕ) (input : Bytes)
    → is_digit c ≡ true
    → parse_value (skip_ws (c ∷ input)) ≡ number_value (c ∷ input)
unfolding skip_ws parse_value value_at
parse_value_digit c input d = ground arith

parse_value-value_text :
    (v : JsonValue) (c : ℕ) (rest : Bytes)
    → IsWord64 v
    → is_digit c ≡ false
    → parse_value (skip_ws (value_text v ++ (c ∷ rest))) ≡ ok (v, c ∷ rest)
unfolding value_text
parse_value-value_text (string s) c rest w d = rw (append_assoc (escape_json s)) (
    unfold skip_ws parse_value value_at in
    string_value_ok _ s (c ∷ rest) (parse_string-escape_json s (c ∷ rest)))
parse_value-value_text (number n) c rest w d =
    let (first, tail, head, digit) = decimal_head n in
    let read = parse_number-decimal n (c ∷ rest) w (rw d) in
    rw head (
      parse_value_digit first (tail ++ (c ∷ rest)) digit
      ∙ number_value_ok _ n (c ∷ rest) (rw head at read))
parse_value-value_text (bool true) c rest w d =
    unfold skip_ws parse_value value_at bool_value parse_bool has_prefix in refl
parse_value-value_text (bool false) c rest w d =
    unfold skip_ws parse_value value_at bool_value parse_bool has_prefix in refl

-- A round on a field reads its name and value, and goes on with what follows.
parse_member-field_text :
    (object : JsonObject) (name : Bytes) (v : JsonValue) (c : ℕ) (rest : Bytes)
    → IsPlain name
    → IsWord64 v
    → is_digit c ≡ false
    → parse_member object (field_text name v ++ (c ∷ rest))
      ≡ member_end (insert name v object) (skip_ws (c ∷ rest))
unfolding parse_member
parse_member-field_text object name v c rest plain w d =
    let value = value_text v ++ (c ∷ rest) in
    let name_read : parse_string (b'"' ∷ (name ++ (b'"' ∷ b':' ∷ value)))
        ≡ ok (name, b':' ∷ value) =
      rw plain at (parse_string-escape_json name (b':' ∷ value)) in
    ap (parse_member object) (field_text-value_text name v (c ∷ rest))
    ∙ ap
        (λ m. m >>= λ p. expect_char b':' p.1 >>= λ after.
          parse_value (skip_ws after) >>= λ q. member_end (insert p.0 q.0 object) (skip_ws q.1))
        name_read
    ∙ unfold expect_char take_char skip_ws in
      ap (λ m. m >>= λ q. member_end (insert name q.0 object) (skip_ws q.1))
        (parse_value-value_text v c rest w d)

-- The text behind the first field: the others, and the closing brace.
unfoldable pub tail_text : List (Bytes × JsonValue) → Bytes
tail_text [] = b'}' ∷ []
tail_text ((name, v) ∷ fields) = b',' ∷ (field_text name v ++ tail_text fields)

abbrev pub insert_all : JsonObject → List (Bytes × JsonValue) → JsonObject
insert_all object [] = object
insert_all object ((name, v) ∷ fields) = insert_all (insert name v object) fields

abbrev pub AreFields : List (Bytes × JsonValue) → Type 0
AreFields [] = Unit
AreFields ((name, v) ∷ fields) = IsPlain name × IsWord64 v × AreFields fields

unfoldable pub object_text : List (Bytes × JsonValue) → Bytes
object_text [] = b'{' ∷ b'}' ∷ []
object_text ((name, v) ∷ fields) = b'{' ∷ (field_text name v ++ tail_text fields)

after_comma :
    (object : JsonObject) (text : Bytes)
    → after_member (member_end object (skip_ws (b',' ∷ text)))
      ≡ parse_members (length text) object text
unfolding member_end skip_ws
after_comma object text = refl

parse_members-fields :
    (object : JsonObject) (name : Bytes) (v : JsonValue) (fields : List (Bytes × JsonValue))
    → AreFields ((name, v) ∷ fields)
    → let text = field_text name v ++ tail_text fields in
      parse_members (length text) object text ≡ ok (insert_all object ((name, v) ∷ fields))
unfolding tail_text
parse_members-fields object name v [] (plain, w, _) =
    parse_members_lem object (field_text name v ++ (b'}' ∷ []))
    ∙ ap after_member (parse_member-field_text object name v b'}' [] plain w refl)
    ∙ unfold skip_ws member_end end_of_text in refl
parse_members-fields object name v ((name', v') ∷ fields) (plain, w, rest) =
    let text = field_text name' v' ++ tail_text fields in
    parse_members_lem object (field_text name v ++ (b',' ∷ text))
    ∙ ap after_member (parse_member-field_text object name v b',' text plain w refl)
    ∙ after_comma (insert name v object) text
    ∙ parse_members-fields (insert name v object) name' v' fields rest

object_quote :
    (text : Bytes)
    → parse_json_object (b'{' ∷ b'"' ∷ text) ≡ parse_members (length (b'"' ∷ text)) [] (b'"' ∷ text)
unfolding parse_json_object
object_quote text = refl

-- Reading back an object whose names need no escapes and whose numbers have 64 bits gives each name
-- its last value.
pub parse_json_object-object_text :
    (fields : List (Bytes × JsonValue))
    → AreFields fields
    → parse_json_object (object_text fields) ≡ ok (insert_all [] fields)
unfolding object_text
parse_json_object-object_text [] h = unfold parse_json_object in refl
parse_json_object-object_text ((name, v) ∷ fields) h =
    let text = name ++ (b'"' ∷ b':' ∷ (value_text v ++ tail_text fields)) in
    let quoted = field_text-value_text name v (tail_text fields) in
    ap (λ t. parse_json_object (b'{' ∷ t)) quoted
    ∙ object_quote text
    ∙ ap (λ t. parse_members (length t) [] t) (sym quoted)
    ∙ parse_members-fields [] name v fields h
