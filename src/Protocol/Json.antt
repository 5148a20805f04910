-- ===== src/Protocol/Json.antt =====
-- The JSON reader of message.cpp. A reader that the source writes over `input` and `pos` takes the
-- bytes from `pos` on and returns those that are left.
pub mod Shrink
pub mod Escape
pub mod Number
pub mod Object
use cpp_chat.Base.{
  ℕ, zero, suc, ◌+◌, ◌-◌, ◌*◌, ◌^◌, Bool, true, false, ◌&&◌, ◌||◌, not, List, [], ◌∷◌, ◌++◌, Option,
  none, some, ltb, leb, ◌==◌, if◌then◌else◌, Bytes, codes, length, drop, is_empty, string_eq,
}
use cpp_chat.Base.Maps.{insert, lookup}
use cpp_chat.Protocol.Result.{Parsed, ok, err, ◌>>=◌, ◌>>◌, guard}

-- The tagged struct `JsonValue`.
pub data JsonValue : Type 0 where
  string : Bytes → JsonValue
  number : ℕ → JsonValue
  bool : Bool → JsonValue

abbrev pub JsonObject : Type 0
JsonObject = List (Bytes × JsonValue)

-- `std::isspace` and `std::isdigit` in the "C" locale.
abbrev pub is_space : ℕ → Bool
is_space c = c == b' ' || (leb 9 c && leb c 13)

abbrev pub is_digit : ℕ → Bool
is_digit c = leb b'0' c && leb c b'9'

unfoldable pub trim_trailing_cr : Bytes → Bytes
trim_trailing_cr [] = []
trim_trailing_cr (c ∷ []) = if c == b'\r' then [] else c ∷ []
trim_trailing_cr (c ∷ d ∷ rest) = c ∷ trim_trailing_cr (d ∷ rest)

unfoldable pub skip_ws : Bytes → Bytes
skip_ws [] = []
skip_ws (c ∷ rest) = let next = skip_ws rest in if is_space c then next else c ∷ rest

-- Behind `skip_ws`: take one byte, which must be `expected`.
take_char : ℕ → Bytes → Bytes → Parsed Bytes
take_char expected e [] = err e
take_char expected e (c ∷ rest) = if c == expected then ok rest else err e

unfoldable pub expect_char : ℕ → Bytes → Parsed Bytes
unfolding take_char skip_ws
expect_char expected input = take_char expected (codes "malformed json") (skip_ws input)

-- The `switch (escaped)`.
unfoldable pub unescape : ℕ → Option ℕ
unescape c =
    if c == b'"' || (c == b'\\' || c == b'/')
    then some c
    else if c == b'n'
    then some b'\n'
    else if c == b'r'
    then some b'\r'
    else if c == b't'
    then some b'\t'
    else none

-- The loop of `parse_string`.
unfoldable pub string_body : Bytes → Bytes → Parsed (Bytes × Bytes)
unfolding unescape
string_body value [] = err (codes "unterminated json string")
string_body value (ch ∷ []) =
    if ch == b'"'
    then ok (value, [])
    else if not (ch == b'\\')
    then err (codes "unterminated json string")
    else err (codes "malformed json escape")
string_body value (ch ∷ escaped ∷ rest) =
    let plain = string_body (value ++ ch ∷ []) (escaped ∷ rest) in
    let decoded : Parsed (Bytes × Bytes) = elim (unescape escaped) [
      | none ↦ err (codes "unsupported json escape")
      | some c ↦ string_body (value ++ c ∷ []) rest
    ] in
    if ch == b'"' then ok (value, escaped ∷ rest) else if not (ch == b'\\') then plain else decoded

unfoldable pub parse_string : Bytes → Parsed (Bytes × Bytes)
unfolding string_body take_char skip_ws
parse_string input = do
  rest ← take_char b'"' (codes "malformed json string") (skip_ws input)
  string_body [] rest

-- The digits in front, with the value that they go on from, and what follows them.
unfoldable pub digits_value : ℕ → Bytes → ℕ × Bytes
digits_value n [] = (n, [])
digits_value n (c ∷ rest) =
    let next = digits_value (n * 10 + (c - b'0')) rest in if is_digit c then next else (n, c ∷ rest)

-- `std::stoull` throws `std::out_of_range`, whose text is its name, from 2^64 on.
abbrev pub stoull : ℕ → Parsed ℕ
stoull n = if ltb n (2 ^ 64) then ok n else err (codes "stoull")

unfoldable pub starts_with_digit : Bytes → Bool
starts_with_digit [] = false
starts_with_digit (c ∷ rest) = is_digit c

unfoldable pub parse_number : Bytes → Parsed (ℕ × Bytes)
unfolding starts_with_digit digits_value skip_ws
parse_number input = do
  let digits = skip_ws input
  guard (starts_with_digit digits) (codes "malformed json number")
  let (n, rest) = digits_value 0 digits
  value ← stoull n
  ok (value, rest)

-- `input.compare(pos, word.size(), word) == 0`
unfoldable pub has_prefix : Bytes → Bytes → Bool
has_prefix [] input = true
has_prefix (w ∷ word) [] = false
has_prefix (w ∷ word) (c ∷ input) = c == w && has_prefix word input

unfoldable pub parse_bool : Bytes → Parsed (Bool × Bytes)
unfolding has_prefix skip_ws
parse_bool input =
    let text = skip_ws input in
    if has_prefix (codes "true") text
    then ok (true, drop 4 text)
    else if has_prefix (codes "false") text
    then ok (false, drop 5 text)
    else err (codes "malformed json bool")

-- The three readers, each with its tag.
string_value : Bytes → Parsed (JsonValue × Bytes)
unfolding parse_string
string_value input = do (s, rest) ← parse_string input; ok (string s, rest)

number_value : Bytes → Parsed (JsonValue × Bytes)
unfolding parse_number
number_value input = do (n, rest) ← parse_number input; ok (number n, rest)

bool_value : Bytes → Parsed (JsonValue × Bytes)
unfolding parse_bool
bool_value input = do (b, rest) ← parse_bool input; ok (bool b, rest)

-- The branches on the first byte of a value, which is there.
value_at : ℕ → Bytes → Parsed (JsonValue × Bytes)
unfolding has_prefix
value_at c input =
    if c == b'"'
    then string_value input
    else if is_digit c
    then number_value input
    else if has_prefix (codes "true") input || has_prefix (codes "false") input
    then bool_value input
    else err (codes "unsupported json value")

parse_value : Bytes → Parsed (JsonValue × Bytes)
unfolding value_at
parse_value [] = err (codes "missing json value")
parse_value (c ∷ rest) = value_at c (c ∷ rest)

-- What follows a member: `,` with the next member, or `}`.
pub data Tail : Type 0 where
  more : JsonObject → Bytes → Tail
  last : JsonObject → Bytes → Tail

member_end : JsonObject → Bytes → Parsed Tail
member_end object [] = err (codes "malformed json object")
member_end object (c ∷ rest) =
    if c == b','
    then ok (more object rest)
    else if c == b'}'
    then ok (last object rest)
    else err (codes "malformed json object")

-- One round of the loop of `parse_json_object`.
unfoldable pub parse_member : JsonObject → Bytes → Parsed Tail
unfolding parse_string expect_char skip_ws parse_value string_value number_value bool_value
    member_end insert
parse_member object input = do
  (key, after_key) ← parse_string input
  after_colon ← expect_char b':' after_key
  (value, after_value) ← parse_value (skip_ws after_colon)
  member_end (insert key value object) (skip_ws after_value)

-- `skip_ws`, and the end of the text.
unfoldable pub end_of_text : JsonObject → Bytes → Parsed JsonObject
unfolding skip_ws
end_of_text object input = do
  guard (is_empty (skip_ws input)) (codes "trailing json content")
  ok object

-- The loop. A round that goes on shortens the text, so there are at most as many rounds as bytes.
unfoldable pub parse_members : ℕ → JsonObject → Bytes → Parsed JsonObject
parse_members zero object input = err (codes "malformed json string")
parse_members (suc rounds) object input = do
  tail ← parse_member object input
  elim tail [
    | more object' rest ↦ parse_members rounds object' rest
    | last object' rest ↦ end_of_text object' rest
  ]

-- Behind the opening brace: an empty object, or the loop.
object_body : Bytes → Parsed JsonObject
object_body [] = parse_members 1 [] []
object_body (c ∷ rest) =
    if c == b'}' then end_of_text [] rest else parse_members (length (c ∷ rest)) [] (c ∷ rest)

unfoldable pub parse_json_object : Bytes → Parsed JsonObject
unfolding expect_char object_body parse_members parse_member end_of_text skip_ws
parse_json_object line = do rest ← expect_char b'{' line; object_body (skip_ws rest)

unfoldable pub get_string : JsonObject → Bytes → Parsed Bytes
unfolding lookup
get_string object name = elim (lookup name object) [
  | none ↦ err (codes "missing string field: " ++ name)
  | some v ↦ elim v [ string s ↦ ok s | _ ↦ err (codes "missing string field: " ++ name) ]
]

unfoldable pub get_uint64 : JsonObject → Bytes → Parsed ℕ
unfolding lookup
get_uint64 object name = elim (lookup name object) [
  | none ↦ err (codes "missing number field: " ++ name)
  | some v ↦ elim v [ number n ↦ ok n | _ ↦ err (codes "missing number field: " ++ name) ]
]

unfoldable pub get_uint64_or : JsonObject → Bytes → ℕ → Parsed ℕ
unfolding lookup
get_uint64_or object name default_value = elim (lookup name object) [
  | none ↦ ok default_value
  | some v ↦ elim v [ number n ↦ ok n | _ ↦ err (codes "invalid number field: " ++ name) ]
]
