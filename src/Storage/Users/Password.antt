-- ===== src/Storage/Users/Password.antt =====
-- The password functions of src/storage/user_store.cpp. `PKCS5_PBKDF2_HMAC` and `RAND_bytes` are
-- OpenSSL's: the first is the parameter `pbkdf2`, of the password, the rounds and the salt, where
-- `none` stands for an answer other than 1; the second's answer is an argument.
pub mod Verify
use cpp_chat.Base.{
  ℕ, zero, suc, ◌+◌, ◌-◌, ◌*◌, ◌/◌, ◌%◌, ◌^◌, Bool, true, false, not, ◌&&◌, ◌||◌, List, [], ◌∷◌,
  ◌++◌, Option, none, some, ltb, leb, ◌==◌, if◌then◌else◌, Bytes, codes, bytes_eq, is_empty, length,
}
use cpp_chat.Protocol.Json.{is_space, skip_ws, digits_value, starts_with_digit}
use cpp_chat.Protocol.Format.{decimal}

abbrev pub pbkdf2_iterations : ℕ
pbkdf2_iterations = 100000

abbrev pub hex_digit : ℕ → ℕ
hex_digit n = if ltb n 10 then b'0' + n else b'a' + (n - 10)

unfoldable pub to_hex : Bytes → Bytes
to_hex [] = []
to_hex (b ∷ bytes) = hex_digit (b / 16) ∷ hex_digit (b % 16) ∷ to_hex bytes

abbrev pub hex_value : ℕ → Option ℕ
hex_value c =
    if leb b'0' c && leb c b'9'
    then some (c - b'0')
    else if leb b'a' c && leb c b'f'
    then some (c - b'a' + 10)
    else if leb b'A' c && leb c b'F'
    then some (c - b'A' + 10)
    else none

-- `strtol` of a first byte that is a digit: the text may end, or the second byte goes on.
second_digit : ℕ → ℕ → Option ℕ → Option ℕ
second_digit high c (some low) = some (high * 16 + low)
second_digit high c none = if c == 0 then some high else none

-- Behind a minus sign only a zero is not negative.
not_negative : Option ℕ → Option ℕ
not_negative none = none
not_negative (some n) = if n == 0 then some 0 else none

-- `strtol(byte.c_str(), &end, 16)` of two bytes, with the test on `end` and the range: blanks and a
-- sign may stand in front, and a zero byte ends the text.
byte_value : ℕ → ℕ → Option ℕ → Option ℕ
unfolding second_digit not_negative
byte_value a b (some high) = second_digit high b (hex_value b)
byte_value a b none =
    if a == 0
    then some 0
    else if is_space a || a == b'+'
    then hex_value b
    else if a == b'-'
    then not_negative (hex_value b)
    else none

-- A byte put in front of what the rest of the loop reads.
and_then : Option ℕ → Option Bytes → Option Bytes
and_then (some b) (some bytes) = some (b ∷ bytes)
and_then _ _ = none

-- The loop of `from_hex`; `none` is one of its returns of an empty vector.
unfoldable pub hex_bytes : Bytes → Option Bytes
unfolding byte_value and_then
hex_bytes [] = some []
hex_bytes (a ∷ []) = none
hex_bytes (a ∷ b ∷ hex) = let rest = hex_bytes hex in and_then (byte_value a b (hex_value a)) rest

abbrev pub bytes_or_empty : Option Bytes → Bytes
bytes_or_empty none = []
bytes_or_empty (some bytes) = bytes

unfoldable pub from_hex : Bytes → Bytes
unfolding hex_bytes
from_hex hex = bytes_or_empty (hex_bytes hex)

-- The loop of `split`: `std::getline` reads no empty line at the end of the text.
unfoldable pub split_onto : ℕ → Bytes → Bytes → List Bytes
split_onto delimiter current [] = if is_empty current then [] else current ∷ []
split_onto delimiter current (c ∷ value) = elim (c == delimiter) [
  | true ↦ current ∷ split_onto delimiter [] value
  | false ↦ split_onto delimiter (current ++ c ∷ []) value
]

unfoldable pub split : Bytes → ℕ → List Bytes
unfolding split_onto
split value delimiter = split_onto delimiter [] value

-- The sign and the size of the number.
abbrev pub sign : Bytes → Bool × Bytes
sign [] = (false, [])
sign (c ∷ rest) =
    if c == b'-' then (true, rest) else if c == b'+' then (false, rest) else (false, c ∷ rest)

-- `std::stoi`, where `none` is an exception.
unfoldable pub stoi : Bytes → Option (Bool × ℕ)
unfolding skip_ws digits_value starts_with_digit
stoi text =
    let (negative, digits) = sign (skip_ws text) in
    let n = (digits_value 0 digits).0 in
    if not (starts_with_digit digits) || leb (if negative then 2 ^ 31 + 1 else 2 ^ 31) n
    then none
    else some (negative, n)

-- The two ways out behind the call of `stoi`.
abbrev pub positive : Option (Bool × ℕ) → Option ℕ
positive none = none
positive (some (negative, n)) = if negative || n == 0 then none else some n

module _ (pbkdf2 : Bytes → ℕ → Bytes → Option Bytes) where
  hash_text : ℕ → Bytes → Option Bytes → Bytes
  unfolding decimal to_hex
  hash_text iterations salt none = []
  hash_text iterations salt (some hash) =
      codes "pbkdf2_sha256$"
      ++ (decimal iterations ++ (codes "$" ++ (to_hex salt ++ (codes "$" ++ to_hex hash))))

  unfoldable pub make_hash : Bytes → ℕ → Bytes → Bytes
  unfolding hash_text
  make_hash password iterations salt = hash_text iterations salt (pbkdf2 password iterations salt)

  -- The argument is what `RAND_bytes` fills the salt with, if it answers 1.
  unfoldable pub hash_password_pbkdf2 : Option Bytes → Bytes → Bytes
  unfolding make_hash
  hash_password_pbkdf2 none password = []
  hash_password_pbkdf2 (some salt) password = make_hash password pbkdf2_iterations salt

  -- From the test on the salt on.
  recalculated : Bytes → Bytes → Bytes → Option ℕ → Bool
  unfolding make_hash bytes_eq
  recalculated password stored_hash salt none = false
  recalculated password stored_hash salt (some iterations) =
      let again = make_hash password iterations salt in
      not (is_empty salt) && not (is_empty again) && bytes_eq again stored_hash

  with_parts : Bytes → Bytes → List Bytes → Bool
  unfolding recalculated bytes_eq stoi from_hex
  with_parts password stored_hash (scheme ∷ iterations ∷ salt ∷ hash ∷ []) =
      bytes_eq scheme (codes "pbkdf2_sha256")
      && recalculated password stored_hash (from_hex salt) (positive (stoi iterations))
  with_parts password stored_hash _ = false

  unfoldable pub verify_password_pbkdf2 : Bytes → Bytes → Bool
  unfolding with_parts split
  verify_password_pbkdf2 password stored_hash =
      with_parts password stored_hash (split stored_hash b'$')
