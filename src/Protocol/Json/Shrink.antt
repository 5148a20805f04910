-- ===== src/Protocol/Json/Shrink.antt =====
-- Every reader leaves fewer bytes than it was given, so `parse_members` has rounds enough.
use cpp_chat.Base.{
  ℕ, zero, suc, ◌+◌, ◌-◌, ◌*◌, ◌<◌, ◌≤◌, Bool, [], ◌∷◌, ◌++◌, ◌≡◌, refl, arith, inl, inr, ◌⊎◌,
  Bytes, codes, length, length-drop,
}
use cpp_chat.Protocol.Result.{Parsed, ok, err, >>=-eq-ok}
use cpp_chat.Protocol.Json.{
  JsonValue, JsonObject, skip_ws, take_char, expect_char, string_body, parse_string, digits_value,
  parse_number, parse_bool, string_value, number_value, bool_value, value_at, parse_value, Tail,
  more, last, member_end, parse_member, parse_members, end_of_text,
}

skip_ws-length : (input : Bytes) → length (skip_ws input) ≤ length input
unfolding skip_ws
skip_ws-length [] = omega arith
skip_ws-length (c ∷ rest) = ground (arith, skip_ws-length rest)

take_char-length :
    (c : ℕ) (e input rest : Bytes) → take_char c e input ≡ ok rest → length rest < length input
unfolding take_char
take_char-length c e [] rest h = absurd (cc)
take_char-length c e (x ∷ input) rest h = ground arith

expect_char-length :
    (c : ℕ) (input rest : Bytes) → expect_char c input ≡ ok rest → length rest < length input
unfolding expect_char
expect_char-length c input rest h = omega (
  arith,
  skip_ws-length input,
  take_char-length c (codes "malformed json") (skip_ws input) rest h,
)

string_body-length :
    (value input s rest : Bytes)
    → string_body value input ≡ ok (s, rest)
    → length rest < length input
unfolding string_body
string_body-length value [] s rest h = absurd (cc)
string_body-length value (c ∷ []) s rest h = ground arith
string_body-length value (c ∷ d ∷ input) s rest h = ground (
  arith,
  string_body-length (value ++ c ∷ []) (d ∷ input) s rest,
  string_body-length (value ++ d ∷ []) input s rest,
  string_body-length (value ++ b'\n' ∷ []) input s rest,
  string_body-length (value ++ b'\r' ∷ []) input s rest,
  string_body-length (value ++ b'\t' ∷ []) input s rest,
)

parse_string-length :
    (input s rest : Bytes) → parse_string input ≡ ok (s, rest) → length rest < length input
unfolding parse_string
parse_string-length input s rest h =
    let (body, opened, read) =
      >>=-eq-ok (take_char b'"' (codes "malformed json string") (skip_ws input)) (string_body [])
        h in
    omega (
      arith,
      skip_ws-length input,
      take_char-length b'"' (codes "malformed json string") (skip_ws input) body opened,
      string_body-length [] body s rest read,
    )

digits_value-length : (n : ℕ) (input : Bytes) → length (digits_value n input).1 ≤ length input
unfolding digits_value
digits_value-length n [] = omega arith
digits_value-length n (c ∷ rest) = ground (arith, digits_value-length (n * 10 + (c - b'0')) rest)

parse_number-length :
    (input : Bytes) (n : ℕ) (rest : Bytes)
    → parse_number input ≡ ok (n, rest)
    → length rest ≤ length input
unfolding parse_number
parse_number-length input n rest h =
    ground (arith, skip_ws-length input, digits_value-length 0 (skip_ws input))

parse_bool-length :
    (input : Bytes) (b : Bool) (rest : Bytes)
    → parse_bool input ≡ ok (b, rest)
    → length rest ≤ length input
unfolding parse_bool
parse_bool-length input b rest h =
    ground
      (arith, skip_ws-length input, length-drop 4 (skip_ws input), length-drop 5 (skip_ws input))

string_value-length :
    (input : Bytes) (v : JsonValue) (rest : Bytes)
    → string_value input ≡ ok (v, rest)
    → length rest ≤ length input
unfolding string_value
string_value-length input v rest h =
    let ((s, rest'), read, e) = >>=-eq-ok (parse_string input) _ h in
    let shorter = parse_string-length input s rest' read in ground arith

number_value-length :
    (input : Bytes) (v : JsonValue) (rest : Bytes)
    → number_value input ≡ ok (v, rest)
    → length rest ≤ length input
unfolding number_value
number_value-length input v rest h =
    let ((n, rest'), read, e) = >>=-eq-ok (parse_number input) _ h in
    let shorter = parse_number-length input n rest' read in ground arith

bool_value-length :
    (input : Bytes) (v : JsonValue) (rest : Bytes)
    → bool_value input ≡ ok (v, rest)
    → length rest ≤ length input
unfolding bool_value
bool_value-length input v rest h =
    let ((b, rest'), read, e) = >>=-eq-ok (parse_bool input) _ h in
    let shorter = parse_bool-length input b rest' read in ground arith

parse_value-length :
    (input : Bytes) (v : JsonValue) (rest : Bytes)
    → parse_value input ≡ ok (v, rest)
    → length rest ≤ length input
unfolding parse_value value_at
parse_value-length [] v rest h = absurd (cc)
parse_value-length (c ∷ input) v rest h = ground (
  arith,
  string_value-length (c ∷ input) v rest,
  number_value-length (c ∷ input) v rest,
  bool_value-length (c ∷ input) v rest,
)

member_end-length :
    (object object' : JsonObject) (input rest : Bytes)
    → member_end object input ≡ ok (more object' rest)
    → length rest < length input
unfolding member_end
member_end-length object object' [] rest h = absurd (cc)
member_end-length object object' (c ∷ input) rest h = ground arith

parse_member-length :
    (object object' : JsonObject) (input rest : Bytes)
    → parse_member object input ≡ ok (more object' rest)
    → length rest < length input
unfolding parse_member
parse_member-length object object' input rest h =
    let ((key, after_key), read_key, h₁) = >>=-eq-ok (parse_string input) _ h in
    let (after_colon, read_colon, h₂) = >>=-eq-ok (expect_char b':' after_key) _ h₁ in
    let ((value, after_value), read_value, h₃) =
      >>=-eq-ok (parse_value (skip_ws after_colon)) _ h₂ in
    let a = parse_string-length input key after_key read_key in
    let b = expect_char-length b':' after_key after_colon read_colon in
    let c = parse_value-length (skip_ws after_colon) value after_value read_value in
    let d = member_end-length _ object' (skip_ws after_value) rest h₃ in
    omega (arith, a, b, c, d, skip_ws-length after_colon, skip_ws-length after_value)

-- The loop of the source goes on from the result of a round.
abbrev pub after_member : Parsed Tail → Parsed JsonObject
after_member (err e) = err e
after_member (ok (more object rest)) = parse_members (length rest) object rest
after_member (ok (last object rest)) = end_of_text object rest

Round-cases :
    (r : Parsed Tail)
    → ((e : Bytes) × (r ≡ err e))
      ⊎ ((o : JsonObject) × (rest : Bytes) × (r ≡ ok (last o rest)))
      ⊎ ((o : JsonObject) × (rest : Bytes) × (r ≡ ok (more o rest)))
Round-cases (err e) = inl (e, refl)
Round-cases (ok (last o rest)) = inr (inl (o, rest, refl))
Round-cases (ok (more o rest)) = inr (inr (o, rest, refl))

parse_members_rounds :
    (k n : ℕ) (object : JsonObject) (input : Bytes)
    → length input ≤ k
    → length input ≤ n
    → parse_members k object input ≡ parse_members n object input
unfolding parse_members
parse_members_rounds zero zero object input h h' = refl
parse_members_rounds zero (suc n) object [] h h' = unfold parse_member in refl
parse_members_rounds zero (suc n) object (x ∷ input) h h' = absurd (omega arith)
parse_members_rounds (suc k) zero object [] h h' = unfold parse_member in refl
parse_members_rounds (suc k) zero object (x ∷ input) h h' = absurd (omega arith)
parse_members_rounds (suc k) (suc n) object input h h' =
    elim (Round-cases (parse_member object input)) [
      | inl (e, r) ↦ rw (r, parse_members)
      | inr (inl (o, rest, r)) ↦ rw (r, parse_members)
      | inr (inr (o, rest, r)) ↦
          let shorter = parse_member-length object o input rest r in
          rw (r, parse_members) (parse_members_rounds k n o rest (omega arith) (omega arith))
    ]

-- `parse_members`, given as many rounds as bytes, is the loop with no bound on its rounds.
pub parse_members_lem :
    (object : JsonObject) (input : Bytes)
    → parse_members (length input) object input ≡ after_member (parse_member object input)
unfolding parse_members
parse_members_lem object [] = unfold parse_member in refl
parse_members_lem object (x ∷ input) = elim (Round-cases (parse_member object (x ∷ input))) [
  | inl (e, r) ↦ rw (r, parse_members)
  | inr (inl (o, rest, r)) ↦ rw (r, parse_members)
  | inr (inr (o, rest, r)) ↦
      let shorter = parse_member-length object o (x ∷ input) rest r in
      rw (r, parse_members)
        (parse_members_rounds (length input) (length rest) o rest (omega arith) (omega arith))
]
