-- ===== src/Protocol/Json/Escape.antt =====
-- `parse_string` reads back what `escape_json` writes.
use cpp_chat.Base.{
  ℕ, false, [], ◌∷◌, ◌++◌, ◌≡◌, ◌≢◌, refl, ◌∙◌, some, arith, append_assoc, append-nil, ◌==◌, Bytes,
}
use cpp_chat.Protocol.Result.{ok}
use cpp_chat.Protocol.Json.{string_body, parse_string, unescape}
use cpp_chat.Protocol.Format.{escape_char, escape_json}

append-cons-ne-nil : (xs : Bytes) (c : ℕ) (rest : Bytes) → xs ++ (c ∷ rest) ≢ []
append-cons-ne-nil [] c rest = λ h. cc
append-cons-ne-nil (x ∷ xs) c rest = λ h. cc

string_body_quote : (value rest : Bytes) → string_body value (b'"' ∷ rest) ≡ ok (value, rest)
unfolding string_body
string_body_quote value [] = refl
string_body_quote value (r ∷ rest) = refl

string_body_plain :
    (value : Bytes) (ch : ℕ) (rest : Bytes)
    → (ch == b'"') ≡ false
    → (ch == b'\\') ≡ false
    → rest ≢ []
    → string_body value (ch ∷ rest) ≡ string_body (value ++ ch ∷ []) rest
unfolding string_body
string_body_plain value ch [] h h' ne = absurd (ne refl)
string_body_plain value ch (r ∷ rest) h h' ne = rw (h, h')

string_body_escaped :
    (value : Bytes) (escaped ch : ℕ) (rest : Bytes)
    → unescape escaped ≡ some ch
    → string_body value (b'\\' ∷ escaped ∷ rest) ≡ string_body (value ++ ch ∷ []) rest
unfolding string_body
string_body_escaped value escaped ch rest e = rw e

-- One byte, as it is written, goes into the value.
string_body-escape_char :
    (value : Bytes) (ch : ℕ) (rest : Bytes)
    → rest ≢ []
    → string_body value (escape_char ch ++ rest) ≡ string_body (value ++ ch ∷ []) rest
unfolding escape_char unescape
string_body-escape_char value ch rest ne = ground (
  arith,
  string_body_escaped value b'"' b'"' rest refl,
  string_body_escaped value b'\\' b'\\' rest refl,
  string_body_escaped value b'n' b'\n' rest refl,
  string_body_escaped value b'r' b'\r' rest refl,
  string_body_escaped value b't' b'\t' rest refl,
  string_body_plain value ch rest,
)

pub string_body-escape_json :
    (value s rest : Bytes)
    → string_body value (escape_json s ++ (b'"' ∷ rest)) ≡ ok (value ++ s, rest)
unfolding escape_json
string_body-escape_json value [] rest = rw append-nil (string_body_quote value rest)
string_body-escape_json value (ch ∷ s) rest = rw (append_assoc (escape_char ch)) (
    string_body-escape_char value ch (escape_json s ++ (b'"' ∷ rest))
      (append-cons-ne-nil (escape_json s) b'"' rest)
    ∙ string_body-escape_json (value ++ ch ∷ []) s rest
    ∙ rw append_assoc)

-- An escaped string literal is read back, whatever bytes it stands for and whatever follows it.
pub parse_string-escape_json :
    (s rest : Bytes) → parse_string (b'"' ∷ (escape_json s ++ (b'"' ∷ rest))) ≡ ok (s, rest)
unfolding parse_string
parse_string-escape_json s rest = string_body-escape_json [] s rest
