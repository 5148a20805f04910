-- ===== src/Storage/Users/Password/Verify.antt =====
-- `verify_password_pbkdf2` on what `make_hash` writes.
use cpp_chat.Base.{
  ℕ, ◌/◌, ◌%◌, ◌<◌, ◌≡◌, ◌≢◌, refl, sym, subst, ap, ◌∙◌, Bool, true, false, not, ◌&&◌, [], ◌∷◌,
  ◌++◌, Option, none, some, arith, append_assoc, append-nil, ◌==◌, if◌then◌else◌, Bytes, codes,
  bytes_eq, bytes_eq_iff, is_empty, ◌↔◌, Bool-cases, inl, inr,
}
use cpp_chat.Protocol.Format.{decimal}
use cpp_chat.Storage.Users.Password.{
  to_hex, hex_digit, hex_value, byte_value, and_then, hex_bytes, from_hex, second_digit, split_onto,
  split, stoi, make_hash, hash_text, verify_password_pbkdf2, with_parts, recalculated,
  pbkdf2_iterations, hash_password_pbkdf2, positive,
}

-- Bytes, as numbers.
abbrev pub AreBytes : Bytes → Type 0
AreBytes [] = Unit
AreBytes (b ∷ bytes) = (b < 256) × AreBytes bytes

hex_value-hex_digit : (n : ℕ) → n < 16 → hex_value (hex_digit n) ≡ some n
hex_value-hex_digit n h = ground arith

byte_value-hex_digit :
    (b : ℕ)
    → b < 256
    → byte_value (hex_digit (b / 16)) (hex_digit (b % 16)) (hex_value (hex_digit (b / 16))) ≡ some b
unfolding byte_value second_digit
byte_value-hex_digit b h =
    rw (hex_value-hex_digit (b / 16) (omega arith), byte_value)
      (rw (hex_value-hex_digit (b % 16) (omega arith), second_digit) (ap some (omega arith)))

hex_bytes-to_hex : (bytes : Bytes) → AreBytes bytes → hex_bytes (to_hex bytes) ≡ some bytes
unfolding hex_bytes to_hex
hex_bytes-to_hex [] h = refl
hex_bytes-to_hex (b ∷ bytes) h =
    rw (byte_value-hex_digit b h.0, hex_bytes-to_hex bytes h.1) (unfold and_then in refl)

-- Text without the delimiter is one part.
abbrev pub has_none : ℕ → Bytes → Bool
has_none d [] = true
has_none d (c ∷ text) = if c == d then false else has_none d text

split_onto-append :
    (d : ℕ) (current text rest : Bytes)
    → has_none d text ≡ true
    → split_onto d current (text ++ (d ∷ rest)) ≡ (current ++ text) ∷ split_onto d [] rest
unfolding split_onto
split_onto-append d current [] rest h =
    let e : (d == d) ≡ true = ground arith in rw (e, append-nil, split_onto)
split_onto-append d current (c ∷ text) rest h = elim (Bool-cases (c == d)) [
  | inl e ↦ absurd (ground arith)
  | inr e ↦
      rw (e, split_onto)
        (split_onto-append d (current ++ c ∷ []) text rest (ground arith) ∙ rw append_assoc)
]

split_onto-last :
    (d : ℕ) (current text : Bytes)
    → has_none d text ≡ true
    → current ++ text ≢ []
    → split_onto d current text ≡ (current ++ text) ∷ []
unfolding split_onto
split_onto-last d [] [] h ne = absurd (ne refl)
split_onto-last d (c ∷ current) [] h ne = rw append-nil
split_onto-last d current (c ∷ text) h ne = elim (Bool-cases (c == d)) [
  | inl e ↦ absurd (ground arith)
  | inr e ↦
      rw (e, split_onto)
        (split_onto-last d (current ++ c ∷ []) text (ground arith)
            (rw (← append_assoc current (c ∷ []) text) at ne)
          ∙ rw append_assoc)
]

has_none-to_hex : (bytes : Bytes) → AreBytes bytes → has_none b'$' (to_hex bytes) ≡ true
unfolding to_hex
has_none-to_hex [] h = refl
has_none-to_hex (b ∷ bytes) h = ground (arith, has_none-to_hex bytes)

to_hex_ne : (bytes : Bytes) → bytes ≢ [] → to_hex bytes ≢ []
unfolding to_hex
to_hex_ne [] h = absurd (h refl)
to_hex_ne (b ∷ bytes) h = λ e. cc

-- The four fields of a stored password.
split-hash_text :
    (salt hash : Bytes)
    → AreBytes salt
    → AreBytes hash
    → hash ≢ []
    → split
        (codes "pbkdf2_sha256$"
          ++ (decimal pbkdf2_iterations
              ++ (codes "$" ++ (to_hex salt ++ (codes "$" ++ to_hex hash)))))
        b'$'
      ≡ codes "pbkdf2_sha256" ∷ decimal pbkdf2_iterations ∷ to_hex salt ∷ to_hex hash ∷ []
unfolding split decimal cpp_chat.Protocol.Format.digits_onto
split-hash_text salt hash h h' ne =
    ap (λ l. codes "pbkdf2_sha256" ∷ decimal pbkdf2_iterations ∷ l)
      (split_onto-append b'$' [] (to_hex salt) (to_hex hash) (has_none-to_hex salt h)
        ∙ ap (◌∷◌ (to_hex salt))
            (split_onto-last b'$' [] (to_hex hash) (has_none-to_hex hash h') (to_hex_ne hash ne)))

stoi-decimal : positive (stoi (decimal pbkdf2_iterations)) ≡ some pbkdf2_iterations
unfolding stoi decimal cpp_chat.Protocol.Format.digits_onto
stoi-decimal = refl

from_hex-to_hex : (bytes : Bytes) → AreBytes bytes → from_hex (to_hex bytes) ≡ bytes
unfolding from_hex
from_hex-to_hex bytes h = rw (hex_bytes-to_hex bytes h)

is_not_empty : (bytes : Bytes) → bytes ≢ [] → is_empty bytes ≡ false
is_not_empty [] h = absurd (h refl)
is_not_empty (b ∷ bytes) h = refl

-- `pbkdf2` gives bytes, and some.
module _ (pbkdf2 : Bytes → ℕ → Bytes → Option Bytes)
    (pbkdf2-AreBytes : (password salt hash : Bytes)
      → pbkdf2 password pbkdf2_iterations salt ≡ some hash
      → AreBytes hash × (hash ≢ [])) where
  verify_text :
      (password salt hash : Bytes)
      → AreBytes salt
      → salt ≢ []
      → AreBytes hash
      → hash ≢ []
      → let stored = hash_text pbkdf2 pbkdf2_iterations salt (some hash) in
        let again = make_hash pbkdf2 password pbkdf2_iterations salt in
        verify_password_pbkdf2 pbkdf2 password stored
        ≡ (not (is_empty again) && bytes_eq again stored)
  unfolding verify_password_pbkdf2 hash_text with_parts
  verify_text password salt hash b ne b' ne' =
      let stored = hash_text pbkdf2 pbkdf2_iterations salt (some hash) in
      ap (with_parts pbkdf2 password stored) (split-hash_text salt hash b b' ne')
      ∙ ap
          (λ s. recalculated pbkdf2 password stored s (positive (stoi (decimal pbkdf2_iterations))))
          (from_hex-to_hex salt b)
      ∙ ap (recalculated pbkdf2 password stored salt) stoi-decimal
      ∙ unfold recalculated in rw (is_not_empty salt ne)

  -- Two passwords with one salt have one text only if they have one hash.
  hash_text-injective :
      (salt one two : Bytes)
      → AreBytes salt
      → AreBytes one × (one ≢ [])
      → AreBytes two × (two ≢ [])
      → hash_text pbkdf2 pbkdf2_iterations salt (some one)
        ≡ hash_text pbkdf2 pbkdf2_iterations salt (some two)
      → one ≡ two
  unfolding hash_text
  hash_text-injective salt one two b h h' e =
      let fields =
        sym (split-hash_text salt one b h.0 h.1)
        ∙ ap (λ t. split t b'$') e
        ∙ split-hash_text salt two b h'.0 h'.1 in
      let hex : to_hex one ≡ to_hex two = cc in
      sym (from_hex-to_hex one h.0) ∙ ap from_hex hex ∙ from_hex-to_hex two h'.0

  accepted_text :
      (salt hash : Bytes) (o : Option Bytes)
      → AreBytes salt
      → AreBytes hash × (hash ≢ [])
      → ((again : Bytes) → o ≡ some again → AreBytes again × (again ≢ []))
      → ((not (is_empty (hash_text pbkdf2 pbkdf2_iterations salt o))
            && bytes_eq
                (hash_text pbkdf2 pbkdf2_iterations salt o)
                (hash_text pbkdf2 pbkdf2_iterations salt (some hash)))
          ≡ true)
        ↔ (o ≡ some hash)
  unfolding hash_text
  accepted_text salt hash none b h good = (λ e. cc, λ e. cc)
  accepted_text salt hash (some again) b h good =
      let one = hash_text pbkdf2 pbkdf2_iterations salt (some again) in
      let two = hash_text pbkdf2 pbkdf2_iterations salt (some hash) in
      (
        λ e. ap some (
            hash_text-injective salt again hash b (good again refl) h ((bytes_eq_iff one two).0 e)),
        λ e. (bytes_eq_iff one two).1 (ap (hash_text pbkdf2 pbkdf2_iterations salt) e),
      )

  -- If `pbkdf2` gives hashes of at least one byte and the salt has at least one, a password is accepted
  -- for the text that `hash_password_pbkdf2` made of another exactly when `pbkdf2` gives both the same
  -- hash.
  pub verify_password_pbkdf2_iff :
      (password attempt salt hash : Bytes)
      → AreBytes salt
      → salt ≢ []
      → pbkdf2 password pbkdf2_iterations salt ≡ some hash
      → (verify_password_pbkdf2 pbkdf2 attempt (hash_password_pbkdf2 pbkdf2 (some salt) password)
          ≡ true)
        ↔ (pbkdf2 attempt pbkdf2_iterations salt ≡ some hash)
  unfolding hash_password_pbkdf2 make_hash
  verify_password_pbkdf2_iff password attempt salt hash b ne e =
      let h = pbkdf2-AreBytes password salt hash e in
      let stored = ap (hash_text pbkdf2 pbkdf2_iterations salt) e in
      let text =
        ap (verify_password_pbkdf2 pbkdf2 attempt) stored
        ∙ verify_text attempt salt hash b ne h.0 h.1 in
      subst (λ v. (v ≡ true) ↔ (pbkdf2 attempt pbkdf2_iterations salt ≡ some hash)) (sym text)
        (accepted_text salt hash (pbkdf2 attempt pbkdf2_iterations salt) b h
          (pbkdf2-AreBytes attempt salt))
