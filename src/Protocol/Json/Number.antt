-- ===== src/Protocol/Json/Number.antt =====
-- `parse_number` reads back what `std::to_string` writes.
use native.Mathlib.Nat.{pow-suc}
use cpp_chat.Base.{
  ℕ, zero, suc, ◌+◌, ◌-◌, ◌*◌, ◌/◌, ◌%◌, ◌^◌, ◌<◌, Bool, true, not, [], ◌∷◌, ◌++◌, ◌≡◌, refl, ap,
  ◌∙◌, arith, inl, inr, ltb, Bytes, Bool-cases,
}
use cpp_chat.Protocol.Result.{ok}
use cpp_chat.Protocol.Json.{digits_value, parse_number, skip_ws, starts_with_digit, is_digit}
use cpp_chat.Protocol.Format.{digits_onto, decimal}

digits_value_digit :
    (m k : ℕ) (rest : Bytes)
    → k < 10
    → digits_value m ((b'0' + k) ∷ rest) ≡ digits_value (m * 10 + k) rest
unfolding digits_value
digits_value_digit m k rest h = let e : b'0' + k - b'0' ≡ k = omega arith in rw e (ground arith)

digits_value-digits_onto :
    (room n : ℕ) (written : Bytes)
    → n < 10 ^ room
    → digits_value 0 (digits_onto room n written) ≡ digits_value n written
unfolding digits_onto
digits_value-digits_onto zero n written h = let e : n ≡ 0 = omega arith in rw e
digits_value-digits_onto (suc room) n written h = elim (Bool-cases (ltb n 10)) [
  | inl e ↦ rw e (
      digits_value_digit 0 (n % 10) written (omega arith)
      ∙ ap (λ m. digits_value m written) (ground arith))
  | inr e ↦ rw e (
      digits_value-digits_onto room (n / 10) ((b'0' + n % 10) ∷ written)
        (omega (arith, pow-suc 10 room))
      ∙ digits_value_digit (n / 10) (n % 10) written (omega arith)
      ∙ ap (λ m. digits_value m written) (omega arith))
]

-- The text begins with a digit.
digits_onto_head :
    (room n : ℕ) (written : Bytes)
    → (c : ℕ) × (rest : Bytes) × (digits_onto (suc room) n written ≡ c ∷ rest) × (is_digit c ≡ true)
unfolding digits_onto
digits_onto_head zero n written = (b'0' + n % 10, written, ground arith, ground arith)
digits_onto_head (suc room) n written = elim (Bool-cases (ltb n 10)) [
  | inl e ↦ (b'0' + n % 10, written, rw e, ground arith)
  | inr e ↦
      let (c, rest, h, d) = digits_onto_head room (n / 10) ((b'0' + n % 10) ∷ written) in
      (c, rest, rw e h, d)
]

pub decimal_head : (n : ℕ) → (c : ℕ) × (rest : Bytes) × (decimal n ≡ c ∷ rest) × (is_digit c ≡ true)
unfolding decimal
decimal_head n = digits_onto_head 19 n []

-- What follows the digits of a number.
abbrev pub starts_with_no_digit : Bytes → Bool
starts_with_no_digit [] = true
starts_with_no_digit (c ∷ rest) = not (is_digit c)

digits_value-append :
    (m : ℕ) (digits rest : Bytes)
    → (digits_value m digits).1 ≡ []
    → starts_with_no_digit rest ≡ true
    → digits_value m (digits ++ rest) ≡ ((digits_value m digits).0, rest)
unfolding digits_value
digits_value-append m [] [] h h' = refl
digits_value-append m [] (c ∷ rest) h h' = ground arith
digits_value-append m (d ∷ digits) rest h h' =
    ground (arith, digits_value-append (m * 10 + (d - b'0')) digits rest)

digits_value-decimal :
    (n : ℕ) (rest : Bytes)
    → n < 2 ^ 64
    → starts_with_no_digit rest ≡ true
    → digits_value 0 (decimal n ++ rest) ≡ (n, rest)
unfolding decimal
digits_value-decimal n rest h h' =
    let all = digits_value-digits_onto 20 n [] (omega arith) in
    let whole : digits_value 0 (digits_onto 20 n []) ≡ (n, []) =
      rw all (unfold digits_value in refl) in
    digits_value-append 0 (digits_onto 20 n []) rest (ap (λ p. p.1) whole) h' ∙ rw whole

-- A number of 64 bits in decimal, which no digit follows, is read back.
pub parse_number-decimal :
    (n : ℕ) (rest : Bytes)
    → n < 2 ^ 64
    → starts_with_no_digit rest ≡ true
    → parse_number (decimal n ++ rest) ≡ ok (n, rest)
unfolding parse_number
parse_number-decimal n rest h h' =
    let (c, tail, head, digit) = decimal_head n in
    let text : skip_ws (decimal n ++ rest) ≡ decimal n ++ rest =
      rw head (unfold skip_ws in ground arith) in
    let first : starts_with_digit (decimal n ++ rest) ≡ true = rw head digit in
    rw text (rw first (rw (digits_value-decimal n rest h h') (ground arith)))
