-- ===== src/Storage/Messages/Conversations.antt =====
-- The column `conversation_id` of a private message tells the pairs of users apart.
use Prim.Native.Nat.{bit_or-bitwise, digits}
use native.Mathlib.Nat.{pow-suc}
use cpp_chat.Base.{
  ℕ, zero, suc, ◌+◌, ◌*◌, ◌/◌, ◌%◌, ◌^◌, ◌≤◌, ◌<◌, min, max, ◌≡◌, ◌↔◌, ◌⊎◌, refl, inl, inr, ◌∙◌, ap,
  arith, ◌≢◌, Bool-cases, ◌==◌,
}
use cpp_chat.Storage.Messages.{make_direct_conversation_id}

-- The digits of `a` above those of `b`, with `n` digits to go.
abbrev or_digits : ℕ → ℕ → ℕ → ℕ
or_digits n a b = digits (λ y. y) max n a b

or_digits-zero : (n a : ℕ) → a ≤ n → or_digits n a 0 ≡ a
or_digits-zero zero zero h = refl
or_digits-zero zero (suc a) h = absurd (omega arith)
or_digits-zero (suc n) zero h = refl
or_digits-zero (suc n) (suc a) h = omega (arith, or_digits-zero n (suc a / 2) (omega arith))

or_digits-shifted : (k n a q b : ℕ) → a ≡ q * 2 ^ k → a ≤ n → b < 2 ^ k → or_digits n a b ≡ a + b
or_digits-shifted zero n a q zero e h l = omega (arith, or_digits-zero n a h)
or_digits-shifted zero n a q (suc b) e h l = absurd (omega arith)
or_digits-shifted (suc k) zero zero q b e h l = omega arith
or_digits-shifted (suc k) zero (suc a) q b e h l = absurd (omega arith)
or_digits-shifted (suc k) (suc n) zero q b e h l = omega arith
or_digits-shifted (suc k) (suc n) (suc a) q b e h l =
    let double : suc a ≡ q * 2 ^ k * 2 = omega (arith, ap (λ (t : ℕ). q * t) (pow-suc 2 k)) in
    let half : suc a / 2 ≡ q * 2 ^ k = omega arith in
    let low : b / 2 < 2 ^ k = omega (arith, pow-suc 2 k) in
    let even : suc a % 2 ≡ 0 = omega arith in
    omega (arith, or_digits-shifted k n (suc a / 2) q (b / 2) half (omega arith) low)

pub make_direct_conversation_id_lem :
    (a b : ℕ)
    → a < 2 ^ 32
    → b < 2 ^ 32
    → make_direct_conversation_id a b ≡ min a b * 2 ^ 32 + max a b
unfolding make_direct_conversation_id
make_direct_conversation_id_lem a b h k =
    let low = min a b * 2 ^ 32 in
    let whole : low % 2 ^ 64 ≡ low = omega arith in
    let join = or_digits-shifted 32 low low (min a b) (max a b) refl (omega arith) (omega arith) in
    rw whole (bit_or-bitwise low (max a b)) ∙ join

same_pair :
    (a b c d : ℕ)
    → min a b ≡ min c d
    → max a b ≡ max c d
    → ((a ≡ c) × (b ≡ d)) ⊎ ((a ≡ d) × (b ≡ c))
same_pair a b c d low high = elim (Bool-cases (a == c)) [
  | inl e ↦ let same : a ≡ c = ground arith in inl (same, omega arith)
  | inr e ↦ let differ : a ≢ c = ground arith in inr (omega arith, omega arith)
]

-- Two private conversations between users whose ids have at most 32 bits have the same conversation
-- id exactly if they are between the same two users.
pub make_direct_conversation_id_iff :
    (a b c d : ℕ)
    → a < 2 ^ 32
    → b < 2 ^ 32
    → c < 2 ^ 32
    → d < 2 ^ 32
    → (make_direct_conversation_id a b ≡ make_direct_conversation_id c d)
      ↔ ((a ≡ c) × (b ≡ d)) ⊎ ((a ≡ d) × (b ≡ c))
make_direct_conversation_id_iff a b c d ha hb hc hd =
    let e = make_direct_conversation_id_lem a b ha hb in
    let e' = make_direct_conversation_id_lem c d hc hd in
    (λ h. same_pair a b c d (omega arith) (omega arith), λ h. omega arith)

-- An id of more than 32 bits runs into the other one: users 1 and 5 and users 1 and 2 ^ 32 + 5 share
-- one conversation id.
make_direct_conversation_id_shared :
    make_direct_conversation_id 1 5 ≡ make_direct_conversation_id 1 (2 ^ 32 + 5)
unfolding make_direct_conversation_id
make_direct_conversation_id_shared = refl
