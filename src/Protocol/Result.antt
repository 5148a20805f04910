-- ===== src/Protocol/Result.antt =====
-- `std::runtime_error` as a value: a result, or the text that `what()` returns.
use cpp_chat.Base.{◌≡◌, refl, Bytes, Bool, true, false}

pub data Parsed {ℓ} (A : Type ℓ) : Type ℓ where
  err : Bytes → Parsed A
  ok : A → Parsed A

-- `if (!condition) throw std::runtime_error(what);`
abbrev pub guard : Bool → Bytes → Parsed (Unit {0})
guard condition what = elim condition [ true ↦ ok tt | false ↦ err what ]

infixl 5 ◌>>=◌ ◌>>◌
-- The first exception leaves the whole `try` block.
abbrev pub ◌>>=◌ {κ ℓ} : {B : Type κ} {A : Type ℓ} → Parsed B → (B → Parsed A) → Parsed A
err what >>= rest = err what
ok value >>= rest = rest value

abbrev pub ◌>>◌ {ℓ} : {A : Type ℓ} → Parsed (Unit {0}) → Parsed A → Parsed A
checked >> rest = checked >>= λ _. rest

-- What ends well began well.
pub >>=-eq-ok {κ ℓ} :
    {B : Type κ} {A : Type ℓ} (first : Parsed B) (rest : B → Parsed A) {result : A}
    → (first >>= rest) ≡ ok result
    → (value : B) × (first ≡ ok value) × (rest value ≡ ok result)
>>=-eq-ok (err what) rest h = cc
>>=-eq-ok (ok value) rest h = (value, refl, h)
