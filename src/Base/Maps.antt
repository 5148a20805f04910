-- ===== src/Base/Maps.antt =====
-- `std::unordered_map` as an association list, read only through `lookup`.
use cpp_chat.Base.Tests.{Eq, if◌then◌else◌, is_some}
use mathlib.Core.Path.{◌≡◌, refl}
use mathlib.Core.Bool.{false}
use mathlib.Core.Logic.{◌≢◌, ◌⊎◌}
use mathlib.Core.List.{List, [], ◌∷◌}
use mathlib.Core.Option.{Option, none, some}
use native.Mathlib.Omega.{arith}

module _ {ℓ κ} {K : Type ℓ} {V : Type κ} ⦃e : Eq K⦄ where
  -- `find`
  unfoldable pub lookup : K → List (K × V) → Option V
  lookup k [] = none
  lookup k ((j, v) ∷ m) = if e.beq j k then some v else lookup k m

  -- `m[k] = v`
  unfoldable pub insert : K → V → List (K × V) → List (K × V)
  insert k v [] = (k, v) ∷ []
  insert k v ((j, w) ∷ m) = if e.beq j k then (k, v) ∷ m else (j, w) ∷ insert k v m

  -- `erase(k)`
  unfoldable pub erase : K → List (K × V) → List (K × V)
  erase k [] = []
  erase k ((j, w) ∷ m) = let rest = erase k m in if e.beq j k then rest else (j, w) ∷ rest

  pub lookup-insert :
      (k j : K) (v : V) (m : List (K × V))
      → lookup j (insert k v m) ≡ (if e.beq k j then some v else lookup j m)
  unfolding lookup insert
  lookup-insert k j v [] = refl
  lookup-insert k j v ((i, w) ∷ m) =
      ground (arith, e.beq_iff k j, e.beq_iff i k, e.beq_iff i j, lookup-insert k j v m)

  pub lookup-erase :
      (k j : K) (m : List (K × V)) → lookup j (erase k m) ≡ (if e.beq k j then none else lookup j m)
  unfolding lookup erase
  lookup-erase k j [] = ground arith
  lookup-erase k j ((i, w) ∷ m) =
      ground (arith, e.beq_iff k j, e.beq_iff i k, e.beq_iff i j, lookup-erase k j m)

  -- Erasing a key that is not there changes nothing, and the order of two erasures does not matter.
  pub erase_missing : (k : K) (m : List (K × V)) → lookup k m ≡ none → erase k m ≡ m
  unfolding lookup erase
  erase_missing k [] h = refl
  erase_missing k ((i, w) ∷ m) h = ground (arith, erase_missing k m)

  pub erase_comm : (k j : K) (m : List (K × V)) → erase k (erase j m) ≡ erase j (erase k m)
  unfolding erase
  erase_comm k j [] = refl
  erase_comm k j ((i, w) ∷ m) = ground (arith, erase_comm k j m)

  -- What is found after an erasure was there before, under another key.
  pub erase-eq-some :
      (k j : K) (v : V) (m : List (K × V))
      → lookup j (erase k m) ≡ some v
      → (k ≢ j) × (lookup j m ≡ some v)
  erase-eq-some k j v m h = ground (arith, lookup-erase k j m, e.beq_iff k j)

  pub insert-eq-some :
      (k j : K) (v w : V) (m : List (K × V))
      → lookup j (insert k v m) ≡ some w
      → ((k ≡ j) × (v ≡ w)) ⊎ ((k ≢ j) × (lookup j m ≡ some w))
  insert-eq-some k j v w m h = ground (arith, lookup-insert k j v m, e.beq_iff k j)

  pub insert_other :
      (k j : K) (v : V) (m : List (K × V)) → k ≢ j → lookup j (insert k v m) ≡ lookup j m
  insert_other k j v m h = ground (arith, lookup-insert k j v m, e.beq_iff k j)

  pub insert_self : (k : K) (v : V) (m : List (K × V)) → lookup k (insert k v m) ≡ some v
  insert_self k v m = ground (arith, lookup-insert k k v m, e.beq_iff k k)

  pub erase_other : (k j : K) (m : List (K × V)) → k ≢ j → lookup j (erase k m) ≡ lookup j m
  erase_other k j m h = ground (arith, lookup-erase k j m, e.beq_iff k j)

  pub erase_self : (k : K) (m : List (K × V)) → lookup k (erase k m) ≡ none
  erase_self k m = ground (arith, lookup-erase k k m, e.beq_iff k k)

-- No key stands twice in the list.
module _ {ℓ κ} {K : Type ℓ} {V : Type κ} ⦃e : Eq K⦄ where
  abbrev pub IsMap : List (K × V) → Type 0
  IsMap [] = Unit
  IsMap ((k, v) ∷ m) = (is_some (lookup k m) ≡ false) × IsMap m

  pub insert-IsMap : (k : K) (v : V) (m : List (K × V)) → IsMap m → IsMap (insert k v m)
  unfolding insert lookup
  insert-IsMap k v [] h = ground arith
  insert-IsMap k v ((j, w) ∷ m) h =
      ground (arith, insert-IsMap k v m, lookup-insert k j v m, e.beq_iff j k, e.beq_iff k j)

  pub erase-IsMap : (k : K) (m : List (K × V)) → IsMap m → IsMap (erase k m)
  unfolding erase
  erase-IsMap k [] h = tt
  erase-IsMap k ((j, w) ∷ m) h = ground (arith, erase-IsMap k m, lookup-erase k j m, e.beq_iff j k)

pub ruleset map_laws = (lookup-insert, lookup-erase)
