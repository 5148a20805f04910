-- ===== src/MySqlConnectionPool/Slots.antt =====
-- No slot is lost, none is handed out twice.
use cpp_chat.Base.{
  ℕ, zero, suc, ◌+◌, ◌≡◌, refl, sym, ap, ◌∙◌, true, false, Bool, Bool-cases, Option-cases, inl, inr,
  List, [], ◌∷◌, ◌++◌, Option, none, some, arith, ◌==◌, is_some, if◌then◌else◌, nat_eq,
}
use cpp_chat.Base.Maps.{lookup, insert, lookup-insert}
use cpp_chat.MySqlConnectionPool.{
  MySqlConnectionPool, PooledConnection, Examination, Attempt, no_memory, refused, connected,
  create_connection, adopt, after_attempt, close_connection, reconnect_rounds, reconnect_connection,
  examine, examine_found, ensure_healthy,
}

-- How often an address is in a list.
unfoldable pub count : ℕ → List ℕ → ℕ
count a [] = 0
count a (x ∷ xs) = if x == a then suc (count a xs) else count a xs

pub count-append : (a : ℕ) (xs ys : List ℕ) → count a (xs ++ ys) ≡ count a xs + count a ys
unfolding count
count-append a [] ys = omega arith
count-append a (x ∷ xs) ys = ground (arith, count-append a xs ys)

abbrev pub present : Option PooledConnection → ℕ
present none = 0
present (some connection) = 1

-- Each connection of the pool is either available or held by one caller, once.
unfoldable pub IsTracked : MySqlConnectionPool → List ℕ → Type 0
IsTracked p held = (a : ℕ) → count a p.available + count a held ≡ present (lookup a p.connections)

-- A change of the pool that only changes what is in the connections.
pub record IsSameSlots (p p' : MySqlConnectionPool) : Type 0 where
  pub available : p'.available ≡ p.available
  pub present : (a : ℕ) → is_some (lookup a p'.connections) ≡ is_some (lookup a p.connections)
  pub stopped : p'.stopped ≡ p.stopped

pub same_present :
    (o o' : Option PooledConnection) → is_some o' ≡ is_some o → present o' ≡ present o
same_present none none e = refl
same_present (some c) (some c') e = refl
same_present none (some c') e = absurd (cc)
same_present (some c) none e = absurd (cc)

pub same-IsTracked :
    (p p' : MySqlConnectionPool) (held : List ℕ)
    → IsSameSlots p p'
    → IsTracked p held
    → IsTracked p' held
unfolding IsTracked
same-IsTracked p p' held same v = λ a.
    let e = same_present (lookup a p.connections) (lookup a p'.connections) (same.present a) in
    let counted = ap (λ l. count a l + count a held) same.available in counted ∙ (v a ∙ sym e)

pub same_refl : (p : MySqlConnectionPool) → IsSameSlots p p
same_refl p = record { available = refl; present = λ a. refl; stopped = refl }

pub same_trans : (p q r : MySqlConnectionPool) → IsSameSlots p q → IsSameSlots q r → IsSameSlots p r
same_trans p q r v w = record {
  available = w.available ∙ v.available;
  present = λ a. w.present a ∙ v.present a;
  stopped = w.stopped ∙ v.stopped;
}

-- A new value under a key that is there.
pub replaced :
    (m : List (ℕ × PooledConnection)) (address : ℕ) (c : PooledConnection)
    → is_some (lookup address m) ≡ true
    → (a : ℕ) → is_some (lookup a (insert address c m)) ≡ is_some (lookup a m)
replaced m address c e a = elim (Bool-cases (address == a)) [
  | inl h ↦
      let same : address ≡ a = ground arith in
      let e' = ap (λ k. is_some (lookup k m)) (sym same) ∙ e in
      ground (arith, lookup-insert address a c m)
  | inr h ↦ ground (arith, lookup-insert address a c m)
]

create-same :
    (p : MySqlConnectionPool) (attempt : Attempt) → IsSameSlots p (create_connection p attempt).0
unfolding create_connection
create-same p no_memory = same_refl p
create-same p refused = record { available = refl; present = λ a. refl; stopped = refl }
create-same p connected = record { available = refl; present = λ a. refl; stopped = refl }

module _ (address : ℕ) (e : Examination) where
  adopt-same :
      (p : MySqlConnectionPool) (c : PooledConnection) (now h : ℕ)
      → is_some (lookup address p.connections) ≡ true
      → IsSameSlots p (adopt p address c now h)
  unfolding adopt
  adopt-same p c now h there = record {
    available = refl;
    present = replaced p.connections address _ there;
    stopped = refl;
  }

  round-same :
      (p p' : MySqlConnectionPool) (c : PooledConnection) (made : Option ℕ)
      (later : MySqlConnectionPool × Bool)
      → is_some (lookup address p.connections) ≡ true
      → IsSameSlots p p'
      → IsSameSlots p' later.0
      → IsSameSlots p (after_attempt p' address c e.connected_at made later).0
  unfolding after_attempt
  round-same p p' c none later there v w = same_trans p p' later.0 v w
  round-same p p' c (some h) later there v w =
      same_trans p p' (adopt p' address c e.connected_at h) v
        (adopt-same p' c e.connected_at h (v.present address ∙ there))

  reconnect_rounds-same :
      (rounds n : ℕ) (p : MySqlConnectionPool) (c : PooledConnection)
      → is_some (lookup address p.connections) ≡ true
      → IsSameSlots p (reconnect_rounds rounds n p address c e).0
  unfolding reconnect_rounds
  reconnect_rounds-same zero n p c there = same_refl p
  reconnect_rounds-same (suc rounds) n p c there =
      let r = create_connection p (e.attempts n) in
      let v = create-same p (e.attempts n) in
      round-same p r.0 c r.1 (reconnect_rounds rounds (suc n) r.0 address c e) there v
        (reconnect_rounds-same rounds (suc n) r.0 c (v.present address ∙ there))

  close-same :
      (p : MySqlConnectionPool) (c : PooledConnection)
      → is_some (lookup address p.connections) ≡ true
      → IsSameSlots p (close_connection p address c)
  unfolding close_connection
  close-same p c there = record {
    available = refl;
    present = replaced p.connections address _ there;
    stopped = refl;
  }

  reconnect-same :
      (p : MySqlConnectionPool) (c : PooledConnection)
      → is_some (lookup address p.connections) ≡ true
      → IsSameSlots p (reconnect_connection p address c e).0
  unfolding reconnect_connection
  reconnect-same p c there =
      let p' = close_connection p address c in
      let v = close-same p c there in
      let c' = record c { mysql = none } in
      let rounds = p.config.max_reconnect_attempts in
      same_trans p p' (reconnect_rounds rounds 0 p' address c' e).0 v
        (reconnect_rounds-same rounds 0 p' c' (v.present address ∙ there))

  examine-cases :
      (p : MySqlConnectionPool) (c : PooledConnection) (healthy pinged : Bool)
      → is_some (lookup address p.connections) ≡ true
      → IsSameSlots p
          (if healthy
            then (p, true)
            else if pinged
            then (
              record p {
                connections =
                    insert address (record c { last_checked = e.pinged_at }) p.connections;
              },
              true,
            )
            else reconnect_connection p address c e).0
  examine-cases p c true pinged there = same_refl p
  examine-cases p c false true there = record {
    available = refl;
    present = replaced p.connections address _ there;
    stopped = refl;
  }
  examine-cases p c false false there = reconnect-same p c there

  examine-same :
      (p : MySqlConnectionPool) (c : PooledConnection)
      → is_some (lookup address p.connections) ≡ true
      → IsSameSlots p (examine p address c e).0
  unfolding examine
  examine-same p c = examine-cases p c _ _

  pub ensure_healthy-same : (p : MySqlConnectionPool) → IsSameSlots p (ensure_healthy p address e).0
  unfolding ensure_healthy examine_found
  ensure_healthy-same p = elim (Option-cases (lookup address p.connections)) [
    | inl h ↦ rw h (same_refl p)
    | inr (c, h) ↦ rw h (examine-same p c (ap (λ o. is_some o) h))
  ]
