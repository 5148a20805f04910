-- ===== src/MySqlConnectionPool/Health.antt =====
-- A caller is given a live connection, or none.
use cpp_chat.Base.{
  Bool-cases, leb, ◌==◌, ◌≤◌, ◌<◌, ◌+◌, ◌*◌, ◌↔◌, ◌⊎◌, inl, inr, ℕ, zero, suc, ◌≡◌, refl, sym, ap,
  ◌∙◌, true, false, not, ◌&&◌, ◌||◌, Bool, Option, none, some, arith, if◌then◌else◌, nat_eq,
  is_some,
}
use cpp_chat.Base.Maps.{lookup, insert, insert_self}
use cpp_chat.MySqlConnectionPool.{
  MySqlConnectionPool, PooledConnection, Examination, Attempt, no_memory, refused, connected,
  create_connection, adopt, after_attempt, close_connection, reconnect_rounds, reconnect_connection,
  examine, examine_found, ensure_healthy, hand_out, acquire, idle_health_check_unlocked,
  check_candidates, take_front, is_null, should_ping, release,
}

abbrev pub handle_of : Option PooledConnection → Option ℕ
handle_of none = none
handle_of (some c) = c.mysql

-- The handle of the connection at an address.
unfoldable pub handle_at : MySqlConnectionPool → ℕ → Option ℕ
unfolding lookup
handle_at p address = handle_of (lookup address p.connections)

abbrev is_connected : Attempt → Bool
is_connected connected = true
is_connected _ = false

-- Whether one of the attempts from the `n`-th on, as many as there are rounds, connects.
unfoldable pub some_connects : (ℕ → Attempt) → ℕ → ℕ → Bool
some_connects attempts zero n = false
some_connects attempts (suc rounds) n =
    is_connected (attempts n) || some_connects attempts rounds (suc n)

-- One round, where `later` is what the rounds behind it give for each state of the pool.
module _ (address : ℕ) (c : PooledConnection) (now : ℕ) (p : MySqlConnectionPool)
    (later : MySqlConnectionPool → MySqlConnectionPool × Bool) where
  attempted : Attempt → MySqlConnectionPool × Bool
  unfolding after_attempt create_connection
  attempted attempt =
      let r = create_connection p attempt in after_attempt r.0 address c now r.1 (later r.0)

  attempted-connects :
      (attempt : Attempt) (others : Bool)
      → ((q : MySqlConnectionPool) → (later q).1 ≡ others)
      → (attempted attempt).1 ≡ (is_connected attempt || others)
  unfolding attempted
  attempted-connects no_memory others h = h p
  attempted-connects refused others h = h _
  attempted-connects connected others h = refl

  attempted-alive :
      (attempt : Attempt)
      → ((q : MySqlConnectionPool)
          → (later q).1 ≡ true
          → is_some (handle_at (later q).0 address) ≡ true)
      → (attempted attempt).1 ≡ true
      → is_some (handle_at (attempted attempt).0 address) ≡ true
  unfolding attempted adopt handle_at
  attempted-alive no_memory h e = h p e
  attempted-alive refused h e = h _ e
  attempted-alive connected h e =
      ap (λ o. is_some (handle_of o)) (insert_self address _ p.connections)

module _ (address : ℕ) (c : PooledConnection) (e : Examination) where
  -- A reconnection succeeds exactly if one of the attempts that it may make connects.
  reconnect_rounds-connects :
      (rounds n : ℕ) (p : MySqlConnectionPool)
      → (reconnect_rounds rounds n p address c e).1 ≡ some_connects e.attempts rounds n
  unfolding reconnect_rounds some_connects attempted
  reconnect_rounds-connects zero n p = refl
  reconnect_rounds-connects (suc rounds) n p =
      attempted-connects address c e.connected_at p
        (λ q. reconnect_rounds rounds (suc n) q address c e) (e.attempts n)
        (some_connects e.attempts rounds (suc n)) (λ q. reconnect_rounds-connects rounds (suc n) q)

  reconnect_rounds-alive :
      (rounds n : ℕ) (p : MySqlConnectionPool)
      → (reconnect_rounds rounds n p address c e).1 ≡ true
      → is_some (handle_at (reconnect_rounds rounds n p address c e).0 address) ≡ true
  unfolding reconnect_rounds attempted
  reconnect_rounds-alive zero n p h = absurd (cc)
  reconnect_rounds-alive (suc rounds) n p h =
      attempted-alive address c e.connected_at p
        (λ q. reconnect_rounds rounds (suc n) q address c e) (e.attempts n)
        (λ q. reconnect_rounds-alive rounds (suc n) q) h

is_connected-connected : (a : Attempt) → is_connected a ≡ true → a ≡ connected
is_connected-connected no_memory h = absurd (cc)
is_connected-connected refused h = absurd (cc)
is_connected-connected connected h = refl

-- One of the attempts connects.
some_connects_iff :
    (attempts : ℕ → Attempt) (rounds n : ℕ)
    → (some_connects attempts rounds n ≡ true)
      ↔ ((k : ℕ) × (n ≤ k) × (k < n + rounds) × (attempts k ≡ connected))
unfolding some_connects
some_connects_iff attempts zero n = (λ h. absurd (cc), λ (k, h, h', e). absurd (omega arith))
some_connects_iff attempts (suc rounds) n =
    let later = some_connects_iff attempts rounds (suc n) in
    (
      λ h. elim (Bool-cases (is_connected (attempts n))) [
        | inl k ↦ (n, (omega arith), (omega arith), is_connected-connected (attempts n) k)
        | inr k ↦
            let (m, from, below, e) = later.0 (ground (arith, k)) in
            (m, (omega arith), (omega arith), e)
      ],
      λ (m, from, below, e). elim (Bool-cases (m == n)) [
        | inl k ↦
            let here : m ≡ n = ground arith in
            let first : attempts n ≡ connected = ap attempts (sym here) ∙ e in rw first refl
        | inr k ↦ let rest = later.1 (m, (ground arith), (omega arith), e) in ground (arith, rest)
      ],
    )

examine-is_healthy :
    (p : MySqlConnectionPool) (address : ℕ) (c : PooledConnection) (e : Examination)
    → (examine p address c e).1 ≡ (
        not (should_ping p e.now c)
        || (not (is_null c.mysql) && e.ping_succeeds
            || some_connects e.attempts p.config.max_reconnect_attempts 0))
unfolding examine reconnect_connection close_connection
examine-is_healthy p address c e = ground (
  arith,
  reconnect_rounds-connects address (record c { mysql = none }) e p.config.max_reconnect_attempts 0
      (close_connection p address c),
)

healthy_iff :
    (o : Option ℕ) (due now : ℕ) (pinged connects : Bool)
    → ((not (is_null o || leb due now) || (not (is_null o) && pinged || connects)) ≡ true) ↔ (
        ((is_some o ≡ true) × (now < due))
        ⊎ ((is_some o ≡ true) × (pinged ≡ true))
        ⊎ (connects ≡ true))
healthy_iff none due now pinged connects = ground arith
healthy_iff (some h) due now pinged connects = ground arith

-- A connection that is examined is healthy exactly if it has a handle and was checked less than the
-- interval ago, or it has a handle and answers the ping, or one of as many attempts as the
-- configuration allows connects it again. The interval is in seconds, and times in nanoseconds.
pub examine-healthy :
    (p : MySqlConnectionPool) (address : ℕ) (c : PooledConnection) (e : Examination)
    → ((examine p address c e).1 ≡ true) ↔ (
        ((is_some c.mysql ≡ true)
          × (e.now < c.last_checked + p.config.idle_ping_interval_seconds * 1000000000))
        ⊎ ((is_some c.mysql ≡ true) × (e.ping_succeeds ≡ true))
        ⊎ ((k : ℕ) × (k < p.config.max_reconnect_attempts) × (e.attempts k ≡ connected)))
examine-healthy p address c e =
    let connects = some_connects e.attempts p.config.max_reconnect_attempts 0 in
    let due = c.last_checked + p.config.idle_ping_interval_seconds * 1000000000 in
    let told = examine-is_healthy p address c e in
    let healthy = healthy_iff c.mysql due e.now e.ping_succeeds connects in
    let attempts = some_connects_iff e.attempts p.config.max_reconnect_attempts 0 in
    (
      λ h. elim (healthy.0 (sym told ∙ h)) [
        | inl recent ↦ inl recent
        | inr (inl pinged) ↦ inr (inl pinged)
        | inr (inr some_attempt) ↦
            let (k, from, below, made) = attempts.0 some_attempt in
            inr (inr (k, (omega arith), made))
      ],
      λ h.
          told
          ∙ healthy.1 (elim h [
            | inl recent ↦ inl recent
            | inr (inl pinged) ↦ inr (inl pinged)
            | inr (inr (k, below, made)) ↦
                inr (inr (attempts.1 (k, (omega arith), (omega arith), made)))
          ]),
    )

is_some_null : (o : Option ℕ) → is_null o ≡ false → is_some o ≡ true
is_some_null none h = absurd (cc)
is_some_null (some h') h = refl

module _ (p : MySqlConnectionPool) (address : ℕ) (c : PooledConnection) (e : Examination)
    (there : lookup address p.connections ≡ some c) where
  reconnect-alive :
      (reconnect_connection p address c e).1 ≡ true
      → is_some (handle_at (reconnect_connection p address c e).0 address) ≡ true
  unfolding reconnect_connection
  reconnect-alive =
      reconnect_rounds-alive address (record c { mysql = none }) e p.config.max_reconnect_attempts 0
        (close_connection p address c)

  examined-alive :
      (healthy pinged : Bool)
      → (healthy ≡ true → is_some c.mysql ≡ true)
      → (pinged ≡ true → is_some c.mysql ≡ true)
      → (r : MySqlConnectionPool × Bool)
      → r ≡ (
          if healthy
          then (p, true)
          else if pinged
          then (
            record p {
              connections = insert address (record c { last_checked = e.pinged_at }) p.connections;
            },
            true,
          )
          else reconnect_connection p address c e)
      → r.1 ≡ true
      → is_some (handle_at r.0 address) ≡ true
  unfolding handle_at
  examined-alive true pinged h h' r same ok =
      ap (λ x. is_some (handle_at x.0 address)) same
      ∙ (ap (λ o. is_some (handle_of o)) there ∙ h refl)
  examined-alive false true h h' r same ok =
      ap (λ x. is_some (handle_at x.0 address)) same
      ∙ (ap (λ o. is_some (handle_of o)) (insert_self address _ p.connections) ∙ h' refl)
  examined-alive false false h h' r same ok =
      ap (λ x. is_some (handle_at x.0 address)) same
      ∙ reconnect-alive (sym (ap (λ x. x.1) same) ∙ ok)

  examine-alive :
      (examine p address c e).1 ≡ true
      → is_some (handle_at (examine p address c e).0 address) ≡ true
  unfolding examine
  examine-alive =
      examined-alive (not (should_ping p e.now c)) (not (is_null c.mysql) && e.ping_succeeds)
        (λ h. is_some_null c.mysql (ground arith)) (λ h. is_some_null c.mysql (ground arith))
        (examine p address c e) refl

found-alive :
    (p : MySqlConnectionPool) (address : ℕ) (e : Examination) (o : Option PooledConnection)
    → lookup address p.connections ≡ o
    → (examine_found p address o e).1 ≡ true
    → is_some (handle_at (examine_found p address o e).0 address) ≡ true
unfolding examine_found
found-alive p address e none there h = absurd (cc)
found-alive p address e (some c) there h = examine-alive p address c e there h

pub ensure_healthy-alive :
    (p : MySqlConnectionPool) (address : ℕ) (e : Examination)
    → (ensure_healthy p address e).1 ≡ true
    → is_some (handle_at (ensure_healthy p address e).0 address) ≡ true
unfolding ensure_healthy
ensure_healthy-alive p address e = found-alive p address e _ refl

handed-alive :
    (p q : MySqlConnectionPool) (address a : ℕ) (healthy : Bool)
    → (healthy ≡ true → is_some (handle_at p address) ≡ true)
    → (r : MySqlConnectionPool × Option ℕ) → r ≡ (if healthy then (p, some address) else (q, none))
    → r.1 ≡ some a
    → is_some (handle_at r.0 a) ≡ true
handed-alive p q address a false h r same e = let e' = ap (λ x. x.1) same in absurd (cc)
handed-alive p q address a true h r same e =
    let e' : some address ≡ some a = sym (ap (λ x. x.1) same) ∙ e in
    let same_address : address ≡ a = cc in
    ap (λ x. is_some (handle_at x.0 a)) same
    ∙ (ap (λ k. is_some (handle_at p k)) (sym same_address) ∙ h refl)

hand_out-alive :
    (p : MySqlConnectionPool) (taken : Option ℕ) (last : Examination) (a : ℕ)
    → (hand_out (p, taken) last).1 ≡ some a
    → is_some (handle_at (hand_out (p, taken) last).0 a) ≡ true
unfolding hand_out
hand_out-alive p none last a e = absurd (cc)
hand_out-alive p (some address) last a e =
    let r = ensure_healthy p address last in
    handed-alive r.0 (release r.0 address last.now) address a r.1
      (ensure_healthy-alive p address last) (hand_out (p, some address) last) refl e

-- A caller is never given a connection without a handle.
pub acquire-alive :
    (p : MySqlConnectionPool) (now : ℕ) (e : ℕ → Examination) (last : Examination) (a : ℕ)
    → (acquire p now e last).1 ≡ some a
    → is_some (handle_at (acquire p now e last).0 a) ≡ true
unfolding acquire
acquire-alive p now e last a =
    let r = idle_health_check_unlocked p now in
    let taken = take_front (check_candidates r.0 e 0 r.1) in hand_out-alive taken.0 taken.1 last a
