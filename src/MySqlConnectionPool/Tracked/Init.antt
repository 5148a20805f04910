-- ===== src/MySqlConnectionPool/Tracked/Init.antt =====
-- `init` and `shutdown` of a pool that nobody holds a connection of.
use cpp_chat.Base.{
  ℕ, zero, suc, ◌≤◌, ◌≡◌, refl, ap, ◌∙◌, true, false, not, Bool, List, [], ◌∷◌, ◌++◌, none, some,
  arith, ◌==◌, is_some, if◌then◌else◌, nat_eq,
}
use cpp_chat.Base.Maps.{lookup}
use cpp_chat.MySqlConnectionPool.{
  MySqlConnectionPool, MySqlConnectionPoolConfig, PooledConnection, Attempt, no_memory, refused,
  connected, create_connection, close_all_unlocked, shutdown, create_slots, after_create, new_slot,
  CreatedSlots, addresses, finish_init, init, positive_pool_config,
}
use cpp_chat.MySqlConnectionPool.Slots.{count, count-append, present, IsTracked}
use cpp_chat.MySqlConnectionPool.Tracked.{IsSafe}

cleared-IsSafe : (p : MySqlConnectionPool) → IsSafe (close_all_unlocked p) []
unfolding close_all_unlocked IsTracked count lookup
cleared-IsSafe p = record { tracked = λ a. refl; stopped_empty = λ h a. refl }

-- The slots made so far: each under one address, below the next one.
record IsDistinct (created : List (ℕ × PooledConnection)) (next : ℕ) : Type 0 where
  once : (a : ℕ) → count a (addresses created) ≡ present (lookup a created)
  below : (a : ℕ) → next ≤ a → lookup a created ≡ none

lookup-append_one :
    (created : List (ℕ × PooledConnection)) (k a : ℕ) (c : PooledConnection)
    → lookup a (created ++ (k, c) ∷ [])
      ≡ (if is_some (lookup a created) then lookup a created else if k == a then some c else none)
unfolding lookup
lookup-append_one [] k a c = refl
lookup-append_one ((j, d) ∷ created) k a c = ground (arith, lookup-append_one created k a c)

addresses-append_one :
    (created : List (ℕ × PooledConnection)) (k : ℕ) (c : PooledConnection)
    → addresses (created ++ (k, c) ∷ []) ≡ addresses created ++ k ∷ []
unfolding addresses
addresses-append_one [] k c = refl
addresses-append_one ((j, d) ∷ created) k c = ap (◌∷◌ j) (addresses-append_one created k c)

append_one-IsDistinct :
    (created : List (ℕ × PooledConnection)) (next : ℕ) (c : PooledConnection)
    → IsDistinct created next
    → IsDistinct (created ++ (next, c) ∷ []) (suc next)
unfolding count
append_one-IsDistinct created next c v = record {
  once = λ a.
      let free = v.below next (omega arith) in
      let found = lookup-append_one created next a c in
      let listed = ap (λ l. count a l) (addresses-append_one created next c) in
      let counted = count-append a (addresses created) (next ∷ []) in
      let before = v.once a in ground (arith, free, found, listed, counted, before, v.below a);
  below = λ a h.
      let free = v.below a (omega arith) in ground (arith, lookup-append_one created next a c);
}

-- What the loop of `init` leaves alone, and what it has made.
record IsMade (p p' : MySqlConnectionPool) (created : List (ℕ × PooledConnection)) : Type 0 where
  available : p'.available ≡ p.available
  connections : p'.connections ≡ p.connections
  stopped : p'.stopped ≡ p.stopped
  distinct : IsDistinct created p'.next_address

IsMade-later :
    (p q p' : MySqlConnectionPool) (created : List (ℕ × PooledConnection))
    → q.available ≡ p.available
    → q.connections ≡ p.connections
    → q.stopped ≡ p.stopped
    → IsMade q p' created
    → IsMade p p' created
IsMade-later p q p' created e1 e2 e3 v = record {
  available = v.available ∙ e1;
  connections = v.connections ∙ e2;
  stopped = v.stopped ∙ e3;
  distinct = v.distinct;
}

module _ (attempts : ℕ → Attempt) (now : ℕ) where
  -- The rounds behind this one keep what they are given.
  abbrev RoundsMake : ℕ → ℕ → Type 0
  RoundsMake rounds n =
      (p : MySqlConnectionPool) (created : List (ℕ × PooledConnection))
      → IsDistinct created p.next_address
      → IsMade p (create_slots rounds n p attempts now created).0
          (create_slots rounds n p attempts now created).1.0

  round : ℕ → ℕ → MySqlConnectionPool → List (ℕ × PooledConnection) → Attempt → CreatedSlots
  unfolding create_connection after_create
  round rounds n p created attempt =
      let (p', made) = create_connection p attempt in
      after_create p' created made (λ h.
        create_slots rounds (suc n)
          (record p' { next_address = suc p.next_address; next_generation = suc p.next_generation })
          attempts now (created ++ (p.next_address, new_slot h now p.next_generation) ∷ []))

  round-IsMade :
      (rounds n : ℕ) (p : MySqlConnectionPool) (created : List (ℕ × PooledConnection))
      (attempt : Attempt)
      → RoundsMake rounds (suc n)
      → IsDistinct created p.next_address
      → IsMade p (round rounds n p created attempt).0 (round rounds n p created attempt).1.0
  unfolding round
  round-IsMade rounds n p created no_memory later v = record {
    available = refl;
    connections = refl;
    stopped = refl;
    distinct = v;
  }
  round-IsMade rounds n p created refused later v = record {
    available = refl;
    connections = refl;
    stopped = refl;
    distinct = v;
  }
  round-IsMade rounds n p created connected later v =
      IsMade-later p _ _ _ refl refl refl
        (later _ _ (append_one-IsDistinct created p.next_address _ v))

  create_slots-IsMade : (rounds n : ℕ) → RoundsMake rounds n
  unfolding create_slots round
  create_slots-IsMade zero n p created v = record {
    available = refl;
    connections = refl;
    stopped = refl;
    distinct = v;
  }
  create_slots-IsMade (suc rounds) n p created v =
      round-IsMade rounds n p created (attempts n) (create_slots-IsMade rounds (suc n)) v

finish_init-IsSafe :
    (p : MySqlConnectionPool) (created : List (ℕ × PooledConnection)) (complete : Bool) (now : ℕ)
    → p.available ≡ []
    → p.connections ≡ []
    → p.stopped ≡ false
    → IsDistinct created p.next_address
    → IsSafe (finish_init p created complete now).0 []
unfolding finish_init IsTracked count lookup
finish_init-IsSafe p created true now e1 e2 e3 v = record {
  tracked = λ a. let h = v.once a in omega arith;
  stopped_empty = λ h. absurd (cc);
}
finish_init-IsSafe p created false now e1 e2 e3 v =
    rw (e1, e2) (record { tracked = λ a. refl; stopped_empty = λ h a. refl })

-- What the loop of `init` starts with.
abbrev cleared : MySqlConnectionPool → MySqlConnectionPoolConfig → MySqlConnectionPool
cleared p config =
    close_all_unlocked (record p { config = config; stopped = false; is_ready = false })

module _ (p : MySqlConnectionPool) (config : MySqlConnectionPoolConfig) (attempts : ℕ → Attempt)
    (now : ℕ) where
  abbrev init_slots : CreatedSlots
  init_slots = create_slots config.pool_size 0 (cleared p config) attempts now []

  init_slots-IsMade : IsMade (cleared p config) init_slots.0 init_slots.1.0
  unfolding addresses count lookup
  init_slots-IsMade =
      create_slots-IsMade attempts now config.pool_size 0 (cleared p config) []
        (record { once = λ a. refl; below = λ a h. refl })

  made-IsSafe : IsSafe (finish_init init_slots.0 init_slots.1.0 init_slots.1.1 now).0 []
  unfolding close_all_unlocked
  made-IsSafe =
      let v = init_slots-IsMade in
      finish_init-IsSafe init_slots.0 init_slots.1.0 init_slots.1.1 now v.available v.connections
        v.stopped v.distinct

  init-cases :
      (is_ready invalid : Bool)
      → IsSafe p []
      → IsSafe
          (if◌then◌else◌ {A = MySqlConnectionPool × Bool} is_ready
            (p, true)
            (if◌then◌else◌ {A = MySqlConnectionPool × Bool} invalid
              (record (cleared p config) { stopped = true }, false)
              (finish_init init_slots.0 init_slots.1.0 init_slots.1.1 now))).0
          []
  unfolding close_all_unlocked IsTracked count lookup
  init-cases true invalid v = v
  init-cases false true v = record { tracked = λ a. refl; stopped_empty = λ h a. refl }
  init-cases false false v = made-IsSafe

  -- A pool that nobody holds a slot of may be initialized, again or for the first time.
  pub init-IsSafe : IsSafe p [] → IsSafe (init p config attempts now).0 []
  unfolding init
  init-IsSafe v = init-cases p.is_ready (not (positive_pool_config config)) v

shutdown-cases :
    (p : MySqlConnectionPool) (done : Bool)
    → IsSafe p []
    → IsSafe
        (if done then p else close_all_unlocked (record p { stopped = true; is_ready = false }))
        []
shutdown-cases p true v = v
shutdown-cases p false v = cleared-IsSafe (record p { stopped = true; is_ready = false })

pub shutdown-IsSafe : (p : MySqlConnectionPool) → IsSafe p [] → IsSafe (shutdown p) []
unfolding shutdown
shutdown-IsSafe p v = shutdown-cases p _ v
