-- ===== src/MySqlConnectionPool/Tracked/Start.antt =====
-- The states of a pool whose callers return what they hold before it is shut down.
use cpp_chat.Base.{ℕ, ◌≡◌, refl, true, false, List, [], ◌∷◌, ◌++◌, arith, nat_eq}
use cpp_chat.Base.Maps.{lookup}
use cpp_chat.MySqlConnectionPool.{
  MySqlConnectionPool, MySqlConnectionPoolConfig, Examination, Attempt, ensure_healthy, release,
  idle_health_check_unlocked, take_front, shutdown, init,
}
use cpp_chat.MySqlConnectionPool.Slots.{count, IsTracked}
use cpp_chat.MySqlConnectionPool.Tracked.Init.{init-IsSafe, shutdown-IsSafe}
use cpp_chat.MySqlConnectionPool.Tracked.{
  IsSafe, ensure_healthy-IsSafe, release-IsSafe, idle-IsSafe, take_front-IsSafe, guard_of,
}

-- The default constructor.
unfoldable pub new_pool : MySqlConnectionPoolConfig → MySqlConnectionPool
new_pool config = record {
  config = config;
  available = [];
  connections = [];
  last_idle_check = 0;
  next_generation = 1;
  is_ready = false;
  stopped = true;
  next_address = 0;
  next_handle = 0;
  open_handles = [];
}

new_pool-IsSafe : (config : MySqlConnectionPoolConfig) → IsSafe (new_pool config) []
unfolding new_pool IsTracked count lookup
new_pool-IsSafe config = record { tracked = λ a. refl; stopped_empty = λ h a. refl }

reordered-IsSafe :
    (p : MySqlConnectionPool) (held held' : List ℕ)
    → ((a : ℕ) → count a held' ≡ count a held)
    → IsSafe p held
    → IsSafe p held'
unfolding IsTracked
reordered-IsSafe p held held' same v = record {
  tracked = λ a. let e = same a in let before = v.tracked a in omega arith;
  stopped_empty = v.stopped_empty;
}

-- The states of a pool, with what its callers hold: each step of `acquire`, `release`, `init` and
-- `shutdown`, in any order. A caller examines what it holds, and gives back what it holds; nobody
-- holds a slot when the pool is initialized or shut down.
pub data Reaches : MySqlConnectionPool → List ℕ → Type 0 where
  made : (config : MySqlConnectionPoolConfig) → Reaches (new_pool config) []
  initialized :
      {p : MySqlConnectionPool} (config : MySqlConnectionPoolConfig) (attempts : ℕ → Attempt)
      (now : ℕ)
      → Reaches p []
      → Reaches (init p config attempts now).0 []
  idle_checked :
      {p : MySqlConnectionPool} {held : List ℕ} (now : ℕ)
      → Reaches p held
      → Reaches (idle_health_check_unlocked p now).0 ((idle_health_check_unlocked p now).1 ++ held)
  taken :
      {p : MySqlConnectionPool} {held : List ℕ}
      → Reaches p held
      → Reaches (take_front p).0 (guard_of (take_front p).1 ++ held)
  examined :
      {p : MySqlConnectionPool} {held : List ℕ} (address : ℕ) (e : Examination)
      → Reaches p (address ∷ held)
      → Reaches (ensure_healthy p address e).0 (address ∷ held)
  released :
      {p : MySqlConnectionPool} {held : List ℕ} (address now : ℕ)
      → Reaches p (address ∷ held)
      → Reaches (release p address now) held
  reordered :
      {p : MySqlConnectionPool} {held held' : List ℕ}
      → Reaches p held
      → ((a : ℕ) → count a held' ≡ count a held)
      → Reaches p held'
  closed_down : {p : MySqlConnectionPool} → Reaches p [] → Reaches (shutdown p) []

-- Whatever steps the callers of a pool take, and in which order: each of its connections is either
-- available or held by one caller, once, and no address that is available or held is of a connection
-- that is gone; a pool that is stopped has no connection. Nobody may hold a connection when the pool
-- is initialized or shut down.
pub Reaches-IsSafe : {p : MySqlConnectionPool} {held : List ℕ} → Reaches p held → IsSafe p held
Reaches-IsSafe (made config) = new_pool-IsSafe config
Reaches-IsSafe (initialized {p} config attempts now r) =
    init-IsSafe p config attempts now (Reaches-IsSafe r)
Reaches-IsSafe (idle_checked {p} {held} now r) = idle-IsSafe p held now (Reaches-IsSafe r)
Reaches-IsSafe (taken {p} {held} r) = take_front-IsSafe p held (Reaches-IsSafe r)
Reaches-IsSafe (examined {p} {held} address e r) =
    ensure_healthy-IsSafe p (address ∷ held) address e (Reaches-IsSafe r)
Reaches-IsSafe (released {p} {held} address now r) =
    release-IsSafe p held address now (Reaches-IsSafe r)
Reaches-IsSafe (reordered {p} {held} {held'} r same) =
    reordered-IsSafe p held held' same (Reaches-IsSafe r)
Reaches-IsSafe (closed_down {p} r) = shutdown-IsSafe p (Reaches-IsSafe r)
