-- ===== src/Tests/Connections.antt =====
-- A pool of one connection, which a caller takes and gives back.
use cpp_chat.Base.{
  ℕ, ◌↔◌, ◌⊎◌, ◌<◌, ◌+◌, ◌*◌, ◌≡◌, refl, true, false, [], ◌++◌, ◌==◌, if◌then◌else◌, is_some,
}
use cpp_chat.MySqlConnectionPool.{
  MySqlConnectionPool, MySqlConnectionPoolConfig, Examination, refused, connected, init, take_front,
  acquire, examine, new_slot,
}
use cpp_chat.MySqlConnectionPool.Health.{handle_at, acquire-alive, examine-healthy}
use cpp_chat.MySqlConnectionPool.Tracked.{IsSafe, guard_of}
use cpp_chat.MySqlConnectionPool.Tracked.Start.{new_pool, made, initialized, taken, Reaches-IsSafe}

abbrev small_config : MySqlConnectionPoolConfig
small_config = record {
  pool_size = 1;
  connect_timeout_seconds = 3;
  read_timeout_seconds = 5;
  write_timeout_seconds = 5;
  acquire_timeout_ms = 3000;
  max_reconnect_attempts = 2;
  idle_ping_interval_seconds = 30;
  idle_check_interval_seconds = 10;
}

abbrev small_pool : MySqlConnectionPool
small_pool = (init (new_pool small_config) small_config (λ n. connected) 1).0

Reaches-IsSafe_example : IsSafe (take_front small_pool).0 (guard_of (take_front small_pool).1 ++ [])
Reaches-IsSafe_example =
    Reaches-IsSafe (taken (initialized small_config (λ n. connected) 1 (made small_config)))

-- The server has closed the connection, and the first attempt to connect again is refused.
abbrev gone : Examination
gone = record {
  now = 60000000001;
  ping_succeeds = false;
  pinged_at = 0;
  attempts = λ n. if n == 0 then refused else connected;
  connected_at = 60000000002;
}

acquire-alive_example :
    is_some (handle_at (acquire small_pool 60000000001 (λ n. gone) gone).0 0) ≡ true
unfolding acquire init new_pool
acquire-alive_example = acquire-alive small_pool 60000000001 (λ n. gone) gone 0 refl

examine-healthy_example : ((examine small_pool 0 (new_slot 0 1 1) gone).1 ≡ true) ↔ (
    ((is_some (new_slot 0 1 1).mysql ≡ true) × (60000000001 < 1 + 30 * 1000000000))
    ⊎ ((is_some (new_slot 0 1 1).mysql ≡ true) × (false ≡ true))
    ⊎ ((k : ℕ) × (k < 2) × (gone.attempts k ≡ connected)))
unfolding init new_pool
examine-healthy_example = examine-healthy small_pool 0 (new_slot 0 1 1) gone
