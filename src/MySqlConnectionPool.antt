-- ===== src/MySqlConnectionPool.antt =====
-- src/storage/mysql_connection_pool.cpp and include/cpp_chat/storage/mysql_connection_pool.h. A
-- `PooledConnection` is an entry of `connections` under its address; a `MYSQL` handle is a number,
-- and `open_handles` are those that libmysqlclient has made and not closed. What libmysqlclient
-- answers and what the clock shows, in nanoseconds, are arguments.
pub mod Slots
pub mod Tracked
pub mod Health
use cpp_chat.Base.{
  ℕ, zero, suc, ◌+◌, ◌*◌, Bool, true, false, not, ◌&&◌, ◌||◌, List, [], ◌∷◌, ◌++◌, Option, none,
  some, ltb, leb, ◌==◌, if◌then◌else◌, Bytes, is_empty, nat_eq,
}
use cpp_chat.Base.Maps.{lookup, insert}

-- The numbers of the configuration, whose texts only `mysql_real_connect` reads. All are of type `int`;
-- a configuration with a negative one is refused like one with a zero, so they are numbers here.
pub record MySqlConnectionPoolConfig : Type 0 where
  pub pool_size : ℕ
  pub connect_timeout_seconds : ℕ
  pub read_timeout_seconds : ℕ
  pub write_timeout_seconds : ℕ
  pub acquire_timeout_ms : ℕ
  pub max_reconnect_attempts : ℕ
  pub idle_ping_interval_seconds : ℕ
  pub idle_check_interval_seconds : ℕ

pub record PooledConnection : Type 0 where
  pub mysql : Option ℕ
  pub last_used : ℕ
  pub last_checked : ℕ
  pub generation : ℕ

-- The mutex and its condition variable are left out; `next_address` and `next_handle` are the next
-- address and the next handle that were never given out.
pub record MySqlConnectionPool : Type 0 where
  pub config : MySqlConnectionPoolConfig
  pub available : List ℕ
  pub connections : List (ℕ × PooledConnection)
  pub last_idle_check : ℕ
  pub next_generation : ℕ
  pub is_ready : Bool
  pub stopped : Bool
  pub next_address : ℕ
  pub next_handle : ℕ
  pub open_handles : List ℕ

unfoldable pub positive_pool_config : MySqlConnectionPoolConfig → Bool
positive_pool_config config =
    ltb 0 config.pool_size
    && (ltb 0 config.connect_timeout_seconds
        && (ltb 0 config.read_timeout_seconds
            && (ltb 0 config.write_timeout_seconds
                && (ltb 0 config.acquire_timeout_ms
                    && (ltb 0 config.idle_ping_interval_seconds
                        && ltb 0 config.idle_check_interval_seconds)))))

-- `std::chrono::seconds`
abbrev pub seconds : ℕ → ℕ
seconds n = n * 1000000000

-- How `mysql_init` and `mysql_real_connect` end.
pub data Attempt : Type 0 where
  no_memory refused connected : Attempt

unfoldable pub create_connection : MySqlConnectionPool → Attempt → MySqlConnectionPool × Option ℕ
create_connection p no_memory = (p, none)
create_connection p refused = (record p { next_handle = suc p.next_handle }, none)
create_connection p connected = (
  record p { next_handle = suc p.next_handle; open_handles = p.next_handle ∷ p.open_handles },
  some p.next_handle,
)

-- The open handles after `mysql_close`.
unfoldable pub mysql_close : ℕ → List ℕ → List ℕ
mysql_close h [] = []
mysql_close h (x ∷ handles) =
    let rest = mysql_close h handles in if x == h then handles else x ∷ rest

unfoldable pub close_handle : Option ℕ → List ℕ → List ℕ
unfolding mysql_close
close_handle none handles = handles
close_handle (some h) handles = mysql_close h handles

abbrev pub put : MySqlConnectionPool → ℕ → PooledConnection → MySqlConnectionPool
put p address connection = record p { connections = insert address connection p.connections }

unfoldable pub close_connection : MySqlConnectionPool → ℕ → PooledConnection → MySqlConnectionPool
unfolding close_handle insert
close_connection p address connection = record p {
  connections = insert address (record connection { mysql = none }) p.connections;
  open_handles = close_handle connection.mysql p.open_handles;
}

-- What is answered while one connection is examined: the clock, `mysql_ping`, and the attempts to
-- connect again, which are numbered.
pub record Examination : Type 0 where
  pub now : ℕ
  pub ping_succeeds : Bool
  pub pinged_at : ℕ
  pub attempts : ℕ → Attempt
  pub connected_at : ℕ

-- Behind `create_connection` in the loop of `reconnect_connection`.
unfoldable pub adopt : MySqlConnectionPool → ℕ → PooledConnection → ℕ → ℕ → MySqlConnectionPool
unfolding insert
adopt p address connection now h = record p {
  connections =
      insert address
        (record connection {
          mysql = some h;
          last_used = now;
          last_checked = now;
          generation = p.next_generation;
        })
        p.connections;
  next_generation = suc p.next_generation;
}

-- The round behind `create_connection`, where `later` is what the rounds behind it give.
unfoldable pub after_attempt :
    MySqlConnectionPool
    → ℕ
    → PooledConnection
    → ℕ
    → Option ℕ
    → MySqlConnectionPool × Bool
    → MySqlConnectionPool × Bool
unfolding adopt
after_attempt p address connection now none later = later
after_attempt p address connection now (some h) later = (adopt p address connection now h, true)

-- The loop, with as many rounds as are left; `n` numbers the attempt.
unfoldable pub reconnect_rounds :
    ℕ → ℕ → MySqlConnectionPool → ℕ → PooledConnection → Examination → MySqlConnectionPool × Bool
unfolding create_connection after_attempt
reconnect_rounds zero n p address connection e = (p, false)
reconnect_rounds (suc rounds) n p address connection e =
    let (p', made) = create_connection p (e.attempts n) in
    let later = reconnect_rounds rounds (suc n) p' address connection e in
    after_attempt p' address connection e.connected_at made later

unfoldable pub reconnect_connection :
    MySqlConnectionPool → ℕ → PooledConnection → Examination → MySqlConnectionPool × Bool
unfolding close_connection reconnect_rounds
reconnect_connection p address connection e =
    reconnect_rounds p.config.max_reconnect_attempts 0 (close_connection p address connection)
      address (record connection { mysql = none }) e

abbrev pub is_null : Option ℕ → Bool
is_null none = true
is_null (some h) = false

-- `connection.mysql == nullptr || now - last_checked >= idle_ping_interval_seconds`
abbrev pub should_ping : MySqlConnectionPool → ℕ → PooledConnection → Bool
should_ping p now connection =
    is_null connection.mysql
    || leb (connection.last_checked + seconds p.config.idle_ping_interval_seconds) now

unfoldable pub examine :
    MySqlConnectionPool → ℕ → PooledConnection → Examination → MySqlConnectionPool × Bool
unfolding reconnect_connection insert
examine p address connection e =
    if not (should_ping p e.now connection)
    then (p, true)
    else if not (is_null connection.mysql) && e.ping_succeeds
    then (
      record p {
        connections =
            insert address (record connection { last_checked = e.pinged_at }) p.connections;
      },
      true,
    )
    else reconnect_connection p address connection e

-- The pointer is to an entry of `connections`: `Tracked` shows that there is one.
examine_found :
    MySqlConnectionPool → ℕ → Option PooledConnection → Examination → MySqlConnectionPool × Bool
unfolding examine
examine_found p address none e = (p, false)
examine_found p address (some connection) e = examine p address connection e

unfoldable pub ensure_healthy : MySqlConnectionPool → ℕ → Examination → MySqlConnectionPool × Bool
unfolding examine_found lookup
ensure_healthy p address e = examine_found p address (lookup address p.connections) e

release_found : MySqlConnectionPool → ℕ → ℕ → Option PooledConnection → MySqlConnectionPool
unfolding close_connection insert
release_found p address now none = p
release_found p address now (some connection) =
    if p.stopped then close_connection p address connection else record p {
      connections = insert address (record connection { last_used = now }) p.connections;
      available = p.available ++ address ∷ [];
    }

unfoldable pub release : MySqlConnectionPool → ℕ → ℕ → MySqlConnectionPool
unfolding release_found lookup
release p address now = release_found p address now (lookup address p.connections)

abbrev pub is_candidate : MySqlConnectionPool → ℕ → Option PooledConnection → Bool
is_candidate p now none = false
is_candidate p now (some connection) = should_ping p now connection

-- The loop of `idle_health_check_unlocked`: the candidates, and those that are kept.
unfoldable pub split_idle : MySqlConnectionPool → ℕ → List ℕ → List ℕ × List ℕ
unfolding lookup
split_idle p now [] = ([], [])
split_idle p now (address ∷ available) =
    let (candidates, keep) = split_idle p now available in
    if is_candidate p now (lookup address p.connections)
    then (address ∷ candidates, keep)
    else (candidates, address ∷ keep)

unfoldable pub idle_health_check_unlocked : MySqlConnectionPool → ℕ → MySqlConnectionPool × List ℕ
unfolding split_idle
idle_health_check_unlocked p now =
    let (candidates, keep) = split_idle p now p.available in
    let checked_lately =
      not (p.last_idle_check == 0)
      && ltb now (p.last_idle_check + seconds p.config.idle_check_interval_seconds) in
    if p.stopped || is_empty p.available || checked_lately
    then (p, [])
    else (record p { last_idle_check = now; available = keep }, candidates)

-- The loop over the candidates in `acquire`, the `n`-th and those behind it.
unfoldable pub check_candidates :
    MySqlConnectionPool → (ℕ → Examination) → ℕ → List ℕ → MySqlConnectionPool
unfolding ensure_healthy release
check_candidates p e n [] = p
check_candidates p e n (address ∷ candidates) =
    check_candidates (release (ensure_healthy p address (e n)).0 address (e n).now) e (suc n)
      candidates

-- The second block of `acquire`, when the wait is over.
take_from : MySqlConnectionPool → List ℕ → MySqlConnectionPool × Option ℕ
take_from p [] = (p, none)
take_from p (address ∷ available) =
    if p.stopped then (p, none) else (record p { available = available }, some address)

unfoldable pub take_front : MySqlConnectionPool → MySqlConnectionPool × Option ℕ
unfolding take_from
take_front p = take_from p p.available

-- The end of `acquire`.
unfoldable pub hand_out :
    MySqlConnectionPool × Option ℕ → Examination → MySqlConnectionPool × Option ℕ
unfolding ensure_healthy release
hand_out (p, none) e = (p, none)
hand_out (p, some address) e =
    let (p', healthy) = ensure_healthy p address e in
    if healthy then (p', some address) else (release p' address e.now, none)

-- `acquire` while no other thread uses the pool. A guard is the address it holds.
unfoldable pub acquire :
    MySqlConnectionPool → ℕ → (ℕ → Examination) → Examination → MySqlConnectionPool × Option ℕ
unfolding idle_health_check_unlocked check_candidates take_front hand_out
acquire p now examinations last =
    let (p', candidates) = idle_health_check_unlocked p now in
    hand_out (take_front (check_candidates p' examinations 0 candidates)) last

-- `reset` of a guard, which its destructor calls, and the assignment that moves `other` into it; each
-- with the guards afterwards.
unfoldable pub reset : MySqlConnectionPool → ℕ → Option ℕ → MySqlConnectionPool × Option ℕ
unfolding release
reset p now none = (p, none)
reset p now (some address) = (release p address now, none)

unfoldable pub move_assign :
    MySqlConnectionPool → ℕ → Option ℕ → Option ℕ → MySqlConnectionPool × (Option ℕ × Option ℕ)
unfolding reset
move_assign p now guard other = ((reset p now guard).0, (other, none))

-- The open handles when each of `connections` is closed.
unfoldable pub close_all : List (ℕ × PooledConnection) → List ℕ → List ℕ
unfolding close_handle
close_all [] handles = handles
close_all ((address, connection) ∷ connections) handles =
    close_all connections (close_handle connection.mysql handles)

unfoldable pub close_all_unlocked : MySqlConnectionPool → MySqlConnectionPool
unfolding close_all
close_all_unlocked p = record p {
  available = [];
  connections = [];
  open_handles = close_all p.connections p.open_handles;
}

unfoldable pub shutdown : MySqlConnectionPool → MySqlConnectionPool
unfolding close_all_unlocked
shutdown p =
    if p.stopped && is_empty p.connections
    then p
    else close_all_unlocked (record p { stopped = true; is_ready = false })

unfoldable pub ready : MySqlConnectionPool → Bool
ready p = p.is_ready && not p.stopped

-- What the loop of `init` ends with: the pool, the connections that are made, or those made before
-- one could not be, and whether all are.
abbrev pub CreatedSlots : Type 0
CreatedSlots = MySqlConnectionPool × (List (ℕ × PooledConnection) × Bool)

after_create :
    MySqlConnectionPool → List (ℕ × PooledConnection) → Option ℕ → (ℕ → CreatedSlots) → CreatedSlots
after_create p created none later = (p, (created, false))
after_create p created (some h) later = later h

-- The slot that a round of the loop makes.
abbrev pub new_slot : ℕ → ℕ → ℕ → PooledConnection
new_slot h now generation = record {
  mysql = some h;
  last_used = now;
  last_checked = now;
  generation = generation;
}

unfoldable pub create_slots :
    ℕ → ℕ → MySqlConnectionPool → (ℕ → Attempt) → ℕ → List (ℕ × PooledConnection) → CreatedSlots
unfolding create_connection after_create
create_slots zero n p attempts now created = (p, (created, true))
create_slots (suc rounds) n p attempts now created =
    let (p', made) = create_connection p (attempts n) in
    after_create p' created made (λ h.
      create_slots rounds (suc n)
        (record p' { next_address = suc p.next_address; next_generation = suc p.next_generation })
        attempts now (created ++ (p.next_address, new_slot h now p.next_generation) ∷ []))

unfoldable pub addresses : List (ℕ × PooledConnection) → List ℕ
addresses [] = []
addresses ((address, connection) ∷ connections) = address ∷ addresses connections

-- `init` behind the loop.
unfoldable pub finish_init :
    MySqlConnectionPool → List (ℕ × PooledConnection) → Bool → ℕ → MySqlConnectionPool × Bool
unfolding close_all addresses
finish_init p created false now =
    (record p { stopped = true; open_handles = close_all created p.open_handles }, false)
finish_init p created true now = (
  record p {
    available = addresses created;
    connections = created;
    last_idle_check = now;
    is_ready = true;
  },
  true,
)

unfoldable pub init :
    MySqlConnectionPool → MySqlConnectionPoolConfig → (ℕ → Attempt) → ℕ → MySqlConnectionPool × Bool
unfolding close_all_unlocked positive_pool_config create_slots finish_init
init p config attempts now =
    let cleared =
      close_all_unlocked (record p { config = config; stopped = false; is_ready = false }) in
    let (p', (created, complete)) = create_slots config.pool_size 0 cleared attempts now [] in
    if p.is_ready
    then (p, true)
    else if not (positive_pool_config config)
    then (record cleared { stopped = true }, false)
    else finish_init p' created complete now
