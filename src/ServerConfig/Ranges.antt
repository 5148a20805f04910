-- ===== src/ServerConfig/Ranges.antt =====
-- Every size and timeout that a configuration is loaded with is one the server can run with.
use cpp_chat.Base.{ℕ, ◌≤◌, Bool, Option, none, some, arith, Bytes}
use cpp_chat.Storage.Users.Password.{stoi}
use cpp_chat.ServerConfig.{
  ServerConfig, EnvFile, default_config, load_default_config, file_settings, env_settings,
  parse_port_or_default, parse_positive_int_or_default, parse_non_negative_int_or_default,
  get_env_port_or_default, get_env_positive_int_or_default, get_env_non_negative_int_or_default,
  in_range_or_default, int_max, load_env_file,
}

unfoldable pub IsPort : ℕ → Type 0
IsPort n = (1 ≤ n) × (n ≤ 65535)

unfoldable pub IsPositiveInt : ℕ → Type 0
IsPositiveInt n = (1 ≤ n) × (n ≤ int_max)

pub record IsUsable (c : ServerConfig) : Type 0 where
  pub log_db_port : IsPort c.log_db_port
  pub db_pool_size : IsPositiveInt c.db_pool_size
  pub db_connect_timeout_seconds : IsPositiveInt c.db_connect_timeout_seconds
  pub db_read_timeout_seconds : IsPositiveInt c.db_read_timeout_seconds
  pub db_write_timeout_seconds : IsPositiveInt c.db_write_timeout_seconds
  pub db_acquire_timeout_ms : IsPositiveInt c.db_acquire_timeout_ms
  pub db_max_reconnect_attempts : c.db_max_reconnect_attempts ≤ int_max
  pub db_idle_ping_interval_seconds : IsPositiveInt c.db_idle_ping_interval_seconds
  pub db_idle_check_interval_seconds : IsPositiveInt c.db_idle_check_interval_seconds
  pub max_read_buffer_bytes : IsPositiveInt c.max_read_buffer_bytes
  pub max_write_buffer_bytes : IsPositiveInt c.max_write_buffer_bytes
  pub max_response_queue_size : IsPositiveInt c.max_response_queue_size
  pub max_thread_pool_queue_size : IsPositiveInt c.max_thread_pool_queue_size

in_range :
    (least most : ℕ) (o : Option (Bool × ℕ)) (d : ℕ)
    → (least ≤ d) × (d ≤ most)
    → (least ≤ in_range_or_default least most o d) × (in_range_or_default least most o d ≤ most)
in_range least most none d h = h
in_range least most (some (negative, n)) d h = ground arith

parse_port_or_default-IsPort : (v : Bytes) (d : ℕ) → IsPort d → IsPort (parse_port_or_default v d)
unfolding IsPort parse_port_or_default
parse_port_or_default-IsPort v d h = ground (arith, in_range 1 65535 (stoi v) d h)

parse_positive_int_or_default-IsPositiveInt :
    (v : Bytes) (d : ℕ) → IsPositiveInt d → IsPositiveInt (parse_positive_int_or_default v d)
unfolding IsPositiveInt parse_positive_int_or_default
parse_positive_int_or_default-IsPositiveInt v d h = ground (arith, in_range 1 int_max (stoi v) d h)

parse_non_negative_bounded :
    (v : Bytes) (d : ℕ) → d ≤ int_max → parse_non_negative_int_or_default v d ≤ int_max
unfolding parse_non_negative_int_or_default
parse_non_negative_bounded v d h = ground (arith, in_range 0 int_max (stoi v) d (omega arith, h))

file_settings-IsUsable :
    (f : EnvFile) (c : ServerConfig) → IsUsable c → IsUsable (file_settings f c)
unfolding file_settings
file_settings-IsUsable f c v = record {
  log_db_port = search (parse_port_or_default-IsPort, v.log_db_port);
  db_pool_size = search (parse_positive_int_or_default-IsPositiveInt, v.db_pool_size);
  db_connect_timeout_seconds =
      search (parse_positive_int_or_default-IsPositiveInt, v.db_connect_timeout_seconds);
  db_read_timeout_seconds =
      search (parse_positive_int_or_default-IsPositiveInt, v.db_read_timeout_seconds);
  db_write_timeout_seconds =
      search (parse_positive_int_or_default-IsPositiveInt, v.db_write_timeout_seconds);
  db_acquire_timeout_ms =
      search (parse_positive_int_or_default-IsPositiveInt, v.db_acquire_timeout_ms);
  db_max_reconnect_attempts = search (parse_non_negative_bounded, v.db_max_reconnect_attempts);
  db_idle_ping_interval_seconds =
      search (parse_positive_int_or_default-IsPositiveInt, v.db_idle_ping_interval_seconds);
  db_idle_check_interval_seconds =
      search (parse_positive_int_or_default-IsPositiveInt, v.db_idle_check_interval_seconds);
  max_read_buffer_bytes =
      search (parse_positive_int_or_default-IsPositiveInt, v.max_read_buffer_bytes);
  max_write_buffer_bytes =
      search (parse_positive_int_or_default-IsPositiveInt, v.max_write_buffer_bytes);
  max_response_queue_size =
      search (parse_positive_int_or_default-IsPositiveInt, v.max_response_queue_size);
  max_thread_pool_queue_size =
      search (parse_positive_int_or_default-IsPositiveInt, v.max_thread_pool_queue_size);
}

module _ (getenv : Bytes → Option Bytes) where
  env_settings-IsUsable : (c : ServerConfig) → IsUsable c → IsUsable (env_settings getenv c)
  unfolding env_settings get_env_port_or_default get_env_positive_int_or_default
      get_env_non_negative_int_or_default
  env_settings-IsUsable c v = record {
    log_db_port = search (parse_port_or_default-IsPort, v.log_db_port);
    db_pool_size = search (parse_positive_int_or_default-IsPositiveInt, v.db_pool_size);
    db_connect_timeout_seconds =
        search (parse_positive_int_or_default-IsPositiveInt, v.db_connect_timeout_seconds);
    db_read_timeout_seconds =
        search (parse_positive_int_or_default-IsPositiveInt, v.db_read_timeout_seconds);
    db_write_timeout_seconds =
        search (parse_positive_int_or_default-IsPositiveInt, v.db_write_timeout_seconds);
    db_acquire_timeout_ms =
        search (parse_positive_int_or_default-IsPositiveInt, v.db_acquire_timeout_ms);
    db_max_reconnect_attempts = search (parse_non_negative_bounded, v.db_max_reconnect_attempts);
    db_idle_ping_interval_seconds =
        search (parse_positive_int_or_default-IsPositiveInt, v.db_idle_ping_interval_seconds);
    db_idle_check_interval_seconds =
        search (parse_positive_int_or_default-IsPositiveInt, v.db_idle_check_interval_seconds);
    max_read_buffer_bytes =
        search (parse_positive_int_or_default-IsPositiveInt, v.max_read_buffer_bytes);
    max_write_buffer_bytes =
        search (parse_positive_int_or_default-IsPositiveInt, v.max_write_buffer_bytes);
    max_response_queue_size =
        search (parse_positive_int_or_default-IsPositiveInt, v.max_response_queue_size);
    max_thread_pool_queue_size =
        search (parse_positive_int_or_default-IsPositiveInt, v.max_thread_pool_queue_size);
  }

default_config-IsUsable : IsUsable default_config
unfolding IsPort IsPositiveInt
default_config-IsUsable = record {
  log_db_port = (omega arith, omega arith);
  db_pool_size = (omega arith, omega arith);
  db_connect_timeout_seconds = (omega arith, omega arith);
  db_read_timeout_seconds = (omega arith, omega arith);
  db_write_timeout_seconds = (omega arith, omega arith);
  db_acquire_timeout_ms = (omega arith, omega arith);
  db_max_reconnect_attempts = omega arith;
  db_idle_ping_interval_seconds = (omega arith, omega arith);
  db_idle_check_interval_seconds = (omega arith, omega arith);
  max_read_buffer_bytes = (omega arith, omega arith);
  max_write_buffer_bytes = (omega arith, omega arith);
  max_response_queue_size = (omega arith, omega arith);
  max_thread_pool_queue_size = (omega arith, omega arith);
}

-- Whatever the file and the environment hold, the port of the database is between 1 and 65535, the
-- number of reconnections is an `int` that is not negative, and every other size and timeout that can
-- be set is an `int` that is positive.
pub load_default_config-IsUsable :
    (getenv : Bytes → Option Bytes) (file : Option Bytes)
    → IsUsable (load_default_config getenv file)
unfolding load_default_config
load_default_config-IsUsable getenv file =
    env_settings-IsUsable getenv _
      (file_settings-IsUsable (load_env_file file) default_config default_config-IsUsable)
