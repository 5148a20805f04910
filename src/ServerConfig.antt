-- ===== src/ServerConfig.antt =====
-- src/core/server_config.cpp and include/cpp_chat/core/server_config.h. The bytes of
-- config/mysql.env are an argument, `none` where it cannot be opened; `getenv` is a parameter, `none`
-- where it answers a null pointer. No field of type `int` is ever negative, so each is a number.
pub mod Precedence
pub mod Ranges
pub mod File
use Prim.Native.String.{String}
use cpp_chat.Base.{
  ℕ, ◌*◌, Bool, true, false, not, ◌&&◌, ◌||◌, List, [], ◌∷◌, Option, none, some, ltb, leb, ◌==◌,
  if◌then◌else◌, Bytes, codes, is_empty, string_eq,
}
use cpp_chat.Base.Maps.{lookup, insert}
use cpp_chat.Storage.Users.Password.{split, stoi}

pub record ServerConfig : Type 0 where
  pub host : Bytes
  pub port : ℕ
  pub log_db_host : Bytes
  pub log_db_port : ℕ
  pub log_db_user : Bytes
  pub log_db_password : Bytes
  pub log_db_name : Bytes
  pub db_pool_size : ℕ
  pub db_connect_timeout_seconds : ℕ
  pub db_read_timeout_seconds : ℕ
  pub db_write_timeout_seconds : ℕ
  pub db_acquire_timeout_ms : ℕ
  pub db_max_reconnect_attempts : ℕ
  pub db_idle_ping_interval_seconds : ℕ
  pub db_idle_check_interval_seconds : ℕ
  pub heartbeat_interval_seconds : ℕ
  pub heartbeat_timeout_seconds : ℕ
  pub worker_threads : ℕ
  pub max_read_buffer_bytes : ℕ
  pub max_write_buffer_bytes : ℕ
  pub max_response_queue_size : ℕ
  pub max_thread_pool_queue_size : ℕ

-- The initializers of the fields.
abbrev pub default_config : ServerConfig
default_config = record {
  host = codes "0.0.0.0";
  port = 9000;
  log_db_host = codes "127.0.0.1";
  log_db_port = 3306;
  log_db_user = codes "cpp_chat";
  log_db_password = codes "cpp_chat";
  log_db_name = codes "cpp_chat";
  db_pool_size = 4;
  db_connect_timeout_seconds = 3;
  db_read_timeout_seconds = 5;
  db_write_timeout_seconds = 5;
  db_acquire_timeout_ms = 3000;
  db_max_reconnect_attempts = 3;
  db_idle_ping_interval_seconds = 30;
  db_idle_check_interval_seconds = 10;
  heartbeat_interval_seconds = 10;
  heartbeat_timeout_seconds = 60;
  worker_threads = 4;
  max_read_buffer_bytes = 2 * 1024 * 1024;
  max_write_buffer_bytes = 2 * 1024 * 1024;
  max_response_queue_size = 10000;
  max_thread_pool_queue_size = 10000;
}

abbrev pub is_blank : ℕ → Bool
is_blank c = c == b' ' || c == b'\t' || c == b'\r' || c == b'\n'

-- From `find_first_not_of` on.
unfoldable pub trim_start : Bytes → Bytes
trim_start [] = []
trim_start (c ∷ value) = let rest = trim_start value in if is_blank c then rest else c ∷ value

-- Up to `find_last_not_of`.
unfoldable pub trim_end : Bytes → Bytes
trim_end [] = []
trim_end (c ∷ value) =
    let rest = trim_end value in if is_blank c && is_empty rest then [] else c ∷ rest

unfoldable pub trim : Bytes → Bytes
unfolding trim_start trim_end
trim value = trim_end (trim_start value)

-- `line.find('=')`, and the two substrings around it.
unfoldable pub cut_at_equals : Bytes → Option (Bytes × Bytes)
cut_at_equals [] = none
cut_at_equals (c ∷ line) =
    let later = cut_at_equals line in
    if c == b'='
    then some ([], line)
    else elim later [ none ↦ none | some parts ↦ some (c ∷ parts.0, parts.1) ]

abbrev pub is_comment : Bytes → Bool
is_comment [] = false
is_comment (c ∷ line) = c == b'#'

abbrev pub EnvFile : Type 0
EnvFile = List (Bytes × Bytes)

abbrev pub set_if_named : Bytes → Bytes → EnvFile → EnvFile
set_if_named key value values = if is_empty key then values else insert key value values

-- A line behind the test on '#'.
unfoldable pub load_setting : Option (Bytes × Bytes) → EnvFile → EnvFile
unfolding trim
load_setting none values = values
load_setting (some (key, value)) values = set_if_named (trim key) (trim value) values

-- One round of the loop.
unfoldable pub load_line : Bytes → EnvFile → EnvFile
unfolding trim cut_at_equals load_setting
load_line text values =
    let line = trim text in
    if is_empty line || is_comment line then values else load_setting (cut_at_equals line) values

unfoldable pub load_lines : List Bytes → EnvFile → EnvFile
unfolding load_line
load_lines [] values = values
load_lines (line ∷ lines) values = load_lines lines (load_line line values)

unfoldable pub load_env_file : Option Bytes → EnvFile
unfolding load_lines split
load_env_file none = []
load_env_file (some text) = load_lines (split text b'\n') []

-- The value that is looked for, if it is there and not empty.
abbrev pub value_or_default : Option Bytes → Bytes → Bytes
value_or_default none default_value = default_value
value_or_default (some value) default_value = if is_empty value then default_value else value

unfoldable pub get_file_value_or_default : EnvFile → Bytes → Bytes → Bytes
unfolding lookup
get_file_value_or_default values name default_value =
    value_or_default (lookup name values) default_value

-- What is behind the call of `stoi`: `least` is 1 or 0, and `most` the largest value that is taken.
abbrev pub in_range_or_default : ℕ → ℕ → Option (Bool × ℕ) → ℕ → ℕ
in_range_or_default least most none default_value = default_value
in_range_or_default least most (some (negative, n)) default_value =
    if (not negative || n == 0) && (leb least n && leb n most) then n else default_value

-- `INT_MAX`
abbrev pub int_max : ℕ
int_max = 2147483647

unfoldable pub parse_port_or_default : Bytes → ℕ → ℕ
unfolding stoi
parse_port_or_default value default_value =
    if is_empty value then default_value else in_range_or_default 1 65535 (stoi value) default_value

unfoldable pub parse_positive_int_or_default : Bytes → ℕ → ℕ
unfolding stoi
parse_positive_int_or_default value default_value =
    if is_empty value
    then default_value
    else in_range_or_default 1 int_max (stoi value) default_value

unfoldable pub parse_non_negative_int_or_default : Bytes → ℕ → ℕ
unfolding stoi
parse_non_negative_int_or_default value default_value =
    if is_empty value
    then default_value
    else in_range_or_default 0 int_max (stoi value) default_value

-- The first block of `load_default_config`.
unfoldable pub file_settings : EnvFile → ServerConfig → ServerConfig
unfolding get_file_value_or_default parse_port_or_default parse_positive_int_or_default
    parse_non_negative_int_or_default
file_settings file config =
    let text = λ (name : String) (default_value : Bytes).
      get_file_value_or_default file (codes name) default_value in
    let size = λ (name : String) (default_value : ℕ).
      parse_positive_int_or_default (text name []) default_value in
    record config {
      log_db_host = text "CPP_CHAT_LOG_DB_HOST" (text "CPP_CHAT_DB_HOST" config.log_db_host);
      log_db_port =
          parse_port_or_default (text "CPP_CHAT_LOG_DB_PORT" [])
            (parse_port_or_default (text "CPP_CHAT_DB_PORT" []) config.log_db_port);
      log_db_user = text "CPP_CHAT_LOG_DB_USER" (text "CPP_CHAT_DB_USER" config.log_db_user);
      log_db_password =
          text "CPP_CHAT_LOG_DB_PASSWORD" (text "CPP_CHAT_DB_PASSWORD" config.log_db_password);
      log_db_name = text "CPP_CHAT_LOG_DB_NAME" (text "CPP_CHAT_DB_NAME" config.log_db_name);
      db_pool_size = size "CPP_CHAT_DB_POOL_SIZE" config.db_pool_size;
      db_connect_timeout_seconds =
          size "CPP_CHAT_DB_CONNECT_TIMEOUT_SECONDS" config.db_connect_timeout_seconds;
      db_read_timeout_seconds =
          size "CPP_CHAT_DB_READ_TIMEOUT_SECONDS" config.db_read_timeout_seconds;
      db_write_timeout_seconds =
          size "CPP_CHAT_DB_WRITE_TIMEOUT_SECONDS" config.db_write_timeout_seconds;
      db_acquire_timeout_ms = size "CPP_CHAT_DB_ACQUIRE_TIMEOUT_MS" config.db_acquire_timeout_ms;
      db_max_reconnect_attempts =
          parse_non_negative_int_or_default (text "CPP_CHAT_DB_MAX_RECONNECT_ATTEMPTS" [])
            config.db_max_reconnect_attempts;
      db_idle_ping_interval_seconds =
          size "CPP_CHAT_DB_IDLE_PING_INTERVAL_SECONDS" config.db_idle_ping_interval_seconds;
      db_idle_check_interval_seconds =
          size "CPP_CHAT_DB_IDLE_CHECK_INTERVAL_SECONDS" config.db_idle_check_interval_seconds;
      max_read_buffer_bytes = size "CPP_CHAT_MAX_READ_BUFFER_BYTES" config.max_read_buffer_bytes;
      max_write_buffer_bytes = size "CPP_CHAT_MAX_WRITE_BUFFER_BYTES" config.max_write_buffer_bytes;
      max_response_queue_size =
          size "CPP_CHAT_MAX_RESPONSE_QUEUE_SIZE" config.max_response_queue_size;
      max_thread_pool_queue_size =
          size "CPP_CHAT_THREAD_POOL_MAX_QUEUE_SIZE" config.max_thread_pool_queue_size;
    }

module _ (getenv : Bytes → Option Bytes) where
  unfoldable pub get_env_or_default : Bytes → Bytes → Bytes
  get_env_or_default name default_value = value_or_default (getenv name) default_value

  -- A variable that is not there or empty is an empty text here: the parsers give the default for it.
  unfoldable pub get_env_port_or_default : Bytes → ℕ → ℕ
  unfolding parse_port_or_default
  get_env_port_or_default name default_value =
      parse_port_or_default (value_or_default (getenv name) []) default_value

  unfoldable pub get_env_positive_int_or_default : Bytes → ℕ → ℕ
  unfolding parse_positive_int_or_default
  get_env_positive_int_or_default name default_value =
      parse_positive_int_or_default (value_or_default (getenv name) []) default_value

  unfoldable pub get_env_non_negative_int_or_default : Bytes → ℕ → ℕ
  unfolding parse_non_negative_int_or_default
  get_env_non_negative_int_or_default name default_value =
      parse_non_negative_int_or_default (value_or_default (getenv name) []) default_value

  -- The second block of `load_default_config`.
  unfoldable pub env_settings : ServerConfig → ServerConfig
  unfolding get_env_or_default get_env_port_or_default get_env_positive_int_or_default
      get_env_non_negative_int_or_default
  env_settings config =
      let text =
        λ (name : String) (default_value : Bytes). get_env_or_default (codes name) default_value in
      let port =
        λ (name : String) (default_value : ℕ). get_env_port_or_default (codes name) default_value in
      let size = λ (name : String) (default_value : ℕ).
        get_env_positive_int_or_default (codes name) default_value in
      record config {
        log_db_host = text "CPP_CHAT_LOG_DB_HOST" (text "CPP_CHAT_DB_HOST" config.log_db_host);
        log_db_port = port "CPP_CHAT_LOG_DB_PORT" (port "CPP_CHAT_DB_PORT" config.log_db_port);
        log_db_user = text "CPP_CHAT_LOG_DB_USER" (text "CPP_CHAT_DB_USER" config.log_db_user);
        log_db_password =
            text "CPP_CHAT_LOG_DB_PASSWORD" (text "CPP_CHAT_DB_PASSWORD" config.log_db_password);
        log_db_name = text "CPP_CHAT_LOG_DB_NAME" (text "CPP_CHAT_DB_NAME" config.log_db_name);
        db_pool_size = size "CPP_CHAT_DB_POOL_SIZE" config.db_pool_size;
        db_connect_timeout_seconds =
            size "CPP_CHAT_DB_CONNECT_TIMEOUT_SECONDS" config.db_connect_timeout_seconds;
        db_read_timeout_seconds =
            size "CPP_CHAT_DB_READ_TIMEOUT_SECONDS" config.db_read_timeout_seconds;
        db_write_timeout_seconds =
            size "CPP_CHAT_DB_WRITE_TIMEOUT_SECONDS" config.db_write_timeout_seconds;
        db_acquire_timeout_ms = size "CPP_CHAT_DB_ACQUIRE_TIMEOUT_MS" config.db_acquire_timeout_ms;
        db_max_reconnect_attempts =
            get_env_non_negative_int_or_default (codes "CPP_CHAT_DB_MAX_RECONNECT_ATTEMPTS")
              config.db_max_reconnect_attempts;
        db_idle_ping_interval_seconds =
            size "CPP_CHAT_DB_IDLE_PING_INTERVAL_SECONDS" config.db_idle_ping_interval_seconds;
        db_idle_check_interval_seconds =
            size "CPP_CHAT_DB_IDLE_CHECK_INTERVAL_SECONDS" config.db_idle_check_interval_seconds;
        max_read_buffer_bytes = size "CPP_CHAT_MAX_READ_BUFFER_BYTES" config.max_read_buffer_bytes;
        max_write_buffer_bytes =
            size "CPP_CHAT_MAX_WRITE_BUFFER_BYTES" config.max_write_buffer_bytes;
        max_response_queue_size =
            size "CPP_CHAT_MAX_RESPONSE_QUEUE_SIZE" config.max_response_queue_size;
        max_thread_pool_queue_size =
            size "CPP_CHAT_THREAD_POOL_MAX_QUEUE_SIZE" config.max_thread_pool_queue_size;
      }

  unfoldable pub load_default_config : Option Bytes → ServerConfig
  unfolding env_settings file_settings load_env_file
  load_default_config file = env_settings (file_settings (load_env_file file) default_config)
