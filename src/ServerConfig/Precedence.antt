-- ===== src/ServerConfig/Precedence.antt =====
-- Which of the sources of a setting counts.
use Prim.Native.String.{String}
use cpp_chat.Base.{
  ℕ, ◌≡◌, refl, not, ◌&&◌, Bool, List, [], ◌∷◌, Option, none, some, arith, Bytes, codes,
  if◌then◌else◌, leb, string_eq,
}
use cpp_chat.Base.Maps.{lookup}
use cpp_chat.Storage.Users.Password.{stoi}
use cpp_chat.ServerConfig.{
  ServerConfig, EnvFile, default_config, load_default_config, file_settings, env_settings,
  parse_port_or_default, get_env_port_or_default, get_env_or_default, get_file_value_or_default,
  value_or_default, in_range_or_default, load_env_file,
}

-- The texts under two names, in the order in which they count: the environment's first.
abbrev pub candidates : (Bytes → Option Bytes) → EnvFile → String → String → List (Option Bytes)
candidates getenv file specific general =
    getenv (codes specific)
    ∷ getenv (codes general)
    ∷ lookup (codes specific) file
    ∷ lookup (codes general) file
    ∷ []

-- The first text that is there and not empty.
unfoldable pub first_set : List (Option Bytes) → Bytes → Bytes
first_set [] default_value = default_value
first_set (none ∷ texts) default_value = first_set texts default_value
first_set (some [] ∷ texts) default_value = first_set texts default_value
first_set (some (c ∷ text) ∷ texts) default_value = c ∷ text

abbrev pub is_port : Bool × ℕ → Bool
is_port (negative, n) = not negative && (leb 1 n && leb n 65535)

-- The first text that `stoi` takes for a port.
unfoldable pub first_port : List (Option Bytes) → ℕ → ℕ
first_port [] default_value = default_value
first_port (none ∷ texts) default_value = first_port texts default_value
first_port (some text ∷ texts) default_value =
    let later = first_port texts default_value in
    elim (stoi text) [ none ↦ later | some number ↦ if is_port number then number.1 else later ]

first_set-value :
    (o : Option Bytes) (texts : List (Option Bytes)) (d : Bytes)
    → value_or_default o (first_set texts d) ≡ first_set (o ∷ texts) d
unfolding first_set
first_set-value none texts d = refl
first_set-value (some []) texts d = refl
first_set-value (some (c ∷ text)) texts d = refl

stoi_empty : stoi [] ≡ none
unfolding stoi
stoi_empty = refl

port_of_number :
    (o : Option (Bool × ℕ)) (d : ℕ)
    → in_range_or_default 1 65535 o d
      ≡ elim o [ none ↦ d | some number ↦ if is_port number then number.1 else d ]
port_of_number none d = refl
port_of_number (some (negative, n)) d = ground arith

first_port-value :
    (o : Option Bytes) (texts : List (Option Bytes)) (d : ℕ)
    → parse_port_or_default (value_or_default o []) (first_port texts d) ≡ first_port (o ∷ texts) d
unfolding first_port parse_port_or_default
first_port-value none texts d = refl
first_port-value (some []) texts d = ground (arith, stoi_empty)
first_port-value (some (c ∷ text)) texts d = port_of_number (stoi (c ∷ text)) (first_port texts d)

-- What the settings of the database come from.
pub record IsLayered (getenv : Bytes → Option Bytes) (file : EnvFile) (c : ServerConfig)
    : Type 0 where
  pub log_db_host :
      c.log_db_host
      ≡ first_set
          (candidates getenv file "CPP_CHAT_LOG_DB_HOST" "CPP_CHAT_DB_HOST")
          default_config.log_db_host
  pub log_db_port :
      c.log_db_port
      ≡ first_port
          (candidates getenv file "CPP_CHAT_LOG_DB_PORT" "CPP_CHAT_DB_PORT")
          default_config.log_db_port
  pub log_db_user :
      c.log_db_user
      ≡ first_set
          (candidates getenv file "CPP_CHAT_LOG_DB_USER" "CPP_CHAT_DB_USER")
          default_config.log_db_user
  pub log_db_password :
      c.log_db_password
      ≡ first_set
          (candidates getenv file "CPP_CHAT_LOG_DB_PASSWORD" "CPP_CHAT_DB_PASSWORD")
          default_config.log_db_password
  pub log_db_name :
      c.log_db_name
      ≡ first_set
          (candidates getenv file "CPP_CHAT_LOG_DB_NAME" "CPP_CHAT_DB_NAME")
          default_config.log_db_name

module _ (getenv : Bytes → Option Bytes) (file : EnvFile) (specific general : String) where
  four_sets :
      (d : Bytes)
      → value_or_default (getenv (codes specific)) (
          value_or_default (getenv (codes general)) (
            value_or_default
              (lookup (codes specific) file)
              (value_or_default (lookup (codes general) file) d)))
        ≡ first_set (candidates getenv file specific general) d
  unfolding first_set
  four_sets d =
      rw
        (
          first_set-value (lookup (codes general) file) [] d,
          first_set-value (lookup (codes specific) file),
          first_set-value (getenv (codes general)),
          first_set-value (getenv (codes specific)),
        )
        refl

  four_ports :
      (d : ℕ)
      → parse_port_or_default (value_or_default (getenv (codes specific)) []) (
          parse_port_or_default (value_or_default (getenv (codes general)) []) (
            parse_port_or_default
              (value_or_default (lookup (codes specific) file) [])
              (parse_port_or_default (value_or_default (lookup (codes general) file) []) d)))
        ≡ first_port (candidates getenv file specific general) d
  unfolding first_port
  four_ports d =
      rw
        (
          first_port-value (lookup (codes general) file) [] d,
          first_port-value (lookup (codes specific) file),
          first_port-value (getenv (codes general)),
          first_port-value (getenv (codes specific)),
        )
        refl

-- The host, the user, the password, the name and the port of the database come from the environment,
-- else from the file, else they have their default; in each source the variable for the log database
-- counts before the general one, and an empty text counts as none. A text for the port counts if
-- `stoi`, which reads the number that the text starts with, gives a number from 1 to 65535, and as
-- none otherwise.
pub load_default_config-IsLayered :
    (getenv : Bytes → Option Bytes) (file : Option Bytes)
    → IsLayered getenv (load_env_file file) (load_default_config getenv file)
unfolding load_default_config env_settings file_settings get_env_or_default get_env_port_or_default
    get_file_value_or_default
load_default_config-IsLayered getenv file = record {
  log_db_host = four_sets getenv (load_env_file file) "CPP_CHAT_LOG_DB_HOST" "CPP_CHAT_DB_HOST" _;
  log_db_port = four_ports getenv (load_env_file file) "CPP_CHAT_LOG_DB_PORT" "CPP_CHAT_DB_PORT" _;
  log_db_user = four_sets getenv (load_env_file file) "CPP_CHAT_LOG_DB_USER" "CPP_CHAT_DB_USER" _;
  log_db_password =
      four_sets getenv (load_env_file file) "CPP_CHAT_LOG_DB_PASSWORD" "CPP_CHAT_DB_PASSWORD" _;
  log_db_name = four_sets getenv (load_env_file file) "CPP_CHAT_LOG_DB_NAME" "CPP_CHAT_DB_NAME" _;
}
