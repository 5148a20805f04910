-- ===== src/Tests/Configs.antt =====
-- A file of two lines, and an environment that sets the port only.
use cpp_chat.Base.{◌≡◌, refl, [], ◌∷◌, Option, none, some, Bytes, codes, string_eq, if◌then◌else◌}
use cpp_chat.ServerConfig.{EnvFile, load_default_config, load_env_file, trim}
use cpp_chat.ServerConfig.File.{
  IsSetting, AreSettings, IsTrimmed, lacks, env_text, assign, load_env_file-env_text,
}
use cpp_chat.ServerConfig.Precedence.{IsLayered, load_default_config-IsLayered}
use cpp_chat.ServerConfig.Ranges.{IsUsable, load_default_config-IsUsable}

abbrev two_settings : EnvFile
two_settings =
    (codes "CPP_CHAT_DB_HOST", codes "mysql") ∷ (codes "CPP_CHAT_DB_PORT", codes "3307") ∷ []

host_IsSetting : IsSetting (codes "CPP_CHAT_DB_HOST") (codes "mysql")
unfolding IsTrimmed lacks trim
host_IsSetting = record {
  named = refl;
  not_comment = refl;
  key_trimmed = refl;
  value_trimmed = refl;
  line_trimmed = refl;
  key_lacks_equals = refl;
  one_line = refl;
}

port_IsSetting : IsSetting (codes "CPP_CHAT_DB_PORT") (codes "3307")
unfolding IsTrimmed lacks trim
port_IsSetting = record {
  named = refl;
  not_comment = refl;
  key_trimmed = refl;
  value_trimmed = refl;
  line_trimmed = refl;
  key_lacks_equals = refl;
  one_line = refl;
}

two_AreSettings : AreSettings two_settings
unfolding AreSettings
two_AreSettings = (host_IsSetting, (port_IsSetting, tt))

load_env_file-env_text_example :
    load_env_file (some (env_text two_settings)) ≡ assign two_settings []
load_env_file-env_text_example = load_env_file-env_text two_settings two_AreSettings

abbrev port_only : Bytes → Option Bytes
port_only name =
    if string_eq.beq name (codes "CPP_CHAT_LOG_DB_PORT") then some (codes "3308") else none

load_default_config-IsUsable_example :
    IsUsable (load_default_config port_only (some (env_text two_settings)))
load_default_config-IsUsable_example =
    load_default_config-IsUsable port_only (some (env_text two_settings))

load_default_config-IsLayered_example :
    IsLayered port_only
      (load_env_file (some (env_text two_settings)))
      (load_default_config port_only (some (env_text two_settings)))
load_default_config-IsLayered_example =
    load_default_config-IsLayered port_only (some (env_text two_settings))
