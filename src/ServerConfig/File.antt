-- ===== src/ServerConfig/File.antt =====
-- Reading back a file of settings.
use cpp_chat.Base.{
  ℕ, ◌≡◌, refl, ap, ◌∙◌, true, false, not, ◌||◌, ◌&&◌, Bool, [], ◌∷◌, ◌++◌, some, arith, Bytes,
  is_empty, ◌==◌, append_assoc, append-nil, string_eq,
}
use cpp_chat.Base.Maps.{insert}
use cpp_chat.Storage.Users.Password.{split, split_onto}
use cpp_chat.ServerConfig.{
  EnvFile, is_comment, trim, cut_at_equals, load_setting, load_line, load_lines, load_env_file,
}

-- A text with no blank at either end, which trimming keeps as it is.
unfoldable pub IsTrimmed : Bytes → Type 0
IsTrimmed text = trim text ≡ text

-- `=` and line ends are not in a text.
unfoldable pub lacks : ℕ → Bytes → Bool
lacks c [] = true
lacks c (x ∷ text) = not (x == c) && lacks c text

-- What may stand in a file as one setting.
pub record IsSetting (key value : Bytes) : Type 0 where
  pub named : is_empty key ≡ false
  pub not_comment : is_comment key ≡ false
  pub key_trimmed : IsTrimmed key
  pub value_trimmed : IsTrimmed value
  pub line_trimmed : IsTrimmed (key ++ (b'=' ∷ value))
  pub key_lacks_equals : lacks b'=' key ≡ true
  pub one_line : lacks b'\n' (key ++ (b'=' ∷ value)) ≡ true

unfoldable pub AreSettings : EnvFile → Type 0
AreSettings [] = Unit
AreSettings ((key, value) ∷ settings) = IsSetting key value × AreSettings settings

-- The text of a file of settings, one line each.
unfoldable pub env_text : EnvFile → Bytes
env_text [] = []
env_text ((key, value) ∷ settings) = key ++ (b'=' ∷ value) ++ (b'\n' ∷ env_text settings)

-- The settings as assignments, a later one over an earlier one.
unfoldable pub assign : EnvFile → EnvFile → EnvFile
assign [] values = values
assign ((key, value) ∷ settings) values = assign settings (insert key value values)

cut-append :
    (key value : Bytes)
    → lacks b'=' key ≡ true
    → cut_at_equals (key ++ (b'=' ∷ value)) ≡ some (key, value)
unfolding lacks cut_at_equals
cut-append [] value h = refl
cut-append (c ∷ key) value h = ground (arith, cut-append key value)

split_onto-line :
    (current line rest : Bytes)
    → lacks b'\n' line ≡ true
    → split_onto b'\n' current (line ++ (b'\n' ∷ rest))
      ≡ (current ++ line) ∷ split_onto b'\n' [] rest
unfolding lacks split_onto
split_onto-line current [] rest h = rw (append-nil current) refl
split_onto-line current (c ∷ line) rest h =
    ground
      (arith, split_onto-line (current ++ c ∷ []) line rest, append_assoc current (c ∷ []) line)

line_not_empty :
    (key value : Bytes)
    → is_empty key ≡ false
    → is_comment key ≡ false
    → is_empty (key ++ (b'=' ∷ value)) || is_comment (key ++ (b'=' ∷ value)) ≡ false
line_not_empty [] value h h' = ground arith
line_not_empty (c ∷ key) value h h' = h'

load_line-setting :
    (key value : Bytes) (values : EnvFile)
    → IsSetting key value
    → load_line (key ++ (b'=' ∷ value)) values ≡ insert key value values
unfolding load_line load_setting IsTrimmed
load_line-setting key value values v =
    rw
      (
        v.line_trimmed,
        line_not_empty key value v.named v.not_comment,
        cut-append key value v.key_lacks_equals,
        v.key_trimmed,
        v.value_trimmed,
        v.named,
      )
      refl

load_lines-settings :
    (settings values : EnvFile)
    → AreSettings settings
    → load_lines (split_onto b'\n' [] (env_text settings)) values ≡ assign settings values
unfolding AreSettings load_lines env_text assign split_onto
load_lines-settings [] values h = refl
load_lines-settings ((key, value) ∷ settings) values (v, vs) =
    let line = key ++ (b'=' ∷ value) in
    let read : load_line line values ≡ insert key value values =
      load_line-setting key value values v in
    let lines = split_onto b'\n' [] (env_text settings) in
    ap (λ l. load_lines l values) (split_onto-line [] line (env_text settings) v.one_line)
    ∙ (ap (load_lines lines) read ∙ load_lines-settings settings (insert key value values) vs)

-- A file that holds one line `KEY=VALUE` for each of some settings is read back as these settings,
-- where a later line for a key counts in place of an earlier one; a key is not empty and has no `=`
-- and no `#` in front, and keys and values have no blank at an end and no line end.
pub load_env_file-env_text :
    (settings : EnvFile)
    → AreSettings settings
    → load_env_file (some (env_text settings)) ≡ assign settings []
unfolding load_env_file split
load_env_file-env_text settings h = load_lines-settings settings [] h
