-- ===== src/Settings/Reader.antt =====
-- `load_settings_document`: one settings file, with every entry refused that cannot say where it
-- came from.
use ajit_segment_bots.Prelude.{
  ℕ, String, Option, none, some, List, [], ◌∷◌, is_none, keep_if, Result, ok, raise, ◌>>=◌,
  if◌then◌else◌, str_eq,
}
use Prim.Native.String.{◌++◌}
use ajit_segment_bots.Dict
use ajit_segment_bots.Dict.{Dict, get, has_key, put}
use ajit_segment_bots.Settings.{TomlValue, table, Fields, end, field, to_text, Platform}

pub record SettingEntry : Type 0 where
  pub name : String
  pub value : TomlValue
  pub unit : String
  pub note : String

pub record SettingsDocument : Type 0 where
  pub scope : String
  pub entries : Dict SettingEntry
  pub source_path : String
  pub content_digest : String
  pub parsed_at_ns : ℕ

-- Why a file was refused, with what its message names.
pub data Refusal : Type 0 where
  unreadable : String → String → Refusal
  invalid_toml : String → String → Refusal
  bare_value : String → String → Refusal
  missing_keys : String → String → List String → Refusal

unfoldable pub join : List String → String
join [] = ""
join (s ∷ []) = s
join (s ∷ t ∷ rest) = s ++ ", " ++ join (t ∷ rest)

-- The message that a refusal carries.
unfoldable pub message : Refusal → String
unfolding join
message (unreadable path failure) = path ++ " could not be read: " ++ failure
message (invalid_toml path failure) = path ++ " is not valid TOML: " ++ failure
message (bare_value path name) =
    path ++ ": '" ++ name ++ "' is a bare value. Every setting is a table carrying "
    ++ "value, unit and note, so the board can show what it means and who set it."
message (missing_keys path name missing) =
    path
    ++ ": setting '"
    ++ name
    ++ "' is missing "
    ++ join missing
    ++ ". RL-061 requires "
    ++ "every number to carry its unit and its provenance."

abbrev pub required_entry_keys : List String
required_entry_keys = "value" ∷ "unit" ∷ "note" ∷ []

unfoldable pub get_field : Fields → String → Option TomlValue
get_field end k = none
get_field (field j v fs) k = if Dict.has_key ((j, v) ∷ []) k then some v else get_field fs k

unfoldable pub missing_from : Fields → List String
unfolding get_field
missing_from fs = keep_if (λ k. is_none (get_field fs k)) required_entry_keys

build_entry :
    String
    → String
    → List String
    → Option TomlValue
    → Option TomlValue
    → Option TomlValue
    → Result Refusal SettingEntry
build_entry path name [] (some v) (some u) (some n) =
    ok (record { name = name; value = v; unit = to_text u; note = to_text n })
build_entry path name missing _ _ _ = raise (missing_keys path name missing)

unfoldable pub load_entry : String → String → TomlValue → Result Refusal SettingEntry
unfolding build_entry missing_from
load_entry path name (table _ fs) =
    build_entry path name (missing_from fs) (get_field fs "value") (get_field fs "unit")
      (get_field fs "note")
load_entry path name _ = raise (bare_value path name)

-- The loop over `parsed.items()`, with the entries built so far.
unfoldable pub load_entries :
    String → Dict SettingEntry → Dict TomlValue → Result Refusal (Dict SettingEntry)
load_entries path acc [] = ok acc
load_entries path acc ((name, v) ∷ rest) = do
  entry ← load_entry path name v
  load_entries path (Dict.put acc name entry) rest

module _ (platform : Platform) where
  parse_body : String → Result String (Dict TomlValue) → Result Refusal (Dict SettingEntry)
  parse_body path (raise failure) = raise (invalid_toml path failure)
  parse_body path (ok parsed) = load_entries path [] parsed

  -- `read` is what `path.read_bytes()` gives or raises; `now` is the clock.
  unfoldable pub load_settings_document :
      String → String → Result String (List ℕ) → ℕ → Result Refusal SettingsDocument
  unfolding parse_body
  load_settings_document path scope (raise failure) now = raise (unreadable path failure)
  load_settings_document path scope (ok body) now = do
    entries ← parse_body path (platform.loads body)
    ok (record {
      scope = scope;
      entries = entries;
      source_path = path;
      content_digest = platform.sha256 body;
      parsed_at_ns = now;
    })

-- `read_entry` and `read_value`; `none` is the `KeyError`.
unfoldable pub read_entry : SettingsDocument → String → Option SettingEntry
read_entry d name = Dict.get d.entries name

unfoldable pub read_value : SettingsDocument → String → Option TomlValue
unfolding read_entry
read_value d name = elim (read_entry d name) [ none ↦ none | some e ↦ some e.value ]

-- `settings_directory`: a path is its text; `XDG_CONFIG_HOME` may be absent or empty.
unfoldable pub settings_directory : Option String → String → String
settings_directory none home = home ++ "/.config/ajit-segment-bots/settings"
settings_directory (some config_home) home =
    if str_eq config_home ""
    then home ++ "/.config/ajit-segment-bots/settings"
    else config_home ++ "/ajit-segment-bots/settings"
