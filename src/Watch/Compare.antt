-- ===== src/Watch/Compare.antt =====
-- `compare_settings_documents` and the document that stands for nothing.
use ajit_segment_bots.Dict.{Dict, get, keys}
use ajit_segment_bots.Prelude.{
  ℕ, String, Option, none, some, List, [], ◌∷◌, ◌++◌, str_eq, if◌then◌else◌, sorted_set,
}
use ajit_segment_bots.Dict
use ajit_segment_bots.Settings.{to_text}
use ajit_segment_bots.Settings.Reader.{SettingEntry, SettingsDocument}
use ajit_segment_bots.Watch.{SettingsChange}

abbrev pub absent_value : String
absent_value = ""

value_text : Option SettingEntry → String
value_text none = absent_value
value_text (some e) = to_text e.value

-- What a document says of a field, as the comparison reads it.
unfoldable pub shown : SettingsDocument → String → String
unfolding value_text
shown d name = value_text (Dict.get d.entries name)

module _ (previous candidate : SettingsDocument) (now : ℕ) where
  unfoldable pub changes_among : List String → List SettingsChange
  changes_among [] = []
  changes_among (name ∷ names) =
      let rest = changes_among names in
      let old_value = shown previous name in
      let new_value = shown candidate name in
      if str_eq old_value new_value
      then rest
      else record {
        changed_field = name;
        old_value = old_value;
        new_value = new_value;
        observed_at_ns = now;
      }
        ∷ rest

  unfoldable pub compare_settings_documents : List SettingsChange
  compare_settings_documents =
      changes_among (sorted_set (Dict.keys previous.entries ++ Dict.keys candidate.entries))

unfoldable pub empty_document_sharing_identity_with : SettingsDocument → ℕ → SettingsDocument
empty_document_sharing_identity_with previous now = record {
  scope = previous.scope;
  entries = [];
  source_path = previous.source_path;
  content_digest = "";
  parsed_at_ns = now;
}
