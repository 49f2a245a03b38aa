-- ===== src/Store/Tests.antt =====
-- A journal of three entries of two parts, and a setting that changed twice.
use mathlib.Core.List.{reverse}
use ajit_segment_bots.Store.Current.{record-read_current}
use ajit_segment_bots.Store.Window.{read_entries_in_window_lem}
use ajit_segment_bots.Store.Order.{IsChronological}
use ajit_segment_bots.Prelude.{
  ◌&&◌, String, [], arith, keep_if, leb, some, str_eq, ℕ, ◌∷◌, ◌≡◌, ◌≢◌,
}
use ajit_segment_bots.Store.{
  read_entries_in_window, record_setting_change, Connection, JournalEntry, SettingRow,
  read_current_setting_and_change_time,
}

abbrev entry_of : ℕ → String → ℕ → JournalEntry
entry_of key part_id time = record {
  entry_id = key;
  part_id = part_id;
  kind = "tick";
  payload = "{}";
  provenance = "test";
  recorded_at_ns = time;
}

abbrev row_of : ℕ → String → ℕ → SettingRow
row_of key value time = record {
  change_id = key;
  changed = "gap";
  old_value = "";
  new_value = value;
  observed_at_ns = time;
}

abbrev stored : Connection
stored = record {
  journal_mode = "WAL";
  synchronous = "FULL";
  busy_timeout = 5000;
  journal = entry_of 3 "a" 20 ∷ entry_of 2 "b" 20 ∷ entry_of 1 "a" 10 ∷ [];
  changes = row_of 1 "2" 10 ∷ [];
}

stored-IsChronological : IsChronological stored.journal
unfolding IsChronological
stored-IsChronological = (
  ((omega arith, omega arith), ((omega arith, omega arith), tt)),
  (((omega arith, omega arith), tt), (tt, tt)),
)

read_entries_in_window_lem_example :
    read_entries_in_window stored "a" 10 20
    ≡ reverse (
        keep_if
          (λ (e : JournalEntry).
            str_eq e.part_id "a" && (leb 10 e.recorded_at_ns && leb e.recorded_at_ns 20))
          stored.journal)
read_entries_in_window_lem_example =
    read_entries_in_window_lem stored "a" 10 20 stored-IsChronological

record-read_current_example :
    (read_current_setting_and_change_time (record_setting_change 10 "gap" "2" "3" stored).0 "gap"
      ≡ some ("3", 10))
    × ((other_field : String)
        → "gap" ≢ other_field
        → read_current_setting_and_change_time
            (record_setting_change 10 "gap" "2" "3" stored).0
            other_field
          ≡ read_current_setting_and_change_time stored other_field)
record-read_current_example = record-read_current 10 "gap" "2" "3" stored (omega arith, tt)
