-- ===== src/Store.antt =====
-- runtime/state_store.py: the journal and the settings changes. A connection is its pragmas and the
-- rows of its two tables, the row inserted last first; nothing deletes a row. SQLite gives a new row
-- the key after the greatest one. `now` is what `time.time_ns` answers.
pub mod Order
pub mod Window
pub mod Current
mod Tests
use ajit_segment_bots.Prelude.{
  ℕ, ◌&&◌, ◌+◌, ◌==◌, Bool, List, Option, Result, String, [], if◌then◌else◌, keep_if, leb, ltb, map,
  none, ok, raise, some, str_eq, ◌||◌, ◌∷◌,
}

pub data StoreDurability : Type 0 where
  ledger record_only : StoreDurability

pub record JournalEntry : Type 0 where
  pub entry_id : ℕ
  pub part_id : String
  pub kind : String
  pub payload : String
  pub provenance : String
  pub recorded_at_ns : ℕ

-- A row of `setting_change`.
pub record SettingRow : Type 0 where
  pub change_id : ℕ
  pub changed : String
  pub old_value : String
  pub new_value : String
  pub observed_at_ns : ℕ

pub record Connection : Type 0 where
  pub journal_mode : String
  pub synchronous : String
  pub busy_timeout : ℕ
  pub journal : List JournalEntry
  pub changes : List SettingRow

pub data StoreError : Type 0 where
  volatile_directory : StoreError

abbrev pub synchronous_for : StoreDurability → String
synchronous_for ledger = "FULL"
synchronous_for record_only = "NORMAL"

-- `durable` is the answer of `require_durable_directory`; the timeout is given in milliseconds, the
-- product that the source makes; the tables are created empty where there are none.
unfoldable pub open_store :
    Bool
    → StoreDurability
    → ℕ
    → Option (List JournalEntry × List SettingRow)
    → Result StoreError Connection
open_store durable durability milliseconds tables =
    if durable
    then ok (record {
      journal_mode = "WAL";
      synchronous = synchronous_for durability;
      busy_timeout = milliseconds;
      journal = elim tables [ none ↦ [] | some (journal, changes) ↦ journal ];
      changes = elim tables [ none ↦ [] | some (journal, changes) ↦ changes ];
    })
    else raise volatile_directory

-- The key that `INTEGER PRIMARY KEY` gives the next row.
unfoldable pub next_key : List ℕ → ℕ
next_key [] = 1
next_key (k ∷ ks) = let rest = next_key ks in if ltb k rest then rest else k + 1

unfoldable pub append_journal_entry :
    ℕ → String → String → String → String → Connection → Connection × ℕ
append_journal_entry now part_id kind payload provenance c =
    let key = next_key (map (λ (e : JournalEntry). e.entry_id) c.journal) in
    (
      record c {
        journal =
            record {
              entry_id = key;
              part_id = part_id;
              kind = kind;
              payload = payload;
              provenance = provenance;
              recorded_at_ns = now;
            }
            ∷ c.journal;
      },
      key,
    )

-- The `WHERE` and the `ORDER BY` of the window.
unfoldable pub in_window : String → ℕ → ℕ → JournalEntry → Bool
in_window part_id start_ns end_ns e =
    str_eq e.part_id part_id && (leb start_ns e.recorded_at_ns && leb e.recorded_at_ns end_ns)

unfoldable pub precedes : JournalEntry → JournalEntry → Bool
precedes e f =
    ltb e.recorded_at_ns f.recorded_at_ns
    || (e.recorded_at_ns == f.recorded_at_ns && leb e.entry_id f.entry_id)

unfoldable pub insert_entry : JournalEntry → List JournalEntry → List JournalEntry
insert_entry e [] = e ∷ []
insert_entry e (f ∷ fs) =
    let rest = insert_entry e fs in if precedes e f then e ∷ f ∷ fs else f ∷ rest

unfoldable pub order_entries : List JournalEntry → List JournalEntry
order_entries [] = []
order_entries (e ∷ es) = insert_entry e (order_entries es)

unfoldable pub read_entries_in_window : Connection → String → ℕ → ℕ → List JournalEntry
read_entries_in_window c part_id start_ns end_ns =
    order_entries (keep_if (in_window part_id start_ns end_ns) c.journal)

unfoldable pub record_setting_change : ℕ → String → String → String → Connection → Connection × ℕ
record_setting_change now field_name old new c =
    let key = next_key (map (λ (r : SettingRow). r.change_id) c.changes) in
    (
      record c {
        changes =
            record {
              change_id = key;
              changed = field_name;
              old_value = old;
              new_value = new;
              observed_at_ns = now;
            }
            ∷ c.changes;
      },
      key,
    )

-- `ORDER BY observed_at_ns DESC, change_id DESC LIMIT 1`
unfoldable pub is_newer : SettingRow → SettingRow → Bool
is_newer r s =
    ltb s.observed_at_ns r.observed_at_ns
    || (s.observed_at_ns == r.observed_at_ns && ltb s.change_id r.change_id)

unfoldable pub newer_of : SettingRow → Option SettingRow → SettingRow
newer_of r none = r
newer_of r (some s) = if is_newer s r then s else r

unfoldable pub newest : String → List SettingRow → Option SettingRow
unfolding newer_of
newest field_name [] = none
newest field_name (r ∷ rs) =
    let rest = newest field_name rs in
    if str_eq r.changed field_name then some (newer_of r rest) else rest

unfoldable pub read_current_setting_and_change_time : Connection → String → Option (String × ℕ)
unfolding newest
read_current_setting_and_change_time c field_name = elim (newest field_name c.changes) [
  | none ↦ none
  | some r ↦ some (r.new_value, r.observed_at_ns)
]
