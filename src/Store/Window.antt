-- ===== src/Store/Window.antt =====
-- The window of a journal whose clock did not go back.
use ajit_segment_bots.Store.Order.{
  IsChronological, keep_if-IsChronological, next_key_greater, order-chronological,
}
use ajit_segment_bots.Prelude.{
  ◌&&◌, ◌<◌, All, List, String, [], keep_if, leb, map, str_eq, ℕ, ◌∷◌, ◌≡◌, ◌≤◌,
}
use mathlib.Core.List.{reverse}
use ajit_segment_bots.Store.{
  Connection, JournalEntry, append_journal_entry, read_entries_in_window, in_window, next_key,
}

-- Appending keeps the journal in the order of its keys and times, if the clock is not behind what the
-- journal holds, and the id that is returned is greater than each before.
pub append-IsChronological :
    (now : ℕ) (part_id kind payload provenance : String) (c : Connection)
    → All (λ (e : JournalEntry). e.recorded_at_ns ≤ now) c.journal
    → IsChronological c.journal
    → IsChronological (append_journal_entry now part_id kind payload provenance c).0.journal
      × All
          (λ (e : JournalEntry).
            e.entry_id < (append_journal_entry now part_id kind payload provenance c).1)
          c.journal
unfolding append_journal_entry IsChronological
append-IsChronological now part_id kind payload provenance c clock h =
    let keys =
      keys_greater c.journal
        (next_key_greater (map (λ (e : JournalEntry). e.entry_id) c.journal)) in
    ((both c.journal keys clock, h), keys)
  where
    bound : ℕ
    bound = next_key (map (λ (e : JournalEntry). e.entry_id) c.journal)

    keys_greater :
        (es : List JournalEntry)
        → All (λ k. k < bound) (map (λ (e : JournalEntry). e.entry_id) es)
        → All (λ (e : JournalEntry). e.entry_id < bound) es
    keys_greater [] k = tt
    keys_greater (e ∷ es) k = (k.0, keys_greater es k.1)

    both :
        (es : List JournalEntry)
        → All (λ (e : JournalEntry). e.entry_id < bound) es
        → All (λ (e : JournalEntry). e.recorded_at_ns ≤ now) es
        → All (λ (e : JournalEntry). (e.entry_id < bound) × (e.recorded_at_ns ≤ now)) es
    both [] a b = tt
    both (e ∷ es) a b = ((a.0, b.0), both es a.1 b.1)

-- If the journal is in the order of its keys and times, the window of a part holds exactly the
-- entries of that part whose time is in it, both ends included, in the order in which they were
-- appended.
pub read_entries_in_window_lem :
    (c : Connection) (part_id : String) (start_ns end_ns : ℕ)
    → IsChronological c.journal
    → read_entries_in_window c part_id start_ns end_ns
      ≡ reverse (
          keep_if
            (λ (e : JournalEntry).
              str_eq e.part_id part_id
              && (leb start_ns e.recorded_at_ns && leb e.recorded_at_ns end_ns))
            c.journal)
unfolding read_entries_in_window in_window
read_entries_in_window_lem c part_id start_ns end_ns h =
    order-chronological
      (keep_if
        (λ (e : JournalEntry).
          str_eq e.part_id part_id
          && (leb start_ns e.recorded_at_ns && leb e.recorded_at_ns end_ns))
        c.journal)
      (keep_if-IsChronological
        (λ (e : JournalEntry).
          str_eq e.part_id part_id
          && (leb start_ns e.recorded_at_ns && leb e.recorded_at_ns end_ns))
        c.journal h)
