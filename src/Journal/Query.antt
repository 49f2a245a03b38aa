-- ===== src/Journal/Query.antt =====
-- The order of the rows, and the two range queries against each other.
use ajit_segment_bots.Prelude.{
  ◌≡◌, ℕ, Bool, true, List, [], ◌∷◌, ◌++◌, arith, refl, ◌<◌, ◌≤◌, ap, sym, ◌∙◌, ok, Bool-cases, inl,
  inr, All, map, keep_if, str_eq, String, &&_iff, lt→ltb,
}
use text.Mathlib.TextEquality.{eq_iff}
use ajit_segment_bots.Journal.{
  Bytes, TextCodec, JournalRow, Entry, span, bytes_of, bytes_le, padded, journal_key, pack_field,
  lmdb_range_query, selects, insert_row, order_by_time, sqlite_range_query,
}
use ajit_segment_bots.Journal.Order.{bytes_le-append, bytes_le-bytes_of, bytes_le_refl}
use ajit_segment_bots.Journal.Values.{Restores}
use ajit_segment_bots.Journal.Scan.{key_of}
use ajit_segment_bots.Journal.Range.{
  Holds, IsKept, IsSorted, decoded_of, set_range-selects, journal_key-ok,
}

abbrev pub IsChronological : List JournalRow → Type 0
IsChronological [] = Unit
IsChronological (r ∷ rows) =
    All (λ (s : JournalRow). r.timestamp_ns ≤ s.timestamp_ns) rows × IsChronological rows

order_by_time-IsChronological :
    (rows : List JournalRow) → IsChronological rows → order_by_time rows ≡ rows
unfolding order_by_time insert_row
order_by_time-IsChronological [] h = refl
order_by_time-IsChronological (r ∷ []) h = refl
order_by_time-IsChronological (r ∷ s ∷ rows) h =
    ap (insert_row r) (order_by_time-IsChronological (s ∷ rows) h.1) ∙ first_stays
  where
    first_stays : insert_row r (s ∷ rows) ≡ r ∷ s ∷ rows
    first_stays = ground (arith, h.0.0)

-- Keys of one part stand in the order of their times.
key_of-times :
    (p : Bytes) (t s t' s' : ℕ)
    → t < span 8
    → t' < span 8
    → bytes_le (key_of p t s) (key_of p t' s') ≡ true
    → t ≤ t'
key_of-times p t s t' s' small small' h = ground (
  arith,
  h,
  bytes_le-append p p (bytes_of 8 t ++ bytes_of 4 s) (bytes_of 8 t' ++ bytes_of 4 s') refl,
  bytes_le_refl p,
  bytes_le-bytes_of 8 t t' (bytes_of 4 s) (bytes_of 4 s') small small',
)

module _ (codec : TextCodec) (width : ℕ) (part_id : String) (t0_ns t1_ns : ℕ) where
  abbrev chosen : JournalRow → Bool
  chosen = selects part_id t0_ns t1_ns

  selects-part : (r : JournalRow) → chosen r ≡ true → r.part_id ≡ part_id
  unfolding selects
  selects-part r h = (eq_iff r.part_id part_id).0 ((&&_iff (str_eq r.part_id part_id) _).0 h).0

  before-later :
      (r : JournalRow) (k : Bytes) (rows : List JournalRow) (entries : List Entry)
      → journal_key codec r.part_id r.timestamp_ns r.seq width ≡ ok k
      → chosen r ≡ true
      → Holds codec width rows entries
      → All (λ (f : Entry). bytes_le k f.0 ≡ true) entries
      → All (λ (s : JournalRow). r.timestamp_ns ≤ s.timestamp_ns) (keep_if chosen rows)
  unfolding keep_if
  before-later r k [] entries key selected holds above = tt
  before-later r k (s ∷ rows) [] key selected holds above = absurd holds
  before-later r k (s ∷ rows) (e ∷ es) key selected holds above =
      let rest = before-later r k rows es key selected holds.2 above.1 in
      elim (Bool-cases (chosen s)) [
        | inl chosen_too ↦
            let (small, _, is_key) =
              journal_key-ok codec width r.part_id r.timestamp_ns r.seq k key in
            let (small', _, is_key') =
              journal_key-ok codec width s.part_id s.timestamp_ns s.seq e.0 holds.0 in
            let no_sooner : r.timestamp_ns ≤ s.timestamp_ns =
              key_of-times (padded width (codec.encode part_id)) r.timestamp_ns r.seq s.timestamp_ns
                s.seq small small'
                (cc
                  (above.0, is_key, is_key', selects-part r selected, selects-part s chosen_too)) in
            rw chosen_too (no_sooner, rest)
        | inr not_chosen ↦ rw not_chosen rest
      ]

  keep_if-IsChronological :
      (rows : List JournalRow) (entries : List Entry)
      → Holds codec width rows entries
      → IsSorted entries
      → IsChronological (keep_if chosen rows)
  unfolding keep_if
  keep_if-IsChronological [] entries holds sorted = tt
  keep_if-IsChronological (r ∷ rows) [] holds sorted = absurd holds
  keep_if-IsChronological (r ∷ rows) (e ∷ es) holds sorted =
      let rest = keep_if-IsChronological rows es holds.2 sorted.1 in
      elim (Bool-cases (chosen r)) [
        | inl selected ↦
            rw selected (before-later r e.0 rows es holds.0 selected holds.2 sorted.0, rest)
        | inr not_selected ↦ rw not_selected rest
      ]

  -- If LMDB holds rows in the order of their keys, UTF-8 restores texts, the ids of the parts are kept
  -- whole by the width of the key, and the bounds are numbers of eight bytes, then the range query on
  -- LMDB reads, decoded and in the same order, exactly the rows that SQLite's query answers on them.
  pub lmdb_range_query-sqlite_range_query :
      (rows : List JournalRow) (entries : List Entry)
      → Restores codec
      → IsKept codec width part_id
      → All (λ (r : JournalRow). IsKept codec width r.part_id) rows
      → Holds codec width rows entries
      → IsSorted entries
      → t0_ns < span 8
      → t1_ns < span 8
      → lmdb_range_query codec width part_id t0_ns t1_ns entries
        ≡ ok (map decoded_of (sqlite_range_query part_id t0_ns t1_ns rows))
  unfolding lmdb_range_query sqlite_range_query pack_field
  lmdb_range_query-sqlite_range_query rows entries restores kept fits holds sorted small0 small1 =
      rw (lt→ltb t0_ns (span 8) small0, lt→ltb t1_ns (span 8) small1)
        (set_range-selects codec width restores part_id t0_ns t1_ns kept small0 small1 rows entries
            fits holds sorted
          ∙ ap (λ found. ok (map decoded_of found))
              (sym (
                order_by_time-IsChronological _
                  (keep_if-IsChronological rows entries holds sorted))))
