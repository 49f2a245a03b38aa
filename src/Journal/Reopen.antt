-- ===== src/Journal/Reopen.antt =====
-- `sqlite_crash_reopen_proc` and `lmdb_crash_reopen_proc`: what is found of the records after a kill.
-- The store is open already; its rows or entries are what is found in it.
use ajit_segment_bots.Watch.Recheck.{present}
use ajit_segment_bots.Prelude.{
  ◌&&◌, ℕ, ◌==◌, zero, suc, Bool, true, false, not, List, [], ◌∷◌, Option, none, some, String,
  Result, ok, ◌>>=◌, if◌then◌else◌, length, starts_with, str_eq, is_some, keep_if,
}
use ajit_segment_bots.Journal.{
  Bytes, TextCodec, CodecError, JournalRow, Entry, padded, journal_decode, journal_key_seq,
  set_range,
}

-- What the writer noted of a committed record.
pub record BaselineMeta : Type 0 where
  pub noted_seq : ℕ
  pub noted_checksum : ℕ
  pub payload_len : ℕ

pub record RecoveryReport : Type 0 where
  pub total_present_for_part : ℕ
  pub baseline_present : ℕ
  pub baseline_all_intact : Bool
  pub torn_seqs : List ℕ
  pub uncommitted_present : ℕ

-- The loop over what was noted: `check` says none of a record that is absent, else whether it is
-- intact. How many are present, whether all of them are intact, and which are not.
unfoldable pub add_checked : BaselineMeta → Option Bool → ℕ × Bool × List ℕ → ℕ × Bool × List ℕ
add_checked meta none counts = counts
add_checked meta (some true) (present, intact, torn) = (suc present, intact, torn)
add_checked meta (some false) (present, intact, torn) = (suc present, false, meta.noted_seq ∷ torn)

unfoldable pub check_baseline : (BaselineMeta → Option Bool) → List BaselineMeta → ℕ × Bool × List ℕ
check_baseline check [] = (0, true, [])
check_baseline check (meta ∷ metas) = add_checked meta (check meta) (check_baseline check metas)

-- How many of the records that were held open are there.
unfoldable pub count_uncommitted : (ℕ → Bool) → ℕ → ℕ → ℕ
count_uncommitted is_present first_seq zero = 0
count_uncommitted is_present first_seq (suc hold_records) =
    let rest = count_uncommitted is_present (suc first_seq) hold_records in
    if is_present first_seq then suc rest else rest

unfoldable pub report :
    ℕ → (BaselineMeta → Option Bool) → (ℕ → Bool) → List BaselineMeta → ℕ → ℕ → RecoveryReport
report total check is_present baseline_meta baseline_records hold_records =
    let (present, intact, torn) = check_baseline check baseline_meta in
    record {
      total_present_for_part = total;
      baseline_present = present;
      baseline_all_intact = intact;
      torn_seqs = torn;
      uncommitted_present = count_uncommitted is_present baseline_records hold_records;
    }

-- `SELECT payload, checksum FROM journal WHERE part_id=? AND seq=?` and `fetchone`.
unfoldable pub row_at : String → ℕ → List JournalRow → Option JournalRow
row_at part_id seq [] = none
row_at part_id seq (r ∷ rows) =
    let rest = row_at part_id seq rows in
    if str_eq r.part_id part_id && r.seq == seq then some r else rest

module _ (crc32 : Bytes → ℕ) where
  unfoldable pub row_is_intact : BaselineMeta → JournalRow → Bool
  row_is_intact meta row =
      length row.payload == meta.payload_len
      && (row.checksum == meta.noted_checksum && crc32 row.payload == meta.noted_checksum)

  unfoldable pub sqlite_check : String → List JournalRow → BaselineMeta → Option Bool
  sqlite_check part_id rows meta = elim (row_at part_id meta.noted_seq rows) [
    | none ↦ none
    | some row ↦ some (row_is_intact meta row)
  ]

  unfoldable pub sqlite_crash_reopen :
      String → List BaselineMeta → ℕ → ℕ → List JournalRow → RecoveryReport
  unfolding report
  sqlite_crash_reopen part_id baseline_meta baseline_records hold_records rows =
      report (length (keep_if (λ (r : JournalRow). str_eq r.part_id part_id) rows))
        (sqlite_check part_id rows) (λ seq. is_some (row_at part_id seq rows)) baseline_meta
        baseline_records hold_records

-- `present_by_seq`: the checksum and the length of the payload by the sequence number, the entry read
-- last first, which is the one that the dictionary keeps.
abbrev pub Present : Type 0
Present = List (ℕ × ℕ × ℕ)

unfoldable pub present_at : ℕ → Present → Option (ℕ × ℕ)
present_at seq [] = none
present_at seq ((s, checksum, plen) ∷ found) =
    let rest = present_at seq found in if s == seq then some (checksum, plen) else rest

-- `len(present_by_seq)`
unfoldable pub count_seqs : Present → ℕ
count_seqs [] = 0
count_seqs ((s, checksum, plen) ∷ found) =
    let rest = count_seqs found in if is_some (present_at s found) then rest else suc rest

module _ (codec : TextCodec) (part_id_width : ℕ) where
  -- The loop over the cursor, with what was found so far.
  unfoldable pub read_present : Bytes → Present → List Entry → Result CodecError Present
  read_present prefix found [] = ok found
  read_present prefix found (e ∷ es) = if not (starts_with prefix e.0) then ok found else (do
    seq ← journal_key_seq e.0 part_id_width
    (dt, pr, checksum, payload) ← journal_decode codec e.1
    read_present prefix ((seq, checksum, length payload) ∷ found) es)

  unfoldable pub lmdb_check : Present → BaselineMeta → Option Bool
  lmdb_check found meta = elim (present_at meta.noted_seq found) [
    | none ↦ none
    | some (checksum, plen) ↦ some (plen == meta.payload_len && checksum == meta.noted_checksum)
  ]

  unfoldable pub lmdb_crash_reopen :
      String → List BaselineMeta → ℕ → ℕ → List Entry → Result CodecError RecoveryReport
  lmdb_crash_reopen part_id baseline_meta baseline_records hold_records entries = do
    let prefix = padded part_id_width (codec.encode part_id)
    found ← read_present prefix [] (set_range codec prefix entries)
    ok (
        report (count_seqs found) (lmdb_check found) (λ seq. is_some (present_at seq found))
          baseline_meta baseline_records hold_records)
