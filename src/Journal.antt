-- ===== src/Journal.antt =====
-- measurements/2026-08-20-part-runtime/measure_store.py: the journal that was tried on LMDB against
-- the one on SQLite. Bytes are numbers below 256. LMDB is the list of its entries in the order in
-- which its cursor goes; `encode` and `decode` of UTF-8 are a `TextCodec`, `decode` none for the
-- UnicodeDecodeError. What `struct` refuses to pack or finds too short raises.
pub mod Order
pub mod Packing
pub mod Values
pub mod Scan
pub mod Range
pub mod Query
pub mod Reopen
pub mod Recovery
mod Tests
use ajit_segment_bots.Prelude.{
  ◌&&◌, ◌||◌, ℕ, ◌+◌, ◌-◌, ◌*◌, ◌/◌, ◌%◌, ◌==◌, zero, suc, Bool, true, false, not, List, [], ◌∷◌,
  ◌++◌, Option, none, some, String, Result, ok, raise, ◌>>=◌, if◌then◌else◌, leb, ltb, length, take,
  drop, starts_with, keep_if, str_eq,
}

abbrev pub Bytes : Type 0
Bytes = List ℕ

pub record TextCodec : Type 0 where
  pub encode : String → Bytes
  pub decode : Bytes → Option String

pub data CodecError : Type 0 where
  struct_error unicode_decode_error : CodecError

-- How many numbers a field of so many bytes tells apart.
abbrev pub span : ℕ → ℕ
span zero = 1
span (suc n) = 256 * span n

-- The bytes of a number, the most significant first, and the number of such bytes.
unfoldable pub bytes_of : ℕ → ℕ → Bytes
bytes_of zero x = []
bytes_of (suc n) x = x / span n ∷ bytes_of n (x % span n)

unfoldable pub number_from : ℕ → Bytes → ℕ
number_from acc [] = acc
number_from acc (b ∷ bs) = number_from (acc * 256 + b) bs

-- `struct.pack` of one field, and `struct.unpack_from` of one field at an offset.
unfoldable pub pack_field : ℕ → ℕ → Result CodecError Bytes
pack_field width x = if ltb x (span width) then ok (bytes_of width x) else raise struct_error

unfoldable pub unpack_field : ℕ → Bytes → ℕ → Result CodecError ℕ
unpack_field width buffer offset =
    let field_bytes = take width (drop offset buffer) in
    if length field_bytes == width then ok (number_from 0 field_bytes) else raise struct_error

-- `b[:width].ljust(width, b"\x00")`
unfoldable pub padded : ℕ → Bytes → Bytes
padded zero bs = []
padded (suc n) [] = 0 ∷ padded n []
padded (suc n) (b ∷ bs) = b ∷ padded n bs

-- `bytes.__le__`: byte by byte, a text before what it begins.
unfoldable pub bytes_le : Bytes → Bytes → Bool
bytes_le [] t = true
bytes_le (a ∷ s) [] = false
bytes_le (a ∷ s) (b ∷ t) = ltb a b || (a == b && bytes_le s t)

pub record JournalRow : Type 0 where
  pub part_id : String
  pub timestamp_ns : ℕ
  pub seq : ℕ
  pub data_type : String
  pub provenance : String
  pub checksum : ℕ
  pub payload : Bytes

abbrev pub Decoded : Type 0
Decoded = String × String × ℕ × Bytes

abbrev pub Entry : Type 0
Entry = Bytes × Bytes

module _ (codec : TextCodec) where
  unfoldable pub journal_key : String → ℕ → ℕ → ℕ → Result CodecError Bytes
  journal_key part_id timestamp_ns seq part_id_width = do
    time_bytes ← pack_field 8 timestamp_ns
    seq_bytes ← pack_field 4 seq
    ok (padded part_id_width (codec.encode part_id) ++ (time_bytes ++ seq_bytes))

  unfoldable pub journal_value : String → String → ℕ → Bytes → Result CodecError Bytes
  journal_value data_type provenance checksum payload = do
    let dt = codec.encode data_type
    let pr = codec.encode provenance
    dt_len ← pack_field 2 (length dt)
    pr_len ← pack_field 2 (length pr)
    checksum_bytes ← pack_field 4 checksum
    ok (dt_len ++ (pr_len ++ (checksum_bytes ++ (dt ++ (pr ++ payload)))))

  -- `.decode("utf-8")`
  unfoldable pub decode_text : Bytes → Result CodecError String
  decode_text bs = elim (codec.decode bs) [ none ↦ raise unicode_decode_error | some s ↦ ok s ]

  unfoldable pub journal_decode : Bytes → Result CodecError Decoded
  journal_decode value = do
    dt_len ← unpack_field 2 value 0
    pr_len ← unpack_field 2 value 2
    checksum ← unpack_field 4 value 4
    dt ← decode_text (take dt_len (drop 8 value))
    pr ← decode_text (take pr_len (drop (8 + dt_len) value))
    ok (dt, pr, checksum, drop (8 + dt_len + pr_len) value)

  unfoldable pub settings_value : ℕ → String → Result CodecError Bytes
  settings_value updated_ns value_str = do
    time_bytes ← pack_field 8 updated_ns
    ok (time_bytes ++ codec.encode value_str)

  unfoldable pub settings_decode : Bytes → Result CodecError (ℕ × String)
  settings_decode value = do
    updated_ns ← unpack_field 8 value 0
    value_str ← decode_text (drop 8 value)
    ok (updated_ns, value_str)

  -- `cur.set_range(start_key)`: the entries from the first whose key is not before the start.
  unfoldable pub set_range : Bytes → List Entry → List Entry
  set_range start_key [] = []
  set_range start_key (e ∷ es) =
      let later_entries = set_range start_key es in
      if bytes_le start_key e.0 then e ∷ es else later_entries

  -- The loop over the cursor, which stops after the end and outside of the part.
  unfoldable pub read_range : Bytes → Bytes → List Entry → Result CodecError (List Decoded)
  read_range prefix end_key [] = ok []
  read_range prefix end_key (e ∷ es) =
      let rest = read_range prefix end_key es in
      if not (bytes_le e.0 end_key) || not (starts_with prefix e.0)
      then ok []
      else (do row ← journal_decode e.1; rows ← rest; ok (row ∷ rows))

  -- One repetition of `measure_lmdb_range_query`: the rows that it reads.
  unfoldable pub lmdb_range_query :
      ℕ → String → ℕ → ℕ → List Entry → Result CodecError (List Decoded)
  lmdb_range_query part_id_width part_id t0_ns t1_ns entries = do
    let prefix = padded part_id_width (codec.encode part_id)
    t0_bytes ← pack_field 8 t0_ns
    t1_bytes ← pack_field 8 t1_ns
    read_range prefix (prefix ++ (t1_bytes ++ 255 ∷ 255 ∷ 255 ∷ 255 ∷ []))
        (set_range (prefix ++ t0_bytes) entries)

-- `_lmdb_journal_key_seq`
unfoldable pub journal_key_seq : Bytes → ℕ → Result CodecError ℕ
journal_key_seq key part_id_width = unpack_field 4 key (part_id_width + 8)

-- SQLite's table of the same rows: the `WHERE` and the `ORDER BY timestamp_ns` of
-- `measure_sqlite_range_query`.
unfoldable pub selects : String → ℕ → ℕ → JournalRow → Bool
selects part_id t0_ns t1_ns row =
    str_eq row.part_id part_id && (leb t0_ns row.timestamp_ns && leb row.timestamp_ns t1_ns)

unfoldable pub insert_row : JournalRow → List JournalRow → List JournalRow
insert_row r [] = r ∷ []
insert_row r (s ∷ rows) =
    let rest = insert_row r rows in
    if leb r.timestamp_ns s.timestamp_ns then r ∷ s ∷ rows else s ∷ rest

unfoldable pub order_by_time : List JournalRow → List JournalRow
order_by_time [] = []
order_by_time (r ∷ rows) = insert_row r (order_by_time rows)

unfoldable pub sqlite_range_query : String → ℕ → ℕ → List JournalRow → List JournalRow
sqlite_range_query part_id t0_ns t1_ns rows =
    order_by_time (keep_if (selects part_id t0_ns t1_ns) rows)
