-- ===== src/Journal/Tests.antt =====
-- Two rows of a part and one of another in a store, a value, and a payload that was torn.
use Prim.Native.Char.{Char, char, code, IsLt}
use Prim.Native.Nat.{Ordering, compare}
use ajit_segment_bots.Prelude.{
  ◌≡◌, ◌↔◌, refl, ap, ℕ, List, [], ◌∷◌, Option, some, none, String, ok, true, map, arith, All, ◌+◌,
  ◌∙◌,
}
use ajit_segment_bots.Journal.{
  Bytes, TextCodec, JournalRow, Entry, journal_value, journal_decode, settings_value,
  lmdb_range_query, sqlite_range_query, bytes_of, pack_field, journal_key, padded, bytes_le,
}
use ajit_segment_bots.Journal.Values.{Restores, journal_decode-journal_value}
use ajit_segment_bots.Journal.Query.{lmdb_range_query-sqlite_range_query}
use ajit_segment_bots.Journal.Range.{decoded_of, Holds, IsSorted}
use ajit_segment_bots.Journal.Reopen.{BaselineMeta, sqlite_crash_reopen, lmdb_crash_reopen}
use ajit_segment_bots.Journal.Recovery.{
  sqlite_crash_reopen-intact_iff, lmdb_crash_reopen-AreAlike, IsAsNoted, AreAlike,
}

-- A codec that keeps every character as one number, as UTF-8 does below 128.
abbrev encode_chars : String → Bytes
encode_chars String.[] = []
encode_chars (String.◌∷◌ c s) = code c ∷ encode_chars s

-- A number is a character's below the surrogates, or above them and below the end.
abbrev AreBelow : Ordering → Ordering → Type 0
AreBelow Ordering.lt o = IsLt o
AreBelow Ordering.eq _ = ⊥
AreBelow Ordering.gt _ = ⊥

abbrev IsChar : Ordering → Ordering → Ordering → Type 0
IsChar Ordering.lt _ _ = Unit
IsChar Ordering.eq o p = AreBelow o p
IsChar Ordering.gt o p = AreBelow o p

abbrev char_if : (o p q : Ordering) → (IsChar o p q → Char) → Option Char
char_if Ordering.lt _ _ give = some (give tt)
char_if Ordering.eq Ordering.lt Ordering.lt give = some (give tt)
char_if Ordering.gt Ordering.lt Ordering.lt give = some (give tt)
char_if _ _ _ _ = none

char_if-some :
    (o p q : Ordering) (give : IsChar o p q → Char) (is : IsChar o p q)
    → char_if o p q give ≡ some (give is)
char_if-some Ordering.lt p q give is = refl
char_if-some Ordering.eq Ordering.lt Ordering.lt give is = refl
char_if-some Ordering.eq Ordering.lt Ordering.eq give is = absurd is
char_if-some Ordering.eq Ordering.lt Ordering.gt give is = absurd is
char_if-some Ordering.eq Ordering.eq q give is = absurd is
char_if-some Ordering.eq Ordering.gt q give is = absurd is
char_if-some Ordering.gt Ordering.lt Ordering.lt give is = refl
char_if-some Ordering.gt Ordering.lt Ordering.eq give is = absurd is
char_if-some Ordering.gt Ordering.lt Ordering.gt give is = absurd is
char_if-some Ordering.gt Ordering.eq q give is = absurd is
char_if-some Ordering.gt Ordering.gt q give is = absurd is

abbrev char_of : ℕ → Option Char
char_of n = char_if (compare n 55296) (compare 57343 n) (compare n 1114112) (char n)

abbrev cons_char : Option Char → Option String → Option String
cons_char (some c) (some s) = some (String.◌∷◌ c s)
cons_char _ _ = none

abbrev decode_chars : Bytes → Option String
decode_chars [] = some String.[]
decode_chars (n ∷ ns) = cons_char (char_of n) (decode_chars ns)

abbrev plain : TextCodec
plain = record { encode = encode_chars; decode = decode_chars }

plain-Restores : Restores plain
plain-Restores String.[] = refl
plain-Restores (String.◌∷◌ (char n is) s) =
    ap (λ o. cons_char o (decode_chars (encode_chars s)))
      (char_if-some (compare n 55296) (compare 57343 n) (compare n 1114112) (char n) is)
    ∙ ap (cons_char (some (char n is))) (plain-Restores s)

abbrev tick : ℕ → ℕ → String → JournalRow
tick t s part = record {
  part_id = part;
  timestamp_ns = t;
  seq = s;
  data_type = "tick";
  provenance = "p";
  checksum = 7;
  payload = 1 ∷ 2 ∷ [];
}

abbrev value : Bytes
value = 0 ∷ 4 ∷ 0 ∷ 1 ∷ 0 ∷ 0 ∷ 0 ∷ 7 ∷ b't' ∷ b'i' ∷ b'c' ∷ b'k' ∷ b'p' ∷ 1 ∷ 2 ∷ []

tick_packed : journal_value plain "tick" "p" 7 (1 ∷ 2 ∷ []) ≡ ok value
unfolding journal_value pack_field bytes_of
tick_packed = refl

journal_decode-journal_value_example : journal_decode plain value ≡ ok ("tick", "p", 7, 1 ∷ 2 ∷ [])
journal_decode-journal_value_example =
    journal_decode-journal_value plain plain-Restores "tick" "p" 7 (1 ∷ 2 ∷ []) value tick_packed

abbrev setting : Bytes
setting = 0 ∷ 0 ∷ 0 ∷ 0 ∷ 0 ∷ 0 ∷ 1 ∷ 0 ∷ b'5' ∷ []

setting_packed : settings_value plain 256 "5" ≡ ok setting
unfolding settings_value pack_field bytes_of
setting_packed = refl

abbrev key : ℕ → ℕ → ℕ → Bytes
key p t s = p ∷ 0 ∷ 0 ∷ 0 ∷ 0 ∷ 0 ∷ 0 ∷ 0 ∷ 0 ∷ t ∷ 0 ∷ 0 ∷ 0 ∷ s ∷ []

abbrev rows : List JournalRow
rows = tick 5 0 "a" ∷ tick 9 1 "a" ∷ tick 6 0 "b" ∷ []

abbrev entries : List Entry
entries = (key b'a' 5 0, value) ∷ (key b'a' 9 1, value) ∷ (key b'b' 6 0, value) ∷ []

key_packed :
    (journal_key plain "a" 5 0 2 ≡ ok (key b'a' 5 0))
    × (journal_key plain "a" 9 1 2 ≡ ok (key b'a' 9 1))
    × (journal_key plain "b" 6 0 2 ≡ ok (key b'b' 6 0))
unfolding journal_key pack_field bytes_of padded
key_packed = (refl, refl, refl)

rows_held : Holds plain 2 rows entries
rows_held =
    (key_packed.0, tick_packed, (key_packed.1, tick_packed, (key_packed.2, tick_packed, tt)))

entries-IsSorted : IsSorted entries
unfolding bytes_le
entries-IsSorted = ((refl, (refl, tt)), ((refl, tt), (tt, tt)))

lmdb_range_query-sqlite_range_query_example :
    lmdb_range_query plain 2 "a" 6 20 entries
    ≡ ok (map decoded_of (sqlite_range_query "a" 6 20 rows))
lmdb_range_query-sqlite_range_query_example =
    lmdb_range_query-sqlite_range_query plain 2 "a" 6 20 rows entries plain-Restores (ground arith)
      (ground arith) rows_held entries-IsSorted (ground arith) (ground arith)

abbrev noted : BaselineMeta
noted = record { noted_seq = 0; noted_checksum = 7; payload_len = 2 }

-- A checksum that a torn payload changes.
abbrev sum_of : Bytes → ℕ
sum_of [] = 4
sum_of (b ∷ bs) = b + sum_of bs

sqlite_crash_reopen-intact_iff_example :
    ((sqlite_crash_reopen sum_of "a" (noted ∷ []) 1 2 rows).baseline_all_intact ≡ true)
    ↔ All (IsAsNoted sum_of "a" rows) (noted ∷ [])
sqlite_crash_reopen-intact_iff_example =
    sqlite_crash_reopen-intact_iff sum_of "a" (noted ∷ []) 1 2 rows

abbrev torn : Bytes
torn = 0 ∷ 4 ∷ 0 ∷ 1 ∷ 0 ∷ 0 ∷ 0 ∷ 7 ∷ b't' ∷ b'i' ∷ b'c' ∷ b'k' ∷ b'p' ∷ 0 ∷ 0 ∷ []

torn_packed : journal_value plain "tick" "p" 7 (0 ∷ 0 ∷ []) ≡ ok torn
unfolding journal_value pack_field bytes_of
torn_packed = refl

abbrev written : List Entry
written = (key b'a' 5 0, value) ∷ []

abbrev found_torn : List Entry
found_torn = (key b'a' 5 0, torn) ∷ []

torn-AreAlike : AreAlike plain written found_torn
torn-AreAlike = (
  refl,
  (
    _,
    _,
    journal_decode-journal_value plain plain-Restores "tick" "p" 7 (1 ∷ 2 ∷ []) value tick_packed,
    journal_decode-journal_value plain plain-Restores "tick" "p" 7 (0 ∷ 0 ∷ []) torn torn_packed,
    refl,
    refl,
  ),
  tt,
)

lmdb_crash_reopen-AreAlike_example :
    lmdb_crash_reopen plain 2 "a" (noted ∷ []) 1 2 written
    ≡ lmdb_crash_reopen plain 2 "a" (noted ∷ []) 1 2 found_torn
lmdb_crash_reopen-AreAlike_example =
    lmdb_crash_reopen-AreAlike plain 2 "a" (noted ∷ []) 1 2 written found_torn torn-AreAlike
