-- ===== src/Journal/Range.antt =====
-- The range query on LMDB against the query on SQLite, on the same rows.
use ajit_segment_bots.Prelude.{
  ◌≡◌, ◌&&◌, ℕ, true, false, List, [], ◌∷◌, ◌++◌, leb, arith, length, refl, ◌<◌, ap, sym, ◌∙◌,
  text_eq, starts_with, ok, Bool-cases, inl, inr, All, map, keep_if, str_eq, String, &&_iff,
  str_eq_refl,
}
use text.Mathlib.TextEquality.{eq_iff}
use ajit_segment_bots.Journal.{
  Bytes, TextCodec, JournalRow, Decoded, Entry, span, bytes_of, bytes_le, padded, journal_key,
  journal_value, pack_field, set_range, read_range, selects,
}
use ajit_segment_bots.Journal.Order.{
  bytes_le_trans, text_eq-equal, text_eq_refl, starts_with-append, text_eq_sym,
}
use ajit_segment_bots.Journal.Packing.{length-padded, Fits, padded-injective}
use ajit_segment_bots.Journal.Values.{Restores, journal_decode-journal_value}
use ajit_segment_bots.Journal.Scan.{key_of, start_of, end_of, within}

abbrev pub decoded_of : JournalRow → Decoded
decoded_of r = (r.data_type, r.provenance, r.checksum, r.payload)

-- The cursor goes by the order of the keys.
abbrev pub IsSorted : List Entry → Type 0
IsSorted [] = Unit
IsSorted (e ∷ es) = All (λ (f : Entry). bytes_le e.0 f.0 ≡ true) es × IsSorted es

-- What follows an entry behind a bound is behind it too, and what follows one after a bound after it.
stays_past :
    (k last_key : Bytes) (es : List Entry)
    → bytes_le k last_key ≡ false
    → All (λ (f : Entry). bytes_le k f.0 ≡ true) es
    → All (λ (f : Entry). bytes_le f.0 last_key ≡ false) es
stays_past k last_key [] past above = tt
stays_past k last_key (f ∷ es) past above = (
  ground (arith, bytes_le_trans k f.0 last_key above.0, past),
  stays_past k last_key es past above.1,
)

stays_after :
    (start k : Bytes) (es : List Entry)
    → bytes_le start k ≡ true
    → All (λ (f : Entry). bytes_le k f.0 ≡ true) es
    → All (λ (f : Entry). bytes_le start f.0 ≡ true) es
stays_after start k [] begun above = tt
stays_after start k (f ∷ es) begun above =
    (bytes_le_trans start k f.0 begun above.0, stays_after start k es begun above.1)

module _ (codec : TextCodec) (width : ℕ) where
  -- The entries hold the rows: each was put under its key with its value.
  abbrev pub Holds : List JournalRow → List Entry → Type 0
  Holds [] [] = Unit
  Holds [] (e ∷ es) = ⊥
  Holds (r ∷ rows) [] = ⊥
  Holds (r ∷ rows) (e ∷ es) =
      (journal_key codec r.part_id r.timestamp_ns r.seq width ≡ ok e.0)
      × (journal_value codec r.data_type r.provenance r.checksum r.payload ≡ ok e.1)
      × Holds rows es

  -- The part's id is kept whole by a key of this width.
  abbrev pub IsKept : String → Type 0
  IsKept part_id = Fits width (codec.encode part_id)

  pub journal_key-ok :
      (part_id : String) (t s : ℕ) (k : Bytes)
      → journal_key codec part_id t s width ≡ ok k
      → (t < span 8) × (s < span 4) × (k ≡ key_of (padded width (codec.encode part_id)) t s)
  unfolding journal_key pack_field
  journal_key-ok part_id t s k h = ground (arith, h)

  module _ (restores : Restores codec) (part_id : String) (t0_ns t1_ns : ℕ) (kept : IsKept part_id)
      (small0 : t0_ns < span 8) (small1 : t1_ns < span 8) where
    abbrev prefix : Bytes
    prefix = padded width (codec.encode part_id)

    abbrev start_key : Bytes
    start_key = start_of prefix t0_ns

    abbrev end_key : Bytes
    end_key = end_of prefix t1_ns

    same_part :
        (other_id : String)
        → IsKept other_id
        → text_eq (padded width (codec.encode other_id)) prefix ≡ str_eq other_id part_id
    same_part other_id fits = elim (Bool-cases (str_eq other_id part_id)) [
      | inl equal ↦
          let same : other_id ≡ part_id = (eq_iff other_id part_id).0 equal in
          rw same (text_eq_refl prefix ∙ sym (str_eq_refl part_id))
      | inr differ ↦ elim (Bool-cases (text_eq (padded width (codec.encode other_id)) prefix)) [
        | inl alike ↦
            let same_bytes : codec.encode other_id ≡ codec.encode part_id =
              padded-injective width (codec.encode other_id) (codec.encode part_id) fits kept
                (text_eq-equal (padded width (codec.encode other_id)) prefix alike) in
            let same : other_id ≡ part_id =
              cc (restores other_id, restores part_id, ap codec.decode same_bytes) in
            absurd (cc (differ, ap (λ i. str_eq i part_id) same, str_eq_refl part_id))
        | inr unlike ↦ unlike ∙ sym differ
      ]
    ]

    -- A key is within the bounds exactly if SQLite selects its row, and then it has the prefix.
    key-selects :
        (r : JournalRow) (k : Bytes)
        → IsKept r.part_id
        → journal_key codec r.part_id r.timestamp_ns r.seq width ≡ ok k
        → ((bytes_le start_key k && bytes_le k end_key) ≡ selects part_id t0_ns t1_ns r)
          × (selects part_id t0_ns t1_ns r ≡ true → starts_with prefix k ≡ true)
    unfolding selects
    key-selects r k fits h =
        let (small_t, small_s, whole) = journal_key-ok r.part_id r.timestamp_ns r.seq k h in
        let part = padded width (codec.encode r.part_id) in
        let same_length : length prefix ≡ length part =
          length-padded width (codec.encode part_id)
          ∙ sym (length-padded width (codec.encode r.part_id)) in
        let of_part = same_part r.part_id fits in
        (
          ap (λ x. bytes_le start_key x && bytes_le x end_key) whole
              ∙ within prefix part same_length t0_ns r.timestamp_ns r.seq t1_ns small0 small_t
                  small_s small1
              ∙ ap (λ b. b && (leb t0_ns r.timestamp_ns && leb r.timestamp_ns t1_ns)) of_part,
          λ selected.
              ap (starts_with prefix) whole
              ∙ starts_with-append prefix part (bytes_of 8 r.timestamp_ns ++ bytes_of 4 r.seq)
                  same_length
              ∙ text_eq_sym prefix part
              ∙ of_part
              ∙ ((&&_iff (str_eq r.part_id part_id) _).0 selected).0,
        )

    -- Behind the end nothing is selected.
    selects-past :
        (rows : List JournalRow) (entries : List Entry)
        → All (λ (r : JournalRow). IsKept r.part_id) rows
        → Holds rows entries
        → All (λ (e : Entry). bytes_le e.0 end_key ≡ false) entries
        → keep_if (selects part_id t0_ns t1_ns) rows ≡ []
    unfolding keep_if
    selects-past [] entries fits holds past = refl
    selects-past (r ∷ rows) [] fits holds past = absurd holds
    selects-past (r ∷ rows) (e ∷ es) fits holds past = ground (
      arith,
      (key-selects r e.0 fits.0 holds.0).0,
      past.0,
      selects-past rows es fits.1 holds.2 past.1,
    )

    -- From an entry on that is not before the start, and with it all that follow, the loop reads what
    -- is selected.
    read_range-selects :
        (rows : List JournalRow) (entries : List Entry)
        → All (λ (r : JournalRow). IsKept r.part_id) rows
        → Holds rows entries
        → IsSorted entries
        → All (λ (e : Entry). bytes_le start_key e.0 ≡ true) entries
        → read_range codec prefix end_key entries
          ≡ ok (map decoded_of (keep_if (selects part_id t0_ns t1_ns) rows))
    unfolding read_range keep_if
    read_range-selects [] [] fits holds sorted begun = refl
    read_range-selects [] (e ∷ es) fits holds sorted begun = absurd holds
    read_range-selects (r ∷ rows) [] fits holds sorted begun = absurd holds
    read_range-selects (r ∷ rows) (e ∷ es) fits holds sorted begun =
        let (bounds, has_prefix) = key-selects r e.0 fits.0 holds.0 in
        let rest = read_range-selects rows es fits.1 holds.2 sorted.1 begun.1 in
        let decodes =
          journal_decode-journal_value codec restores r.data_type r.provenance r.checksum r.payload
            e.1 holds.1 in
        elim (Bool-cases (selects part_id t0_ns t1_ns r)) [
          | inl selected ↦
              ground (arith, bounds, begun.0, has_prefix selected, selected, decodes, rest)
          | inr not_selected ↦
              let past : bytes_le e.0 end_key ≡ false =
                ground (arith, bounds, begun.0, not_selected) in
              let none_later =
                selects-past rows es fits.1 holds.2 (stays_past e.0 end_key es past sorted.0) in
              ground (arith, past, not_selected, none_later)
        ]

    -- From where the cursor is set.
    pub set_range-selects :
        (rows : List JournalRow) (entries : List Entry)
        → All (λ (r : JournalRow). IsKept r.part_id) rows
        → Holds rows entries
        → IsSorted entries
        → read_range codec prefix end_key (set_range codec start_key entries)
          ≡ ok (map decoded_of (keep_if (selects part_id t0_ns t1_ns) rows))
    unfolding set_range keep_if
    set_range-selects [] [] fits holds sorted = read_range-selects [] [] fits holds sorted tt
    set_range-selects [] (e ∷ es) fits holds sorted = absurd holds
    set_range-selects (r ∷ rows) [] fits holds sorted = absurd holds
    set_range-selects (r ∷ rows) (e ∷ es) fits holds sorted =
        elim (Bool-cases (bytes_le start_key e.0)) [
          | inl begun ↦ rw begun (
              read_range-selects (r ∷ rows) (e ∷ es) fits holds sorted
                (begun, stays_after start_key e.0 es begun sorted.0))
          | inr before ↦ rw before (
              set_range-selects rows es fits.1 holds.2 sorted.1
              ∙ ap (λ kept_rows. ok (map decoded_of kept_rows))
                  (ground (arith, (key-selects r e.0 fits.0 holds.0).0, before)))
        ]
