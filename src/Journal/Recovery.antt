-- ===== src/Journal/Recovery.antt =====
-- What the two reports after a kill say of the records that are found.
use mathlib.Core.Path.{subst}
use ajit_segment_bots.Prelude.{
  ◌≡◌, ◌↔◌, ℕ, Bool, true, false, not, List, [], ◌∷◌, Option, none, some, String, Result, ok, raise,
  if◌then◌else◌, length, starts_with, arith, refl, All, ap, Bool-cases, inl, inr, Option-cases, ◌≢◌,
  ◌>>=◌, sym,
}
use ajit_segment_bots.Journal.{
  Bytes, TextCodec, JournalRow, Entry, padded, journal_decode, journal_key_seq, set_range, bytes_le,
  Decoded,
}
use ajit_segment_bots.Journal.Reopen.{
  BaselineMeta, check_baseline, row_at, sqlite_check, sqlite_crash_reopen, row_is_intact,
  read_present, lmdb_crash_reopen, add_checked,
}

All-map :
    {A : Type 0} (P Q : A → Type 0) → ((a : A) → P a → Q a) → (xs : List A) → All P xs → All Q xs
All-map P Q f [] h = tt
All-map P Q f (x ∷ xs) h = (f x h.0, All-map P Q f xs h.1)

add_checked-intact :
    (m : BaselineMeta) (o : Option Bool) (counts : ℕ × Bool × List ℕ)
    → ((add_checked m o counts).1 ≡ true) ↔ ((o ≢ some false) × (counts.1 ≡ true))
unfolding add_checked
add_checked-intact m none counts = ((λ h. ((λ e. cc e), h)), (λ (_, h). h))
add_checked-intact m (some true) counts = ((λ h. ((λ e. cc e), h)), (λ (_, h). h))
add_checked-intact m (some false) counts = ((λ h. absurd (cc h)), (λ (h, _). absurd (h refl)))

module _ (check : BaselineMeta → Option Bool) where
  check_baseline-intact :
      (metas : List BaselineMeta)
      → ((check_baseline check metas).1 ≡ true)
        ↔ All (λ (m : BaselineMeta). check m ≢ some false) metas
  unfolding check_baseline
  check_baseline-intact [] = ((λ _. tt), (λ _. refl))
  check_baseline-intact (m ∷ metas) =
      let head = add_checked-intact m (check m) (check_baseline check metas) in
      let rest = check_baseline-intact metas in
      (
        (λ h. let (whole, others) = head.0 h in (whole, rest.0 others)),
        (λ h. head.1 (h.0, rest.1 h.1)),
      )

module _ (crc32 : Bytes → ℕ) (part_id : String) where
  -- A record that is found is as it was noted: length, stored checksum and the payload's own.
  abbrev pub IsAsNoted : List JournalRow → BaselineMeta → Type 0
  IsAsNoted rows m =
      (row : JournalRow)
      → row_at part_id m.noted_seq rows ≡ some row
      → (length row.payload ≡ m.payload_len)
        × (row.checksum ≡ m.noted_checksum)
        × (crc32 row.payload ≡ m.noted_checksum)

  row_is_intact_lem :
      (m : BaselineMeta) (row : JournalRow)
      → (row_is_intact crc32 m row ≢ false) ↔ (
          (length row.payload ≡ m.payload_len)
          × (row.checksum ≡ m.noted_checksum)
          × (crc32 row.payload ≡ m.noted_checksum))
  unfolding row_is_intact
  row_is_intact_lem m row = ground arith

  check-noted :
      (rows : List JournalRow) (m : BaselineMeta)
      → (sqlite_check crc32 part_id rows m ≢ some false) ↔ IsAsNoted rows m
  unfolding sqlite_check
  check-noted rows m = elim (Option-cases (row_at part_id m.noted_seq rows)) [
    | inl absent ↦ (
      (λ _ row e. absurd (cc (absent, e))),
      (λ _ e. absurd (cc (rw (sqlite_check, absent) at e))),
    )
    | inr (row, at) ↦
        let judged = row_is_intact_lem m row in
        (
          (λ h row' at'.
              let same : row ≡ row' = cc (at, at') in
              let noted = judged.0 (λ e. h (rw (sqlite_check, at) (ap some e))) in
              subst
                (λ (r : JournalRow).
                  (length r.payload ≡ m.payload_len)
                  × (r.checksum ≡ m.noted_checksum)
                  × (crc32 r.payload ≡ m.noted_checksum))
                same noted),
          (λ h e. judged.1 (h row at) (cc (at, e))),
        )
  ]

  -- The report on SQLite says that all is intact exactly if every committed record that is found has
  -- its length, its stored checksum and, computed again, the checksum of its payload.
  pub sqlite_crash_reopen-intact_iff :
      (metas : List BaselineMeta) (baseline_records hold_records : ℕ) (rows : List JournalRow)
      → ((sqlite_crash_reopen crc32 part_id metas baseline_records hold_records
            rows).baseline_all_intact
          ≡ true)
        ↔ All (IsAsNoted rows) metas
  unfolding sqlite_crash_reopen
  sqlite_crash_reopen-intact_iff metas baseline_records hold_records rows =
      let checked = check_baseline-intact (sqlite_check crc32 part_id rows) metas in
      (
        (λ h. All-map _ _ (λ m. (check-noted rows m).0) metas (checked.0 h)),
        (λ h. checked.1 (All-map _ _ (λ m. (check-noted rows m).1) metas h)),
      )

bind-cong :
    {E A B : Type 0} (m : Result E A) (f g : A → Result E B)
    → ((a : A) → f a ≡ g a)
    → (m >>= f) ≡ (m >>= g)
bind-cong (ok a) f g same = same a
bind-cong (raise e) f g same = refl

-- Two entries that differ at most in the bytes of the payload.
abbrev pub AreAlike : TextCodec → List Entry → List Entry → Type 0
AreAlike codec [] [] = Unit
AreAlike codec [] (f ∷ fs) = ⊥
AreAlike codec (e ∷ es) [] = ⊥
AreAlike codec (e ∷ es) (f ∷ fs) =
    (e.0 ≡ f.0)
    × ((d : Decoded) × (d' : Decoded) × (journal_decode codec e.1 ≡ ok d)
        × (journal_decode codec f.1 ≡ ok d')
        × (d.2 ≡ d'.2)
        × (length d.3 ≡ length d'.3))
    × AreAlike codec es fs

module _ (codec : TextCodec) (width : ℕ) where
  read_present-AreAlike :
      (prefix : Bytes) (found : List (ℕ × ℕ × ℕ)) (es fs : List Entry)
      → AreAlike codec es fs
      → read_present codec width prefix found es ≡ read_present codec width prefix found fs
  unfolding read_present
  read_present-AreAlike prefix found [] [] alike = refl
  read_present-AreAlike prefix found [] (f ∷ fs) alike = absurd alike
  read_present-AreAlike prefix found (e ∷ es) [] alike = absurd alike
  read_present-AreAlike prefix found ((k, v) ∷ es) ((k', v') ∷ fs) (same, alike_values, alike) =
      let (d, d', decodes, decodes', checksums, lengths) = alike_values in
      rw (sym same) (
        ap (λ r. if not (starts_with prefix k) then ok found else r)
          (bind-cong (journal_key_seq k width) _ _ (λ seq.
            rw (decodes, decodes', checksums, lengths)
              (read_present-AreAlike prefix ((seq, d'.2, length d'.3) ∷ found) es fs alike))))

  set_range-AreAlike :
      (start : Bytes) (es fs : List Entry)
      → AreAlike codec es fs
      → AreAlike codec (set_range codec start es) (set_range codec start fs)
  unfolding set_range
  set_range-AreAlike start [] [] alike = tt
  set_range-AreAlike start [] (f ∷ fs) alike = absurd alike
  set_range-AreAlike start (e ∷ es) [] alike = absurd alike
  set_range-AreAlike start ((k, v) ∷ es) ((k', v') ∷ fs) (same, alike_values, alike) =
      rw (sym same) (elim (Bool-cases (bytes_le start k)) [
        | inl begun ↦ rw begun (refl, alike_values, alike)
        | inr before ↦ rw before (set_range-AreAlike start es fs alike)
      ])

  -- The report on LMDB is the same for two stores whose entries have the same keys, stored checksums
  -- and lengths of payloads, whatever the bytes of the payloads are.
  pub lmdb_crash_reopen-AreAlike :
      (part_id : String) (metas : List BaselineMeta) (baseline_records hold_records : ℕ)
      (es fs : List Entry)
      → AreAlike codec es fs
      → lmdb_crash_reopen codec width part_id metas baseline_records hold_records es
        ≡ lmdb_crash_reopen codec width part_id metas baseline_records hold_records fs
  unfolding lmdb_crash_reopen
  lmdb_crash_reopen-AreAlike part_id metas baseline_records hold_records es fs alike =
      rw
        (read_present-AreAlike (padded width (codec.encode part_id)) []
          (set_range codec (padded width (codec.encode part_id)) es)
          (set_range codec (padded width (codec.encode part_id)) fs)
          (set_range-AreAlike (padded width (codec.encode part_id)) es fs alike))
        refl
