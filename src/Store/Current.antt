-- ===== src/Store/Current.antt =====
-- The setting that was recorded last.
use mathlib.Core.Path.{subst}
use ajit_segment_bots.Store.Order.{next_key_greater}
use ajit_segment_bots.Prelude.{
  ◌<◌, All, List, String, [], map, some, ℕ, ◌∷◌, ◌≡◌, ◌≢◌, ◌≤◌, Option-cases, arith, inl, inr,
  str_eq_ne, str_eq_refl, sym, ◌⊎◌, str_eq, true,
}
use ajit_segment_bots.Store.{
  Connection, SettingRow, record_setting_change, read_current_setting_and_change_time, newest,
  next_key, is_newer, newer_of,
}

newest-cons :
    (field_name : String) (r : SettingRow) (rs : List SettingRow) (s : SettingRow)
    → newest field_name (r ∷ rs) ≡ some s
    → ((s ≡ r) × (str_eq r.changed field_name ≡ true)) ⊎ (newest field_name rs ≡ some s)
unfolding newest
newest-cons field_name r rs s e = ground (arith, e)

-- The newest row of a field has what every row of the field has.
newest-All :
    (P : SettingRow → Type 0) (field_name : String) (rs : List SettingRow) (s : SettingRow)
    → All (λ (r : SettingRow). str_eq r.changed field_name ≡ true → P r) rs
    → newest field_name rs ≡ some s
    → P s
unfolding newest
newest-All P field_name [] s h e = absurd (cc e)
newest-All P field_name (r ∷ rs) s h e = elim (newest-cons field_name r rs s e) [
  | inl (same, named) ↦ subst P (sym same) (h.0 named)
  | inr rest ↦ newest-All P field_name rs s h.1 rest
]

-- A change that is recorded when the clock is not behind any earlier change of the field is what the
-- field is then read as, with its time; what any other field is read as stays as it was, whatever the
-- clock says.
pub record-read_current :
    (now : ℕ) (field_name old new : String) (c : Connection)
    → All
        (λ (r : SettingRow). str_eq r.changed field_name ≡ true → r.observed_at_ns ≤ now)
        c.changes
    → (read_current_setting_and_change_time
          (record_setting_change now field_name old new c).0
          field_name
        ≡ some (new, now))
      × ((other_field : String)
          → field_name ≢ other_field
          → read_current_setting_and_change_time
              (record_setting_change now field_name old new c).0
              other_field
            ≡ read_current_setting_and_change_time c other_field)
unfolding record_setting_change read_current_setting_and_change_time newer_of is_newer
record-read_current now field_name old new c clock = (
  elim (Option-cases (newest field_name c.changes)) [
    | inl none_yet ↦ ground (arith, none_yet, str_eq_refl field_name)
    | inr (r, found) ↦
        let earlier : r.observed_at_ns ≤ now =
          newest-All (λ (t : SettingRow). t.observed_at_ns ≤ now) field_name c.changes r clock
            found in
        let smaller : r.change_id < bound =
          newest-All (λ (t : SettingRow). t.change_id < bound) field_name c.changes r
            (below c.changes (next_key_greater (map (λ (t : SettingRow). t.change_id) c.changes)))
            found in
        ground (arith, found, str_eq_refl field_name, earlier, smaller)
  ],
  λ other_field differ. ground (arith, str_eq_ne field_name other_field differ),
)
  where
    bound : ℕ
    bound = next_key (map (λ (t : SettingRow). t.change_id) c.changes)

    below :
        (rs : List SettingRow)
        → All (λ k. k < bound) (map (λ (t : SettingRow). t.change_id) rs)
        → All (λ (t : SettingRow). str_eq t.changed field_name ≡ true → t.change_id < bound) rs
    below [] k = tt
    below (r ∷ rs) k = ((λ named. k.0), below rs k.1)
