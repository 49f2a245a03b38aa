-- ===== src/Watch/Accepted.antt =====
-- One delivery to a consumer whose callbacks return, and one that has nothing to deliver.
use ajit_segment_bots.Prelude.{
  ℕ, String, ◌≡◌, refl, sym, ◌∙◌, Bool, true, false, List, [], ◌∷◌, arith, str_eq_refl, contains,
  contains-discard_member, inl, inr, Bool-cases, if◌then◌else◌,
}
use ajit_segment_bots.Dict
use ajit_segment_bots.Dict.{Dict, get-put_self, get-put, get}
use ajit_segment_bots.Settings.Reader.{SettingsDocument}
use ajit_segment_bots.Watch.{
  Watch, Consumer, SettingsChange, on_change, on_overflow, clear_in_flight,
}
use ajit_segment_bots.Watch.Compare.{shown, compare_settings_documents}
use ajit_segment_bots.Watch.Delivery.{
  delivered_baseline_for, is_nonempty, overflow_owed, announce_changes, announce_overflow,
  deliver_diff,
}
use ajit_segment_bots.Watch.Diff.{compare-nil_iff}
use ajit_segment_bots.Watch.Settled.{Accepts, told, baseline-told, deliver_diff-last_delivered}

module _ (consumer : Consumer) (path : String) where
  quiet_overflow :
      (w : Watch) (is_periodic : Bool)
      → contains w.pending_overflow path ≡ false
      → announce_overflow consumer path (overflow_owed path is_periodic [] w) w ≡ w
  unfolding announce_overflow overflow_owed
  quiet_overflow w is_periodic h = ground arith

  -- With nothing to deliver and nothing owed, no callback is called and nothing is forgotten.
  pub deliver_diff-quiet :
      (previous candidate : SettingsDocument) (is_periodic : Bool) (now : ℕ) (w : Watch)
      → ((name : String) → shown previous name ≡ shown candidate name)
      → contains w.pending_overflow path ≡ false
      → deliver_diff consumer path previous candidate is_periodic now w
        ≡ (if is_periodic then w else clear_in_flight path w, true)
  unfolding deliver_diff announce_changes
  deliver_diff-quiet previous candidate is_periodic now w same idle =
      rw ((compare-nil_iff previous candidate now).1 same)
        (ground (arith, quiet_overflow w is_periodic idle))

  module _ (accepts : Accepts consumer) where
    announce_changes-accepted :
        (candidate : SettingsDocument) (changes : List SettingsChange) (w : Watch)
        → (announce_changes consumer path candidate changes w).1 ≡ true
    unfolding announce_changes
    announce_changes-accepted candidate [] w = refl
    announce_changes-accepted candidate (c ∷ cs) w = accepts w.log (on_change (c ∷ cs))

    announce_overflow-accepted :
        (is_periodic : Bool) (changes : List SettingsChange) (w : Watch)
        → contains
            (announce_overflow consumer path
              (overflow_owed path is_periodic changes w)
              w).pending_overflow
            path
          ≡ false
    unfolding announce_overflow overflow_owed
    announce_overflow-accepted is_periodic changes w = ground (
      arith,
      accepts w.log on_overflow,
      contains-discard_member w.pending_overflow path path,
      str_eq_refl path,
    )

    module _ (previous candidate : SettingsDocument) (is_periodic : Bool) (now : ℕ)
        (w : Watch) where
      pub deliver_diff-accepted :
          (deliver_diff consumer path previous candidate is_periodic now w).1 ≡ true
      unfolding deliver_diff
      deliver_diff-accepted =
          announce_changes-accepted candidate (compare_settings_documents previous candidate now) w

      pub deliver_diff-not_pending :
          contains
            (deliver_diff consumer path previous candidate is_periodic now w).0.pending_overflow
            path
          ≡ false
      unfolding deliver_diff clear_in_flight
      deliver_diff-not_pending =
          let changes = compare_settings_documents previous candidate now in
          let w₁ = (announce_changes consumer path candidate changes w).0 in
          ground (arith, announce_overflow-accepted is_periodic changes w₁)

    nonempty_cases : (changes : List SettingsChange) → is_nonempty changes ≡ false → changes ≡ []
    nonempty_cases [] h = refl
    nonempty_cases (c ∷ cs) h = cc

    -- If no callback raises, then after a delivery that is measured against the path's baseline the
    -- consumer was told of each field exactly what the candidate shows.
    pub deliver_diff-told :
        (current candidate : SettingsDocument) (is_periodic : Bool) (now : ℕ) (w : Watch)
        → (name : String)
        → told
            (Dict.get
              (deliver_diff consumer path
                (delivered_baseline_for path current now w)
                candidate
                is_periodic
                now
                w).0.last_delivered
              path)
            name
          ≡ shown candidate name
    deliver_diff-told current candidate is_periodic now w name =
        let previous = delivered_baseline_for path current now w in
        let changes = compare_settings_documents previous candidate now in
        rw (deliver_diff-last_delivered consumer path previous candidate is_periodic now w) (
          rw (deliver_diff-accepted previous candidate is_periodic now w)
            (elim (Bool-cases (is_nonempty changes)) [
              | inl e ↦ rw e (rw (get-put_self w.last_delivered path candidate) refl)
              | inr e ↦ rw e (
                  sym (baseline-told path current now w name)
                  ∙ (compare-nil_iff previous candidate now).0 (nonempty_cases changes e) name)
            ]))
