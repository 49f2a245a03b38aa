-- ===== src/Watch/Settled.antt =====
-- What one delivery achieves when the callbacks return, and what it does when nothing is owed.
use ajit_segment_bots.Prelude.{
  ℕ, String, ◌≡◌, refl, Bool, true, false, ◌&&◌, Option, none, some, List, [], ◌∷◌, arith,
  if◌then◌else◌,
}
use ajit_segment_bots.Dict
use ajit_segment_bots.Dict.{Dict, get-put_self, get-put}
use ajit_segment_bots.Settings.Reader.{SettingsDocument}
use ajit_segment_bots.Watch.{Watch, Log, Call, Consumer, SettingsChange, clear_in_flight}
use ajit_segment_bots.Watch.Compare.{
  shown, compare_settings_documents, empty_document_sharing_identity_with,
}
use ajit_segment_bots.Watch.Delivery.{
  delivered_baseline_for, is_nonempty, overflow_owed, announce_changes, announce_overflow,
  deliver_diff,
}

-- No callback raises.
abbrev pub Accepts : Consumer → Type 0
Accepts consumer = (l : Log) (c : Call) → consumer l c ≡ true

-- What the watch remembers as told of a path: nothing before the first delivery.
abbrev pub told : Option SettingsDocument → String → String
told none name = ""
told (some d) name = shown d name

pub baseline-told :
    (path : String) (current : SettingsDocument) (now : ℕ) (w : Watch) (name : String)
    → shown (delivered_baseline_for path current now w) name
      ≡ told (Dict.get w.last_delivered path) name
unfolding delivered_baseline_for empty_document_sharing_identity_with shown Dict.get
baseline-told path current now w name = ground arith

module _ (consumer : Consumer) (path : String) where
  -- A call of `on_change` that returns moves the baseline to the candidate; one that raises leaves
  -- it where it was.
  pub announce_changes-last_delivered :
      (candidate : SettingsDocument) (changes : List SettingsChange) (w : Watch)
      → (announce_changes consumer path candidate changes w).0.last_delivered ≡ (
          if is_nonempty changes && (announce_changes consumer path candidate changes w).1
          then Dict.put w.last_delivered path candidate
          else w.last_delivered)
  unfolding announce_changes
  announce_changes-last_delivered candidate [] w = refl
  announce_changes-last_delivered candidate (c ∷ cs) w = ground arith

  announce_overflow-parts :
      (owed : Bool) (w : Watch)
      → ((announce_overflow consumer path owed w).last_delivered ≡ w.last_delivered)
        × ((announce_overflow consumer path owed w).known ≡ w.known)
        × ((announce_overflow consumer path owed w).last_reported_rejection_digest
            ≡ w.last_reported_rejection_digest)
  unfolding announce_overflow
  announce_overflow-parts true w = (refl, refl, refl)
  announce_overflow-parts false w = (refl, refl, refl)

  announce_changes-parts :
      (candidate : SettingsDocument) (changes : List SettingsChange) (w : Watch)
      → ((announce_changes consumer path candidate changes w).0.known ≡ w.known)
        × ((announce_changes consumer path candidate changes w).0.last_reported_rejection_digest
            ≡ w.last_reported_rejection_digest)
        × ((announce_changes consumer path candidate changes w).0.pending_overflow
            ≡ w.pending_overflow)
        × ((announce_changes consumer path candidate changes w).0.in_flight ≡ w.in_flight)
  unfolding announce_changes
  announce_changes-parts candidate [] w = (refl, refl, refl, refl)
  announce_changes-parts candidate (c ∷ cs) w =
      (ground arith, ground arith, ground arith, ground arith)

  module _ (previous candidate : SettingsDocument) (is_periodic : Bool) (now : ℕ) (w : Watch) where
    pub deliver_diff-known :
        (deliver_diff consumer path previous candidate is_periodic now w).0.known ≡ w.known
    unfolding deliver_diff clear_in_flight
    deliver_diff-known =
        let changes = compare_settings_documents previous candidate now in
        let w₁ = (announce_changes consumer path candidate changes w).0 in
        ground (
          arith,
          announce_overflow-parts (overflow_owed path is_periodic changes w₁) w₁,
          announce_changes-parts candidate changes w,
        )

    pub deliver_diff-reported :
        (deliver_diff consumer path previous candidate is_periodic now
          w).0.last_reported_rejection_digest
        ≡ w.last_reported_rejection_digest
    unfolding deliver_diff clear_in_flight
    deliver_diff-reported =
        let changes = compare_settings_documents previous candidate now in
        let w₁ = (announce_changes consumer path candidate changes w).0 in
        ground (
          arith,
          announce_overflow-parts (overflow_owed path is_periodic changes w₁) w₁,
          announce_changes-parts candidate changes w,
        )

    -- What was last delivered of a path becomes the candidate exactly if there is a change and the
    -- callback for it returned, and else what was last delivered is as it was.
    pub deliver_diff-last_delivered :
        (deliver_diff consumer path previous candidate is_periodic now w).0.last_delivered ≡ (
          if is_nonempty (compare_settings_documents previous candidate now)
            && (deliver_diff consumer path previous candidate is_periodic now w).1
          then Dict.put w.last_delivered path candidate
          else w.last_delivered)
    unfolding deliver_diff clear_in_flight
    deliver_diff-last_delivered =
        let changes = compare_settings_documents previous candidate now in
        let w₁ = (announce_changes consumer path candidate changes w).0 in
        ground (
          arith,
          announce_overflow-parts (overflow_owed path is_periodic changes w₁) w₁,
          announce_changes-last_delivered candidate changes w,
        )
