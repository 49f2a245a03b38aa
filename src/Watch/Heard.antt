-- ===== src/Watch/Heard.antt =====
-- What the consumer hears of a path: the calls of `on_change` that returned, as the log has them,
-- against what is remembered as delivered.
use ajit_segment_bots.Prelude.{
  ℕ, String, ◌≡◌, refl, sym, ap, ◌∙◌, arith, Bool, true, false, ◌⊎◌, inl, inr, Option, none, some,
  List, [], ◌∷◌, ◌++◌, Result, ok, raise, if◌then◌else◌,
}
use ajit_segment_bots.Dict
use ajit_segment_bots.Dict.{get-put_self, Dict, get, put, remove, keys}
use ajit_segment_bots.Settings.{Platform}
use ajit_segment_bots.Settings.Reader.{SettingsDocument, Refusal}
use ajit_segment_bots.Settings.Holder.{
  LastKnownGoodSettings, SettingsRejection, open_settings, offer_candidate,
}
use ajit_segment_bots.Watch.{
  Watch, Look, Log, Consumer, SettingsChange, on_change, on_rejection, on_overflow, clear_in_flight,
}
use ajit_segment_bots.Watch.Compare.{
  shown, compare_settings_documents, empty_document_sharing_identity_with,
}
use ajit_segment_bots.Watch.Diff.{patched, compare-patched}
use ajit_segment_bots.Watch.Delivery.{
  remember, overflow_owed, announce_changes, announce_overflow, deliver_diff,
  delivered_baseline_for, report_rejection_if_new,
}
use ajit_segment_bots.Watch.Recheck.{
  deliver_current, discovered, discover_new_path, offered, present, recheck_present_path, vanished,
  settle_removal, recheck_vanished_path, forget,
}
use ajit_segment_bots.Watch.Retold.{told_of, Heard, Heard-trans, Heard-skip}
use ajit_segment_bots.Watch.Settled.{told, baseline-told}

module _ (p : String) where
  remember-Heard :
      (previous candidate : SettingsDocument) (now : ℕ) (w : Watch) (good : Bool)
      (changes : List SettingsChange)
      → ((name : String) → shown previous name ≡ told_of p w name)
      → compare_settings_documents previous candidate now ≡ changes
      → Heard p w
          (remember p candidate (record w { log = (on_change changes, good) ∷ w.log }, good)).0
  unfolding remember
  remember-Heard previous candidate now w true changes same made = (
    (on_change changes, true) ∷ [],
    refl,
    inr (
      told_of p w,
      (λ name. refl),
      λ name.
          ap (λ old. patched changes name old) (sym (same name))
          ∙ ap (λ cs. patched cs name (shown previous name)) (sym made)
          ∙ (compare-patched previous candidate now name).0
          ∙ ap (λ o. told o name) (sym (get-put_self w.last_delivered p candidate)),
    ),
  )
  remember-Heard previous candidate now w false changes same made =
      ((on_change changes, false) ∷ [], refl, λ name. refl)

  module _ (consumer : Consumer) where
    announce_changes-Heard :
        (previous candidate : SettingsDocument) (now : ℕ) (w : Watch)
        (changes : List SettingsChange)
        → ((name : String) → shown previous name ≡ told_of p w name)
        → compare_settings_documents previous candidate now ≡ changes
        → Heard p w (announce_changes consumer p candidate changes w).0
    unfolding announce_changes
    announce_changes-Heard previous candidate now w [] same made = ([], refl, λ name. refl)
    announce_changes-Heard previous candidate now w (c ∷ cs) same made =
        remember-Heard previous candidate now w (consumer w.log (on_change (c ∷ cs))) (c ∷ cs) same
          made

    announce_overflow-Heard :
        (owed : Bool) (w : Watch) → Heard p w (announce_overflow consumer p owed w)
    unfolding announce_overflow
    announce_overflow-Heard true w =
        ((on_overflow, consumer w.log on_overflow) ∷ [], refl, λ name. refl)
    announce_overflow-Heard false w = ([], refl, λ name. refl)

    clear_if-Heard :
        (is_periodic : Bool) (w : Watch)
        → Heard p w (if is_periodic then w else clear_in_flight p w)
    unfolding clear_in_flight
    clear_if-Heard true w = ([], refl, λ name. refl)
    clear_if-Heard false w = ([], refl, λ name. refl)

    pub deliver_diff-Heard :
        (previous candidate : SettingsDocument) (is_periodic : Bool) (now : ℕ) (w : Watch)
        → ((name : String) → shown previous name ≡ told_of p w name)
        → Heard p w (deliver_diff consumer p previous candidate is_periodic now w).0
    unfolding deliver_diff
    deliver_diff-Heard previous candidate is_periodic now w same =
        let changes = compare_settings_documents previous candidate now in
        let w₁ = (announce_changes consumer p candidate changes w).0 in
        let w₂ = announce_overflow consumer p (overflow_owed p is_periodic changes w₁) w₁ in
        Heard-trans p w w₂ (if is_periodic then w₂ else clear_in_flight p w₂)
          (Heard-trans p w w₁ w₂ (announce_changes-Heard previous candidate now w changes same refl)
            (announce_overflow-Heard (overflow_owed p is_periodic changes w₁) w₁))
          (clear_if-Heard is_periodic w₂)

    module _ (platform : Platform) (is_periodic : Bool) (look : Look) where
      report-log :
          (rejection : SettingsRejection) (w : Watch)
          → ((report_rejection_if_new consumer platform look p rejection w).last_delivered
              ≡ w.last_delivered)
            × (((report_rejection_if_new consumer platform look p rejection w).log ≡ w.log)
                ⊎ ((report_rejection_if_new consumer platform look p rejection w).log
                    ≡ (on_rejection rejection, consumer w.log (on_rejection rejection)) ∷ w.log))
      unfolding report_rejection_if_new
      report-log rejection w = (ground arith, ground arith)

      rejected-Heard :
          (rejection : SettingsRejection) (w : Watch)
          → Heard p w (
              if is_periodic
              then report_rejection_if_new consumer platform look p rejection w
              else clear_in_flight p (report_rejection_if_new consumer platform look p rejection w))
      rejected-Heard rejection w =
          let v = report_rejection_if_new consumer platform look p rejection w in
          let (kept, grown) = report-log rejection w in
          let same : Dict.get v.last_delivered p ≡ Dict.get w.last_delivered p =
            ap (λ d. Dict.get d p) kept in
          Heard-trans p w v (if is_periodic then v else clear_in_flight p v)
            (elim grown [
              | inl silent ↦ Heard-skip p w v [] silent same
              | inr called ↦
                  Heard-skip p w v
                    ((on_rejection rejection, consumer w.log (on_rejection rejection)) ∷ []) called
                    same
            ])
            (clear_if-Heard is_periodic v)

      deliver_current-Heard :
          (settings : LastKnownGoodSettings) (w : Watch)
          → Heard p w (deliver_current platform consumer is_periodic look p settings w)
      unfolding deliver_current
      deliver_current-Heard settings w =
          deliver_diff-Heard (delivered_baseline_for p settings.current look.now w) settings.current
            is_periodic look.now w (baseline-told p settings.current look.now w)

      discovered-Heard :
          (r : Result Refusal LastKnownGoodSettings) (w : Watch)
          → Heard p w (discovered platform consumer is_periodic look p r w)
      unfolding discovered
      discovered-Heard (raise refusal) w = rejected-Heard _ w
      discovered-Heard (ok settings) w =
          deliver_current-Heard settings (record w { known = Dict.put w.known p settings })

      offered-Heard :
          (answer : LastKnownGoodSettings × Option SettingsRejection) (w : Watch)
          → Heard p w (offered platform consumer is_periodic look p answer w)
      unfolding offered
      offered-Heard (settings, some rejection) w = rejected-Heard rejection w
      offered-Heard (settings, none) w = deliver_current-Heard settings (record w {
        known = Dict.put w.known p settings;
        last_reported_rejection_digest = Dict.remove w.last_reported_rejection_digest p;
      })

      present-Heard :
          (held : Option LastKnownGoodSettings) (w : Watch)
          → Heard p w (present platform consumer is_periodic look p held w)
      unfolding present discover_new_path
      present-Heard none w =
          discovered-Heard (open_settings platform p (platform.stem p) (look.read p) look.now) w
      present-Heard (some settings) w =
          offered-Heard (offer_candidate platform settings (look.read p) look.now) w

      pub recheck_present_path-Heard :
          (w : Watch) → Heard p w (recheck_present_path platform consumer is_periodic look p w)
      unfolding recheck_present_path
      recheck_present_path-Heard w = present-Heard (Dict.get w.known p) w

      -- A removal only adds to the log.
      settle_removal-log :
          (w : Watch) (delivered : Bool)
          → (settle_removal platform consumer is_periodic look p (w, delivered)).log ≡ w.log
      unfolding settle_removal forget
      settle_removal-log w delivered = ground arith

      vanished-log :
          (held : Option LastKnownGoodSettings) (w : Watch)
          → (calls : Log) × ((vanished platform consumer is_periodic look p held w).log
              ≡ calls ++ w.log)
      unfolding vanished
      vanished-log none w = ([], refl)
      vanished-log (some settings) w =
          let previous = delivered_baseline_for p settings.current look.now w in
          let candidate = empty_document_sharing_identity_with previous look.now in
          let after = deliver_diff consumer p previous candidate is_periodic look.now w in
          let (calls, grown, heard) =
            deliver_diff-Heard previous candidate is_periodic look.now w
              (baseline-told p settings.current look.now w) in
          (calls, settle_removal-log after.0 after.1 ∙ grown)

      pub recheck_vanished_path-log :
          (w : Watch)
          → (calls : Log) × ((recheck_vanished_path platform consumer is_periodic look p w).log
              ≡ calls ++ w.log)
      unfolding recheck_vanished_path
      recheck_vanished_path-log w = vanished-log (Dict.get w.known p) w
