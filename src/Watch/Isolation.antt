-- ===== src/Watch/Isolation.antt =====
-- A recheck of one path, and what is remembered of the others.
use ajit_segment_bots.Prelude.{
  String, ◌≢◌, refl, Bool, Option, none, some, Result, ok, raise, arith, eq_iff, if◌then◌else◌,
}
use ajit_segment_bots.Dict
use ajit_segment_bots.Dict.{get-put, get-remove}
use ajit_segment_bots.Settings.{Platform}
use ajit_segment_bots.Settings.Reader.{Refusal, message}
use ajit_segment_bots.Settings.Holder.{
  LastKnownGoodSettings, SettingsRejection, open_settings, offer_candidate,
}
use ajit_segment_bots.Watch.{Watch, Look, Consumer, clear_in_flight}
use ajit_segment_bots.Watch.Compare.{empty_document_sharing_identity_with}
use ajit_segment_bots.Watch.Delivery.{delivered_baseline_for, deliver_diff, report_rejection_if_new}
use ajit_segment_bots.Watch.Recheck.{
  forget, deliver_current, discovered, discover_new_path, offered, present, recheck_present_path,
  settle_removal, vanished, recheck_vanished_path,
}
use ajit_segment_bots.Watch.Frame.{
  Agree, Agree-refl, Agree-trans, resolve-Agree, deliver_diff-Agree, report_rejection_if_new-Agree,
}

module _ (platform : Platform) (consumer : Consumer) (is_periodic : Bool) (look : Look)
    (p q : String) (differ : q ≢ p) where
  deliver_current-Agree :
      (settings : LastKnownGoodSettings) (w : Watch)
      → Agree p w (deliver_current platform consumer is_periodic look q settings w)
  unfolding deliver_current
  deliver_current-Agree settings w =
      deliver_diff-Agree consumer p q differ (delivered_baseline_for q settings.current look.now w)
        settings.current is_periodic look.now w

  rejected-Agree :
      (rejection : SettingsRejection) (w : Watch)
      → Agree p w (
          if is_periodic
          then report_rejection_if_new consumer platform look q rejection w
          else clear_in_flight q (report_rejection_if_new consumer platform look q rejection w))
  rejected-Agree rejection w =
      Agree-trans (report_rejection_if_new-Agree consumer p q differ platform look rejection w) (
        resolve-Agree consumer p q differ is_periodic
          (report_rejection_if_new consumer platform look q rejection w))

  adopt-Agree :
      (settings : LastKnownGoodSettings) (w : Watch)
      → Agree p w (record w { known = Dict.put w.known q settings })
  adopt-Agree settings w = record {
    known = ground (arith, get-put w.known q settings p, eq_iff q p);
    last_delivered = refl;
    pending = refl;
    reported = refl;
  }

  unreport-Agree :
      (w : Watch)
      → Agree p w (record w {
        last_reported_rejection_digest = Dict.remove w.last_reported_rejection_digest q;
      })
  unreport-Agree w = record {
    known = refl;
    last_delivered = refl;
    pending = refl;
    reported = ground (arith, get-remove w.last_reported_rejection_digest q p, eq_iff q p);
  }

  discovered-Agree :
      (opened : Result Refusal LastKnownGoodSettings) (w : Watch)
      → Agree p w (discovered platform consumer is_periodic look q opened w)
  unfolding discovered
  discovered-Agree (raise refusal) w =
      rejected-Agree
        (record { source_path = q; reason = message refusal; rejected_at_ns = look.now }) w
  discovered-Agree (ok settings) w =
      Agree-trans (adopt-Agree settings w)
        (deliver_current-Agree settings (record w { known = Dict.put w.known q settings }))

  offered-Agree :
      (answer : LastKnownGoodSettings × Option SettingsRejection) (w : Watch)
      → Agree p w (offered platform consumer is_periodic look q answer w)
  unfolding offered
  offered-Agree (settings, some rejection) w = rejected-Agree rejection w
  offered-Agree (settings, none) w =
      let w₁ = record w {
        last_reported_rejection_digest = Dict.remove w.last_reported_rejection_digest q;
      } in
      Agree-trans (unreport-Agree w) (
        Agree-trans (adopt-Agree settings w₁)
          (deliver_current-Agree settings (record w₁ { known = Dict.put w.known q settings })))

  present-Agree :
      (known : Option LastKnownGoodSettings) (w : Watch)
      → Agree p w (present platform consumer is_periodic look q known w)
  unfolding present discover_new_path
  present-Agree none w =
      discovered-Agree (open_settings platform q (platform.stem q) (look.read q) look.now) w
  present-Agree (some settings) w =
      offered-Agree (offer_candidate platform settings (look.read q) look.now) w

  -- Rechecking a listed path changes nothing that is remembered of any other path: its document,
  -- what was delivered of it, whether an overflow is owed, and its rejection.
  pub recheck_present_path-Agree :
      (w : Watch) → Agree p w (recheck_present_path platform consumer is_periodic look q w)
  unfolding recheck_present_path
  recheck_present_path-Agree w = present-Agree (Dict.get w.known q) w

  forget-Agree : (w : Watch) → Agree p w (forget q w)
  unfolding forget
  forget-Agree w = record {
    known = ground (arith, get-remove w.known q p, eq_iff q p);
    last_delivered = ground (arith, get-remove w.last_delivered q p, eq_iff q p);
    pending = refl;
    reported = ground (arith, get-remove w.last_reported_rejection_digest q p, eq_iff q p);
  }

  settle_removal-Agree :
      (w : Watch) (delivered : Bool)
      → Agree p w (settle_removal platform consumer is_periodic look q (w, delivered))
  unfolding settle_removal
  settle_removal-Agree w delivered = record {
    known = ground (arith, (forget-Agree w).known);
    last_delivered = ground (arith, (forget-Agree w).last_delivered);
    pending = ground (arith, (forget-Agree w).pending);
    reported = ground (arith, (forget-Agree w).reported);
  }

  vanished-Agree :
      (known : Option LastKnownGoodSettings) (w : Watch)
      → Agree p w (vanished platform consumer is_periodic look q known w)
  unfolding vanished
  vanished-Agree none w = Agree-refl p w
  vanished-Agree (some settings) w =
      let previous = delivered_baseline_for q settings.current look.now w in
      let gone = empty_document_sharing_identity_with previous look.now in
      let r = deliver_diff consumer q previous gone is_periodic look.now w in
      Agree-trans (deliver_diff-Agree consumer p q differ previous gone is_periodic look.now w)
        (settle_removal-Agree r.0 r.1)

  pub recheck_vanished_path-Agree :
      (w : Watch) → Agree p w (recheck_vanished_path platform consumer is_periodic look q w)
  unfolding recheck_vanished_path
  recheck_vanished_path-Agree w = vanished-Agree (Dict.get w.known q) w
