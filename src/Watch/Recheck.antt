-- ===== src/Watch/Recheck.antt =====
-- `_recheck` and the three ways in which it treats a path, the constructor's catalog, and the
-- handler of file system events.
use ajit_segment_bots.Prelude.{
  String, Bool, not, ◌&&◌, Option, none, some, List, [], ◌∷◌, ◌++◌, contains, keep_if, Result, ok,
  raise, sorted_set, if◌then◌else◌,
}
use ajit_segment_bots.Dict
use ajit_segment_bots.Settings.{Platform}
use ajit_segment_bots.Settings.Reader.{Refusal, message}
use ajit_segment_bots.Settings.Holder.{
  LastKnownGoodSettings, SettingsRejection, open_settings, offer_candidate,
}
use ajit_segment_bots.Watch.{Watch, Look, Consumer, clear_in_flight, clear_in_flight_not_among}
use ajit_segment_bots.Watch.Compare.{empty_document_sharing_identity_with}
use ajit_segment_bots.Watch.Delivery.{delivered_baseline_for, deliver_diff, report_rejection_if_new}

unfoldable pub forget : String → Watch → Watch
forget path w = record w {
  known = Dict.remove w.known path;
  last_delivered = Dict.remove w.last_delivered path;
  last_reported_rejection_digest = Dict.remove w.last_reported_rejection_digest path;
}

module _ (platform : Platform) (consumer : Consumer) (is_periodic : Bool) (look : Look) where
  abbrev pub resolve : String → Watch → Watch
  resolve path w = if is_periodic then w else clear_in_flight path w

  -- The body of `_recheck_present_path` and of `_discover_new_path` where the document is there.
  unfoldable pub deliver_current : String → LastKnownGoodSettings → Watch → Watch
  deliver_current path settings w =
      (deliver_diff consumer path (delivered_baseline_for path settings.current look.now w)
        settings.current is_periodic look.now w).0

  unfoldable pub discovered : String → Result Refusal LastKnownGoodSettings → Watch → Watch
  discovered path (raise refusal) w = resolve path (
      report_rejection_if_new consumer platform look path
        (record { source_path = path; reason = message refusal; rejected_at_ns = look.now }) w)
  discovered path (ok settings) w =
      deliver_current path settings (record w { known = Dict.put w.known path settings })

  unfoldable pub discover_new_path : String → Watch → Watch
  discover_new_path path w =
      discovered path (open_settings platform path (platform.stem path) (look.read path) look.now) w

  unfoldable pub offered : String → LastKnownGoodSettings × Option SettingsRejection → Watch → Watch
  offered path (settings, some rejection) w =
      resolve path (report_rejection_if_new consumer platform look path rejection w)
  offered path (settings, none) w = deliver_current path settings (record w {
    known = Dict.put w.known path settings;
    last_reported_rejection_digest = Dict.remove w.last_reported_rejection_digest path;
  })

  unfoldable pub present : String → Option LastKnownGoodSettings → Watch → Watch
  present path none w = discover_new_path path w
  present path (some settings) w =
      offered path (offer_candidate platform settings (look.read path) look.now) w

  unfoldable pub recheck_present_path : String → Watch → Watch
  recheck_present_path path w = present path (Dict.get w.known path) w

  -- What follows the delivery of a removal: the path is forgotten once nothing is owed for it.
  unfoldable pub settle_removal : String → Watch × Bool → Watch
  settle_removal path (w, change_delivered) =
      if change_delivered && not (contains w.pending_overflow path) then forget path w else w

  unfoldable pub vanished : String → Option LastKnownGoodSettings → Watch → Watch
  vanished path none w = w
  vanished path (some settings) w =
      let previous = delivered_baseline_for path settings.current look.now w in
      settle_removal path (
        deliver_diff consumer path previous (empty_document_sharing_identity_with previous look.now)
          is_periodic look.now w)

  -- It is called only on paths that `known` has.
  unfoldable pub recheck_vanished_path : String → Watch → Watch
  recheck_vanished_path path w = vanished path (Dict.get w.known path) w

  unfoldable pub recheck_present_paths : List String → Watch → Watch
  recheck_present_paths [] w = w
  recheck_present_paths (path ∷ paths) w = recheck_present_paths paths (recheck_present_path path w)

  unfoldable pub recheck_vanished_paths : List String → Watch → Watch
  recheck_vanished_paths [] w = w
  recheck_vanished_paths (path ∷ paths) w =
      recheck_vanished_paths paths (recheck_vanished_path path w)

  unfoldable pub recheck : Watch → Watch
  recheck w =
      let w₁ = recheck_present_paths (sorted_set look.listed) w in
      let known_paths = Dict.keys w₁.known in
      let gone = keep_if (λ path. not (contains look.listed path)) known_paths in
      let w₂ = recheck_vanished_paths (sorted_set gone) w₁ in
      if is_periodic then w₂ else clear_in_flight_not_among (look.listed ++ known_paths) w₂
