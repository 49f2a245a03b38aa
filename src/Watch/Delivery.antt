-- ===== src/Watch/Delivery.antt =====
-- `_deliver_diff` and `_report_rejection_if_new`: what is handed to the callbacks, and what is
-- remembered of it.
use ajit_segment_bots.Prelude.{
  ℕ, String, Bool, true, false, not, ◌&&◌, ◌||◌, Option, none, some, List, [], ◌∷◌, contains,
  Result, ok, raise, add_member, discard_member, str_eq, if◌then◌else◌,
}
use ajit_segment_bots.Dict
use ajit_segment_bots.Settings.{Platform}
use ajit_segment_bots.Settings.Reader.{SettingsDocument}
use ajit_segment_bots.Settings.Holder.{SettingsRejection}
use ajit_segment_bots.Watch.{
  Watch, Look, Consumer, SettingsChange, on_change, on_rejection, on_overflow, safely_call,
  is_in_flight, clear_in_flight,
}
use ajit_segment_bots.Watch.Compare.{
  compare_settings_documents, empty_document_sharing_identity_with,
}

or_empty : Option SettingsDocument → SettingsDocument → ℕ → SettingsDocument
or_empty (some delivered) current now = delivered
or_empty none current now = empty_document_sharing_identity_with current now

unfoldable pub delivered_baseline_for : String → SettingsDocument → ℕ → Watch → SettingsDocument
unfolding or_empty
delivered_baseline_for path current now w = or_empty (Dict.get w.last_delivered path) current now

abbrev pub is_nonempty {ℓ} : {A : Type ℓ} → List A → Bool
is_nonempty [] = false
is_nonempty (x ∷ xs) = true

-- `self._last_delivered[path] = candidate`, once the callback has returned.
unfoldable pub remember : String → SettingsDocument → Watch × Bool → Watch × Bool
remember path candidate (w, good) = (
  if good then record w { last_delivered = Dict.put w.last_delivered path candidate } else w,
  good,
)

unfoldable pub settle_overflow : String → Watch × Bool → Watch
settle_overflow path (w, good) = record w {
  pending_overflow =
      if good then discard_member w.pending_overflow path else add_member w.pending_overflow path;
}

unfoldable pub overflow_owed : String → Bool → List SettingsChange → Watch → Bool
unfolding is_in_flight
overflow_owed path is_periodic changes w =
    (is_periodic && is_nonempty changes && not (is_in_flight path w))
    || contains w.pending_overflow path

module _ (consumer : Consumer) where
  unfoldable pub announce_changes :
      String → SettingsDocument → List SettingsChange → Watch → Watch × Bool
  unfolding safely_call remember
  announce_changes path candidate [] w = (w, true)
  announce_changes path candidate (c ∷ cs) w =
      remember path candidate (safely_call consumer (on_change (c ∷ cs)) w)

  unfoldable pub announce_overflow : String → Bool → Watch → Watch
  unfolding safely_call settle_overflow
  announce_overflow path owed w =
      if owed then settle_overflow path (safely_call consumer on_overflow w) else w

  unfoldable pub deliver_diff :
      String → SettingsDocument → SettingsDocument → Bool → ℕ → Watch → Watch × Bool
  deliver_diff path previous candidate is_periodic now w =
      let changes = compare_settings_documents previous candidate now in
      let (w₁, change_delivered) = announce_changes path candidate changes w in
      let w₂ = announce_overflow path (overflow_owed path is_periodic changes w₁) w₁ in
      (if is_periodic then w₂ else clear_in_flight path w₂, change_delivered)

  module _ (platform : Platform) (look : Look) where
    digest_or_reason : Result String (List ℕ) → SettingsRejection → String
    digest_or_reason (ok body) rejection = platform.sha256 body
    digest_or_reason (raise _) rejection = rejection.reason

    unfoldable pub digest_for_rejection_dedup : String → SettingsRejection → String
    unfolding digest_or_reason
    digest_for_rejection_dedup path rejection = digest_or_reason (look.reread path) rejection

    already_reported : Option String → String → Bool
    already_reported none digest = false
    already_reported (some d) digest = str_eq d digest

    record_report : String → String → Watch × Bool → Watch
    record_report path digest (w, good) =
        if good
        then record w {
          last_reported_rejection_digest = Dict.put w.last_reported_rejection_digest path digest;
        }
        else w

    unfoldable pub report_rejection_if_new : String → SettingsRejection → Watch → Watch
    unfolding already_reported record_report safely_call digest_for_rejection_dedup
    report_rejection_if_new path rejection w =
        let digest = digest_for_rejection_dedup path rejection in
        if already_reported (Dict.get w.last_reported_rejection_digest path) digest
        then w
        else record_report path digest (safely_call consumer (on_rejection rejection) w)
