-- ===== src/Watch/Steps.antt =====
-- The steps of a recheck: a rejection that is reported, and a document that is delivered.
use ajit_segment_bots.Watch.Accepted.{
  deliver_diff-not_pending, deliver_diff-quiet, deliver_diff-told,
}
use ajit_segment_bots.Prelude.{
  Option-cases, contains, str_eq_refl, inl, inr, String, ◌≡◌, refl, ap, ◌∙◌, Bool, false, Option,
  none, some, eq_iff, raise, if◌then◌else◌, arith,
}
use ajit_segment_bots.Dict
use ajit_segment_bots.Dict.{get-put_self, get-put, get-remove, Dict, get, put, remove}
use ajit_segment_bots.Settings.{Platform}
use ajit_segment_bots.Settings.Reader.{Refusal, message, load_settings_document}
use ajit_segment_bots.Settings.Holder.{LastKnownGoodSettings, SettingsRejection}
use ajit_segment_bots.Settings.Laws.{offer_refused}
use ajit_segment_bots.Watch.{Watch, Look, Consumer, clear_in_flight, on_rejection}
use ajit_segment_bots.Watch.Compare.{shown}
use ajit_segment_bots.Watch.Delivery.{
  digest_for_rejection_dedup, report_rejection_if_new, delivered_baseline_for,
}
use ajit_segment_bots.Watch.Recheck.{
  deliver_current, discovered, discover_new_path, offered, present,
}
use ajit_segment_bots.Watch.Settled.{Accepts, told, baseline-told}
use ajit_segment_bots.Watch.Held.{IsHeld, open_refused}

module _ (platform : Platform) (consumer : Consumer) (look : Look) (p : String) where
  module _ (is_periodic : Bool) where
    -- A reported rejection is remembered by its key.
    pub report-reported :
        Accepts consumer
        → (rejection : SettingsRejection) (w : Watch)
        → Dict.get
            (report_rejection_if_new consumer platform look p rejection
              w).last_reported_rejection_digest
            p
          ≡ some (digest_for_rejection_dedup consumer platform look p rejection)
    unfolding report_rejection_if_new
    report-reported accepts rejection w =
        let key = digest_for_rejection_dedup consumer platform look p rejection in
        elim (Option-cases (Dict.get w.last_reported_rejection_digest p)) [
          | inl fresh ↦ ground (
            arith,
            accepts w.log (on_rejection rejection),
            get-put_self w.last_reported_rejection_digest p key,
          )
          | inr (old, e) ↦ ground (
            arith,
            accepts w.log (on_rejection rejection),
            eq_iff old key,
            get-put_self w.last_reported_rejection_digest p key,
          )
        ]

    -- The same rejection again makes no call.
    pub report-quiet :
        (rejection : SettingsRejection) (w : Watch)
        → Dict.get w.last_reported_rejection_digest p
          ≡ some (digest_for_rejection_dedup consumer platform look p rejection)
        → report_rejection_if_new consumer platform look p rejection w ≡ w
    unfolding report_rejection_if_new
    report-quiet rejection w h =
        rw h (rw (str_eq_refl (digest_for_rejection_dedup consumer platform look p rejection)))

    pub key_of_reason :
        (a b : SettingsRejection)
        → a.reason ≡ b.reason
        → digest_for_rejection_dedup consumer platform look p a
          ≡ digest_for_rejection_dedup consumer platform look p b
    unfolding digest_for_rejection_dedup
    key_of_reason a b h = ground arith

    pub refused-as :
        (held : Option LastKnownGoodSettings) (f : Refusal) (w : Watch)
        → load_settings_document platform p (platform.stem p) (look.read p) look.now ≡ raise f
        → ((s : LastKnownGoodSettings) → held ≡ some s → IsHeld platform p s)
        → (rejection : SettingsRejection) × (rejection.reason ≡ message f)
          × (present platform consumer is_periodic look p held w ≡ (
              if is_periodic
              then report_rejection_if_new consumer platform look p rejection w
              else clear_in_flight p
                  (report_rejection_if_new consumer platform look p rejection w)))
    unfolding present discover_new_path discovered offered
    refused-as none f w h all = (
      record { source_path = p; reason = message f; rejected_at_ns = look.now },
      refl,
      rw (open_refused platform p (look.read p) look.now {f = f} h),
    )
    refused-as (some s) f w h all =
        let i = all s refl in
        (
          record { source_path = s.path; reason = message f; rejected_at_ns = look.now },
          refl,
          rw (offer_refused platform s (look.read p) look.now {f = f} (rw (i.path, i.scope) h)),
        )

    pub resolve-reported :
        (w : Watch)
        → (if is_periodic then w else clear_in_flight p w).last_reported_rejection_digest
          ≡ w.last_reported_rejection_digest
    unfolding clear_in_flight
    resolve-reported w = ground arith

    pub resolve-log : (w : Watch) → (if is_periodic then w else clear_in_flight p w).log ≡ w.log
    unfolding clear_in_flight
    resolve-log w = ground arith

    pub deliver_current-told :
        Accepts consumer
        → (s : LastKnownGoodSettings) (w : Watch) (name : String)
        → told
            (Dict.get (deliver_current platform consumer is_periodic look p s w).last_delivered p)
            name
          ≡ shown s.current name
    unfolding deliver_current
    deliver_current-told accepts s w name =
        deliver_diff-told consumer p accepts s.current s.current is_periodic look.now w name

    pub deliver_current-idle :
        Accepts consumer
        → (s : LastKnownGoodSettings) (w : Watch)
        → contains (deliver_current platform consumer is_periodic look p s w).pending_overflow p
          ≡ false
    unfolding deliver_current
    deliver_current-idle accepts s w =
        deliver_diff-not_pending consumer p accepts (delivered_baseline_for p s.current look.now w)
          s.current is_periodic look.now w

    pub deliver_current-quiet :
        (s : LastKnownGoodSettings) (w : Watch)
        → ((name : String) → told (Dict.get w.last_delivered p) name ≡ shown s.current name)
        → contains w.pending_overflow p ≡ false
        → (deliver_current platform consumer is_periodic look p s w).log ≡ w.log
    unfolding deliver_current
    deliver_current-quiet s w same idle =
        ap (λ (r : Watch × Bool). r.0.log)
          (deliver_diff-quiet consumer p (delivered_baseline_for p s.current look.now w) s.current
            is_periodic look.now w (λ name. baseline-told p s.current look.now w name ∙ same name)
            idle)
        ∙ resolve-log w
