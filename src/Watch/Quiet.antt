-- ===== src/Watch/Quiet.antt =====
-- A listed path after its recheck by a consumer whose callbacks return, and after the same look
-- again.
use ajit_segment_bots.Watch.Steps.{
  deliver_current-idle, deliver_current-quiet, deliver_current-told, key_of_reason, refused-as,
  report-quiet, report-reported, resolve-log, resolve-reported,
}
use ajit_segment_bots.Prelude.{
  contains, inl, inr, String, ◌≡◌, refl, sym, ap, ◌∙◌, Bool, false, Option, none, some, eq_iff,
  str_eq, Result, ok, raise, Bool-cases, if◌then◌else◌, arith,
}
use ajit_segment_bots.Dict
use ajit_segment_bots.Dict.{get-put_self, get-put, get-remove, Dict, get, put, remove}
use ajit_segment_bots.Settings.{Platform}
use ajit_segment_bots.Settings.Reader.{SettingsDocument, Refusal, message, load_settings_document}
use ajit_segment_bots.Settings.Holder.{LastKnownGoodSettings}
use ajit_segment_bots.Settings.Laws.{Distinguishes, offer_taken, entries_of_digest}
use ajit_segment_bots.Watch.{Watch, Look, Consumer}
use ajit_segment_bots.Watch.Compare.{shown}
use ajit_segment_bots.Watch.Delivery.{digest_for_rejection_dedup, report_rejection_if_new}
use ajit_segment_bots.Watch.Recheck.{
  deliver_current, discovered, discover_new_path, offered, present, recheck_present_path,
}
use ajit_segment_bots.Watch.Settled.{Accepts, told}
use ajit_segment_bots.Watch.Held.{
  IsHeld, unsome, held_after, open_taken, AllHeld, recheck_present_path-known,
}

pub unok :
    {a b : SettingsDocument} → ◌≡◌ {A = Result Refusal SettingsDocument} (ok a) (ok b) → a ≡ b
unok e = cc

module _ (platform : Platform) (apart : Distinguishes platform) (consumer : Consumer) (look : Look)
    (p : String) where
  abbrev pub load : Result Refusal SettingsDocument
  load = load_settings_document platform p (platform.stem p) (look.read p) look.now

  -- The key under which the rejection of the path is remembered.
  abbrev pub rejection_key : Refusal → String
  rejection_key f =
      digest_for_rejection_dedup consumer platform look p
        (record { source_path = p; reason = message f; rejected_at_ns = look.now })

  -- Nothing is left to tell about the path.
  pub record Settled (w : Watch) : Type 0 where
    pub read_as : Result Refusal SettingsDocument
    pub loads : load ≡ read_as
    pub document :
        (d : SettingsDocument)
        → read_as ≡ ok d
        → (s : LastKnownGoodSettings) × (Dict.get w.known p ≡ some s)
          × ((name : String) → shown s.current name ≡ shown d name)
    pub delivered :
        (d : SettingsDocument)
        → read_as ≡ ok d
        → (name : String) → told (Dict.get w.last_delivered p) name ≡ shown d name
    pub idle : (d : SettingsDocument) → read_as ≡ ok d → contains w.pending_overflow p ≡ false
    pub reported :
        (f : Refusal)
        → read_as ≡ raise f
        → Dict.get w.last_reported_rejection_digest p ≡ some (rejection_key f)

  pub shown_of_entries :
      (d e : SettingsDocument)
      → d.entries ≡ e.entries
      → (name : String) → shown d name ≡ shown e name
  unfolding shown
  shown_of_entries d e h name = rw h

  -- The document that is held shows what the file says, swapped in or not.
  pub held_after-shown :
      (held : Option LastKnownGoodSettings) (d : SettingsDocument) (is_periodic : Bool)
      → load ≡ ok d
      → ((s : LastKnownGoodSettings) → held ≡ some s → IsHeld platform p s)
      → (s : LastKnownGoodSettings) × (held_after platform consumer is_periodic look p held (ok d)
          ≡ some s)
        × ((name : String) → shown s.current name ≡ shown d name)
  unfolding held_after
  held_after-shown none d is_periodic h all =
      (record { path = p; scope = platform.stem p; current = d }, refl, λ name. refl)
  held_after-shown (some s) d is_periodic h all =
      elim (Bool-cases (str_eq d.content_digest s.current.content_digest)) [
        | inl same ↦
            let i = all s refl in
            (
              s,
              rw same,
              λ name. sym (
                  shown_of_entries d s.current
                    (entries_of_digest platform p (platform.stem p) apart i.read (look.read p)
                      i.time look.now {d = s.current} {e = d} i.origin h
                      ((eq_iff d.content_digest s.current.content_digest).0 same))
                    name),
            )
        | inr other ↦ (record s { current = d }, rw other, λ name. refl)
      ]

  module _ (is_periodic : Bool) where
    -- The recheck of a file that parses is one delivery, of the document that is held after it.
    record Delivers (held : Option LastKnownGoodSettings) (d : SettingsDocument) (w : Watch)
        : Type 0 where
      settings : LastKnownGoodSettings
      before : Watch
      shows : (name : String) → shown settings.current name ≡ shown d name
      becomes :
          present platform consumer is_periodic look p held w
          ≡ deliver_current platform consumer is_periodic look p settings before
      same_delivered : before.last_delivered ≡ w.last_delivered
      same_pending : before.pending_overflow ≡ w.pending_overflow
      same_log : before.log ≡ w.log

    present-Delivers :
        (held : Option LastKnownGoodSettings) (d : SettingsDocument) (w : Watch)
        → load ≡ ok d
        → ((s : LastKnownGoodSettings) → held ≡ some s → IsHeld platform p s)
        → Delivers held d w
    unfolding present discover_new_path discovered offered held_after
    present-Delivers none d w h all = record {
      settings = record { path = p; scope = platform.stem p; current = d };
      before = record w {
        known = Dict.put w.known p (record { path = p; scope = platform.stem p; current = d });
      };
      shows = λ name. refl;
      becomes = rw (open_taken platform p (look.read p) look.now {d = d} h);
      same_delivered = refl;
      same_pending = refl;
      same_log = refl;
    }
    present-Delivers (some s) d w h all =
        let i = all s refl in
        let s' =
          if str_eq d.content_digest s.current.content_digest
          then s
          else record s { current = d } in
        let (s'', e, shows) = held_after-shown (some s) d is_periodic h all in
        record {
          settings = s';
          before = record w {
            known = Dict.put w.known p s';
            last_reported_rejection_digest = Dict.remove w.last_reported_rejection_digest p;
          };
          shows = λ name.
              ap (λ (o : LastKnownGoodSettings). shown o.current name) (unsome e) ∙ shows name;
          becomes =
              rw (offer_taken platform s (look.read p) look.now {d = d} (rw (i.path, i.scope) h));
          same_delivered = refl;
          same_pending = refl;
          same_log = refl;
        }

    module _ (accepts : Accepts consumer) (w : Watch) (all : AllHeld platform w) where
      by_reading :
          (r : Result Refusal SettingsDocument)
          → load ≡ r
          → Settled (recheck_present_path platform consumer is_periodic look p w)
      unfolding recheck_present_path
      by_reading (raise f) h =
          let (rejection, reason, becomes) =
            refused-as platform consumer look p is_periodic (Dict.get w.known p) f w h (all p) in
          record {
            read_as = raise f;
            loads = h;
            document = λ d e. absurd (cc e);
            delivered = λ d e. absurd (cc e);
            idle = λ d e. absurd (cc e);
            reported = λ g e. rw becomes (
                ap (λ m. Dict.get m p)
                  (resolve-reported platform consumer look p is_periodic
                    (report_rejection_if_new consumer platform look p rejection w))
                ∙ report-reported platform consumer look p is_periodic accepts rejection w
                ∙ ap some (
                    key_of_reason platform consumer look p is_periodic rejection
                      (record { source_path = p; reason = message g; rejected_at_ns = look.now })
                      (ground (arith, reason, e))));
          }
      by_reading (ok d) h =
          let v = present-Delivers (Dict.get w.known p) d w h (all p) in
          record {
            read_as = ok d;
            loads = h;
            document = λ d' e.
                let (s, held, shows) =
                  held_after-shown (Dict.get w.known p) d is_periodic h (all p) in
                (
                  s,
                  recheck_present_path-known platform consumer is_periodic look p (ok d) h w all
                      ∙ held,
                  λ name. shows name ∙ ap (λ x. shown x name) (unok e),
                );
            delivered = λ d' e name. rw v.becomes (
                deliver_current-told platform consumer look p is_periodic accepts v.settings
                  v.before name
                ∙ v.shows name
                ∙ ap (λ x. shown x name) (unok e));
            idle = λ d' e. rw v.becomes (
                deliver_current-idle platform consumer look p is_periodic accepts v.settings
                  v.before);
            reported = λ f e. absurd (cc e);
          }

      -- Where no callback raises, the recheck of a listed path leaves nothing to tell about it.
      pub recheck_present_path-Settled :
          Settled (recheck_present_path platform consumer is_periodic look p w)
      recheck_present_path-Settled = by_reading load refl

    module _ (w : Watch) (all : AllHeld platform w) (s : Settled w) where
      quiet_by :
          (r : Result Refusal SettingsDocument)
          → load ≡ r
          → (recheck_present_path platform consumer is_periodic look p w).log ≡ w.log
      unfolding recheck_present_path
      quiet_by (raise f) h =
          let (rejection, reason, becomes) =
            refused-as platform consumer look p is_periodic (Dict.get w.known p) f w h (all p) in
          rw becomes (
            resolve-log platform consumer look p is_periodic
              (report_rejection_if_new consumer platform look p rejection w)
            ∙ ap (λ (x : Watch). x.log)
                (report-quiet platform consumer look p is_periodic rejection w (
                  s.reported f (sym s.loads ∙ h)
                  ∙ ap some (
                      key_of_reason platform consumer look p is_periodic
                        (record { source_path = p; reason = message f; rejected_at_ns = look.now })
                        rejection (sym reason)))))
      quiet_by (ok d) h =
          let v = present-Delivers (Dict.get w.known p) d w h (all p) in
          rw v.becomes (
            deliver_current-quiet platform consumer look p is_periodic v.settings v.before
              (λ name.
                rw v.same_delivered (s.delivered d (sym s.loads ∙ h) name ∙ sym (v.shows name)))
              (rw v.same_pending (s.idle d (sym s.loads ∙ h)))
            ∙ v.same_log)

      -- The recheck of a path about which nothing is left to tell calls no callback, whatever the
      -- callbacks would do.
      pub recheck_present_path-quiet :
          (recheck_present_path platform consumer is_periodic look p w).log ≡ w.log
      recheck_present_path-quiet = quiet_by load refl
