-- ===== src/Watch/Held.antt =====
-- Every document that the watch holds was read from its own path.
use ajit_segment_bots.Prelude.{
  ℕ, String, ◌≡◌, refl, sym, ◌∙◌, Bool, Option, none, some, List, arith, eq_iff, str_eq, Result, ok,
  raise, inl, inr, Bool-cases, if◌then◌else◌,
}
use mathlib.Core.Path.{subst}
use ajit_segment_bots.Dict
use ajit_segment_bots.Dict.{get-put_self, get-put, get-remove}
use ajit_segment_bots.Settings.{Platform}
use ajit_segment_bots.Settings.Reader.{SettingsDocument, Refusal, load_settings_document}
use ajit_segment_bots.Settings.Holder.{LastKnownGoodSettings, SettingsRejection, open_settings}
use ajit_segment_bots.Settings.Laws.{offer_refused, offer_taken}
use ajit_segment_bots.Watch.{Watch, Look, Consumer, clear_in_flight}
use ajit_segment_bots.Watch.Delivery.{delivered_baseline_for, report_rejection_if_new}
use ajit_segment_bots.Watch.Recheck.{
  deliver_current, discovered, discover_new_path, offered, present, recheck_present_path,
}
use ajit_segment_bots.Watch.Isolation.{recheck_present_path-Agree}
use ajit_segment_bots.Watch.Settled.{deliver_diff-known}

pub unsome : {a b : LastKnownGoodSettings} → some a ≡ some b → a ≡ b
unsome e = cc

module _ (platform : Platform) where
  -- Some reading of the path gave the document.
  pub record IsHeld (p : String) (s : LastKnownGoodSettings) : Type 0 where
    pub path : s.path ≡ p
    pub scope : s.scope ≡ platform.stem p
    pub read : Result String (List ℕ)
    pub time : ℕ
    pub origin : load_settings_document platform p (platform.stem p) read time ≡ ok s.current

  abbrev pub AllHeld : Watch → Type 0
  AllHeld w = (p : String) (s : LastKnownGoodSettings) → Dict.get w.known p ≡ some s → IsHeld p s

  -- The answer of `open_settings`, by what the reading gives.
  pub open_refused :
      (p : String) (read : Result String (List ℕ)) (t : ℕ) {f : Refusal}
      → load_settings_document platform p (platform.stem p) read t ≡ raise f
      → open_settings platform p (platform.stem p) read t ≡ raise f
  unfolding open_settings
  open_refused p read t h = ground arith

  pub open_taken :
      (p : String) (read : Result String (List ℕ)) (t : ℕ) {d : SettingsDocument}
      → load_settings_document platform p (platform.stem p) read t ≡ ok d
      → open_settings platform p (platform.stem p) read t
        ≡ ok (record { path = p; scope = platform.stem p; current = d })
  unfolding open_settings
  open_taken p read t h = ground arith

  module _ (consumer : Consumer) (is_periodic : Bool) (look : Look) (p : String) where
    abbrev Loads : Result Refusal SettingsDocument → Type 0
    Loads = ◌≡◌ (load_settings_document platform p (platform.stem p) (look.read p) look.now)

    pub deliver_current-known :
        (s : LastKnownGoodSettings) (w : Watch)
        → (deliver_current platform consumer is_periodic look p s w).known ≡ w.known
    unfolding deliver_current
    deliver_current-known s w =
        deliver_diff-known consumer p (delivered_baseline_for p s.current look.now w) s.current
          is_periodic look.now w

    pub rejected-known :
        (rejection : SettingsRejection) (w : Watch)
        → (if is_periodic
            then report_rejection_if_new consumer platform look p rejection w
            else clear_in_flight p
                (report_rejection_if_new consumer platform look p rejection w)).known
          ≡ w.known
    unfolding report_rejection_if_new clear_in_flight
    rejected-known rejection w = ground arith

    -- What is held of a path after it was rechecked.
    unfoldable pub held_after :
        Option LastKnownGoodSettings
        → Result Refusal SettingsDocument
        → Option LastKnownGoodSettings
    held_after held (raise f) = held
    held_after none (ok d) = some (record { path = p; scope = platform.stem p; current = d })
    held_after (some s) (ok d) =
        some
          (if str_eq d.content_digest s.current.content_digest then s else record s { current = d })

    present-known :
        (held : Option LastKnownGoodSettings) (r : Result Refusal SettingsDocument)
        → Loads r
        → ((s : LastKnownGoodSettings) → held ≡ some s → IsHeld p s)
        → (w : Watch) → Dict.get w.known p ≡ held
        → Dict.get (present platform consumer is_periodic look p held w).known p ≡ held_after held r
    unfolding present discover_new_path discovered offered held_after
    present-known none (raise f) h held w k =
        rw (open_refused p (look.read p) look.now h) (rw rejected-known k)
    present-known none (ok d) h held w k = rw (open_taken p (look.read p) look.now h) (
        rw deliver_current-known
          (get-put_self w.known p (record { path = p; scope = platform.stem p; current = d })))
    present-known (some s) (raise f) h held w k =
        let i = held s refl in
        rw (offer_refused platform s (look.read p) look.now {f = f} (rw (i.path, i.scope) h))
          (rw rejected-known k)
    present-known (some s) (ok d) h held w k =
        let i = held s refl in
        rw (offer_taken platform s (look.read p) look.now {d = d} (rw (i.path, i.scope) h)) (
          rw deliver_current-known (
            get-put_self w.known p (
              if str_eq d.content_digest s.current.content_digest
              then s
              else record s { current = d })))

    held_after-IsHeld :
        (held : Option LastKnownGoodSettings) (r : Result Refusal SettingsDocument)
        → Loads r
        → ((s : LastKnownGoodSettings) → held ≡ some s → IsHeld p s)
        → (s : LastKnownGoodSettings) → held_after held r ≡ some s
        → IsHeld p s
    unfolding held_after
    held_after-IsHeld held (raise f) h hs s e = hs s e
    held_after-IsHeld none (ok d) h hs s e =
        subst (IsHeld p) (unsome e)
          (record { path = refl; scope = refl; read = look.read p; time = look.now; origin = h })
    held_after-IsHeld (some s') (ok d) h hs s e =
        subst (IsHeld p) (unsome e)
          (elim (Bool-cases (str_eq d.content_digest s'.current.content_digest)) [
            | inl same ↦ rw same (hs s' refl)
            | inr other ↦ rw other (record {
              path = (hs s' refl).path;
              scope = (hs s' refl).scope;
              read = look.read p;
              time = look.now;
              origin = h;
            })
          ])

    -- What is held of a path after its recheck, whatever the file and the callbacks did.
    pub recheck_present_path-known :
        (r : Result Refusal SettingsDocument)
        → Loads r
        → (w : Watch) → AllHeld w
        → Dict.get (recheck_present_path platform consumer is_periodic look p w).known p
          ≡ held_after (Dict.get w.known p) r
    unfolding recheck_present_path
    recheck_present_path-known r h w all = present-known (Dict.get w.known p) r h (all p) w refl

    pub recheck_present_path-AllHeld :
        (w : Watch)
        → AllHeld w
        → AllHeld (recheck_present_path platform consumer is_periodic look p w)
    recheck_present_path-AllHeld w all q s e = elim (Bool-cases (str_eq p q)) [
      | inl same ↦
          let pq : p ≡ q = (eq_iff p q).0 same in
          let r = load_settings_document platform p (platform.stem p) (look.read p) look.now in
          subst (λ x. IsHeld x s) pq
            (held_after-IsHeld (Dict.get w.known p) r refl (all p) s (
              sym (recheck_present_path-known r refl w all)
              ∙ subst
                  (λ x.
                    Dict.get (recheck_present_path platform consumer is_periodic look p w).known x
                    ≡ some s)
                  (sym pq) e))
      | inr other ↦ all q s (
          sym
            (recheck_present_path-Agree platform consumer is_periodic look q p
              (λ pq. ground (arith, eq_iff p q)) w).known
          ∙ e)
    ]
