-- ===== src/Watch/Seen.antt =====
-- Where each held document was read: from its own path, at one of the looks that the watch took.
use mathlib.Core.Path.{subst}
use ajit_segment_bots.Prelude.{
  String, ◌≡◌, refl, sym, ◌∙◌, arith, Bool-cases, inl, inr, Option, none, some, List, [], ◌∷◌, ◌++◌,
  Result, ok, raise, Any, str_eq, eq_iff, sorted_set, Bool,
}
use ajit_segment_bots.Dict
use ajit_segment_bots.Dict.{get, put, keys, get-put, Dict}
use ajit_segment_bots.Settings.{Platform}
use ajit_segment_bots.Settings.Reader.{Refusal, SettingsDocument, load_settings_document}
use ajit_segment_bots.Settings.Holder.{LastKnownGoodSettings}
use ajit_segment_bots.Watch.{Watch, Look, Consumer}
use ajit_segment_bots.Watch.Held.{
  AllHeld, held_after, recheck_present_path-known, recheck_present_path-AllHeld, unsome,
}
use ajit_segment_bots.Watch.Isolation.{recheck_present_path-Agree}
use ajit_segment_bots.Watch.Gone.{recheck_vanished_path-known}
use ajit_segment_bots.Watch.Recheck.{
  recheck, recheck_present_path, recheck_present_paths, recheck_vanished_path,
  recheck_vanished_paths,
}
use ajit_segment_bots.Watch.Pass.{
  after_present, after_vanished, gone_paths, recheck-parts, sweep-Agree,
}

module _ (platform : Platform) where
  -- What stood at this path at this look is what is held.
  abbrev pub WasRead : String → LastKnownGoodSettings → Look → Type 0
  WasRead p s look =
      load_settings_document platform p (platform.stem p) (look.read p) look.now ≡ ok s.current

  abbrev pub AllSeen : List Look → Watch → Type 0
  AllSeen looks w =
      (p : String) (s : LastKnownGoodSettings)
      → Dict.get w.known p ≡ some s
      → Any (WasRead p s) looks

  module _ (consumer : Consumer) (is_periodic : Bool) (look : Look) (looks : List Look) where
    held_after-Seen :
        (p : String) (held : Option LastKnownGoodSettings) (r : Result Refusal SettingsDocument)
        → load_settings_document platform p (platform.stem p) (look.read p) look.now ≡ r
        → ((s : LastKnownGoodSettings) → held ≡ some s → Any (WasRead p s) (look ∷ looks))
        → (s : LastKnownGoodSettings)
        → held_after platform consumer is_periodic look p held r ≡ some s
        → Any (WasRead p s) (look ∷ looks)
    unfolding held_after
    held_after-Seen p held (raise f) h seen s e = seen s e
    held_after-Seen p none (ok d) h seen s e =
        subst (λ z. Any (WasRead p z) (look ∷ looks)) (unsome e) (inl h)
    held_after-Seen p (some s') (ok d) h seen s e =
        elim (Bool-cases (str_eq d.content_digest s'.current.content_digest)) [
          | inl same ↦
              subst (λ z. Any (WasRead p z) (look ∷ looks)) (unsome (rw same at e)) (seen s' refl)
          | inr other ↦
              subst (λ z. Any (WasRead p z) (look ∷ looks)) (unsome (rw other at e)) (inl h)
        ]

    present-Seen :
        (p : String) (w : Watch)
        → AllHeld platform w
        → AllSeen (look ∷ looks) w
        → AllSeen (look ∷ looks) (recheck_present_path platform consumer is_periodic look p w)
    present-Seen p w all seen q s e = elim (Bool-cases (str_eq p q)) [
      | inl same ↦
          let pq : p ≡ q = (eq_iff p q).0 same in
          let r = load_settings_document platform p (platform.stem p) (look.read p) look.now in
          subst (λ x. Any (WasRead x s) (look ∷ looks)) pq
            (held_after-Seen p (Dict.get w.known p) r refl (seen p) s (
              sym (recheck_present_path-known platform consumer is_periodic look p r refl w all)
              ∙ subst
                  (λ x.
                    Dict.get (recheck_present_path platform consumer is_periodic look p w).known x
                    ≡ some s)
                  (sym pq) e))
      | inr other ↦ seen q s (
          sym
            (recheck_present_path-Agree platform consumer is_periodic look q p
              (λ pq. ground (arith, eq_iff p q)) w).known
          ∙ e)
    ]

    present_paths-Seen :
        (ps : List String) (w : Watch)
        → AllHeld platform w
        → AllSeen (look ∷ looks) w
        → AllSeen (look ∷ looks) (recheck_present_paths platform consumer is_periodic look ps w)
    unfolding recheck_present_paths
    present_paths-Seen [] w all seen = seen
    present_paths-Seen (q ∷ ps) w all seen =
        present_paths-Seen ps (recheck_present_path platform consumer is_periodic look q w)
          (recheck_present_path-AllHeld platform consumer is_periodic look q w all)
          (present-Seen q w all seen)

    vanished_paths-Seen :
        (ps : List String) (w : Watch)
        → AllSeen (look ∷ looks) w
        → AllSeen (look ∷ looks) (recheck_vanished_paths platform consumer is_periodic look ps w)
    unfolding recheck_vanished_paths
    vanished_paths-Seen [] w seen = seen
    vanished_paths-Seen (q ∷ ps) w seen =
        vanished_paths-Seen ps (recheck_vanished_path platform consumer is_periodic look q w)
          (λ p s e. elim (recheck_vanished_path-known platform consumer is_periodic look q w p) [
            | inl same ↦ seen p s (sym same ∙ e)
            | inr gone ↦ absurd (cc (gone, e))
          ])

    visited-Seen :
        (w : Watch)
        → AllHeld platform w
        → AllSeen looks w
        → AllSeen (look ∷ looks) (
            after_vanished platform consumer is_periodic look
              (after_present platform consumer is_periodic look w))
    unfolding after_present after_vanished
    visited-Seen w all seen =
        let w₁ = after_present platform consumer is_periodic look w in
        vanished_paths-Seen (sorted_set (gone_paths platform consumer is_periodic look w₁)) w₁
          (present_paths-Seen (sorted_set look.listed) w all (λ q t k. inr (seen q t k)))

    -- A pass is one more look.
    pub recheck-Seen :
        (w : Watch)
        → AllHeld platform w
        → AllSeen looks w
        → AllSeen (look ∷ looks) (recheck platform consumer is_periodic look w)
    recheck-Seen w all seen p s = rw (recheck-parts platform consumer is_periodic look w) λ e.
        let w₁ = after_present platform consumer is_periodic look w in
        visited-Seen w all seen p s (
          sym
            (sweep-Agree platform consumer is_periodic look (look.listed ++ Dict.keys w₁.known) p
              (after_vanished platform consumer is_periodic look w₁)).known
          ∙ e)
