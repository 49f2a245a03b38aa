-- ===== src/Watch/Gone.antt =====
-- A path that the directory no longer lists: what is kept of it, and when it is forgotten.
use ajit_segment_bots.Prelude.{
  String, ◌≡◌, refl, sym, ap, ◌∙◌, Bool, true, false, Option, none, some, arith, str_eq_refl,
  contains, inl, inr, ◌⊎◌,
}
use ajit_segment_bots.Dict
use ajit_segment_bots.Dict.{get-remove}
use ajit_segment_bots.Settings.{Platform}
use ajit_segment_bots.Settings.Holder.{LastKnownGoodSettings}
use ajit_segment_bots.Watch.{Watch, Look, Consumer}
use ajit_segment_bots.Watch.Compare.{empty_document_sharing_identity_with}
use ajit_segment_bots.Watch.Delivery.{delivered_baseline_for, deliver_diff}
use ajit_segment_bots.Watch.Recheck.{forget, settle_removal, vanished, recheck_vanished_path}
use ajit_segment_bots.Watch.Settled.{Accepts, deliver_diff-known}
use ajit_segment_bots.Watch.Accepted.{deliver_diff-accepted, deliver_diff-not_pending}
use ajit_segment_bots.Watch.Held.{AllHeld}

module _ (platform : Platform) (consumer : Consumer) (is_periodic : Bool) (look : Look)
    (q : String) where
  settle_removal-known :
      (w : Watch) (delivered : Bool) (x : String)
      → (Dict.get (settle_removal platform consumer is_periodic look q (w, delivered)).known x
          ≡ Dict.get w.known x)
        ⊎ (Dict.get (settle_removal platform consumer is_periodic look q (w, delivered)).known x
            ≡ none)
  unfolding settle_removal forget
  settle_removal-known w delivered x = ground (arith, get-remove w.known q x)

  vanished-known :
      (held : Option LastKnownGoodSettings) (w : Watch) (x : String)
      → (Dict.get (vanished platform consumer is_periodic look q held w).known x
          ≡ Dict.get w.known x)
        ⊎ (Dict.get (vanished platform consumer is_periodic look q held w).known x ≡ none)
  unfolding vanished
  vanished-known none w x = inl refl
  vanished-known (some s) w x =
      let previous = delivered_baseline_for q s.current look.now w in
      let gone = empty_document_sharing_identity_with previous look.now in
      let r = deliver_diff consumer q previous gone is_periodic look.now w in
      elim (settle_removal-known r.0 r.1 x) [
        | inl same ↦ inl (
            same
            ∙ ap (λ k. Dict.get k x)
                (deliver_diff-known consumer q previous gone is_periodic look.now w))
        | inr none_left ↦ inr none_left
      ]

  -- A recheck of a path that is gone adds nothing to the catalog.
  pub recheck_vanished_path-known :
      (w : Watch) (x : String)
      → (Dict.get (recheck_vanished_path platform consumer is_periodic look q w).known x
          ≡ Dict.get w.known x)
        ⊎ (Dict.get (recheck_vanished_path platform consumer is_periodic look q w).known x ≡ none)
  unfolding recheck_vanished_path
  recheck_vanished_path-known w x = vanished-known (Dict.get w.known q) w x

  pub recheck_vanished_path-AllHeld :
      (w : Watch)
      → AllHeld platform w
      → AllHeld platform (recheck_vanished_path platform consumer is_periodic look q w)
  recheck_vanished_path-AllHeld w all x s e = elim (recheck_vanished_path-known w x) [
    | inl same ↦ all x s (sym same ∙ e)
    | inr gone ↦ absurd (ground (arith, gone, e))
  ]

  module _ (accepts : Accepts consumer) where
    settle_removal-gone :
        (w : Watch)
        → contains w.pending_overflow q ≡ false
        → Dict.get (settle_removal platform consumer is_periodic look q (w, true)).known q ≡ none
    unfolding settle_removal forget
    settle_removal-gone w idle = ground (arith, get-remove w.known q q, str_eq_refl q)

    vanished-gone :
        (held : Option LastKnownGoodSettings) (w : Watch)
        → Dict.get w.known q ≡ held
        → Dict.get (vanished platform consumer is_periodic look q held w).known q ≡ none
    unfolding vanished
    vanished-gone none w h = h
    vanished-gone (some s) w h =
        let previous = delivered_baseline_for q s.current look.now w in
        let gone = empty_document_sharing_identity_with previous look.now in
        let r = deliver_diff consumer q previous gone is_periodic look.now w in
        rw (deliver_diff-accepted consumer q accepts previous gone is_periodic look.now w) (
          settle_removal-gone r.0
            (deliver_diff-not_pending consumer q accepts previous gone is_periodic look.now w))

    -- Where no callback raises, a path that is gone is forgotten.
    pub recheck_vanished_path-gone :
        (w : Watch)
        → Dict.get (recheck_vanished_path platform consumer is_periodic look q w).known q ≡ none
    unfolding recheck_vanished_path
    recheck_vanished_path-gone w = vanished-gone (Dict.get w.known q) w refl
