-- ===== src/Watch/Rest.antt =====
-- What a pass whose callbacks return leaves behind.
use ajit_segment_bots.Dict
use mathlib.Core.Path.{subst}
use ajit_segment_bots.Watch.Gone.{recheck_vanished_path-gone, recheck_vanished_path-known}
use ajit_segment_bots.Watch.Isolation.{recheck_present_path-Agree, recheck_vanished_path-Agree}
use ajit_segment_bots.Watch.Recheck.{
  recheck, recheck_present_path, recheck_present_paths, recheck_vanished_path,
  recheck_vanished_paths,
}
use ajit_segment_bots.Watch.Pass.{
  after_present, after_vanished, contains-gone_paths, gone_paths, recheck-parts, sweep-Agree,
}
use ajit_segment_bots.Watch.Quiet.{Settled, recheck_present_path-Settled}
use ajit_segment_bots.Settings.{Platform}
use ajit_segment_bots.Settings.Laws.{Distinguishes}
use ajit_segment_bots.Dict.{Dict, get, keys}
use ajit_segment_bots.Watch.{Consumer, Look, Watch}
use ajit_segment_bots.Watch.Held.{AllHeld, recheck_present_path-AllHeld}
use ajit_segment_bots.Watch.Frame.{Agree, Agree-refl, Agree-trans}
use ajit_segment_bots.Watch.HeardPass.{recheck-Heard}
use ajit_segment_bots.Watch.Retold.{Heard}
use ajit_segment_bots.Watch.Settled.{Accepts, told}
use ajit_segment_bots.Prelude.{
  String, ◌≡◌, Bool, ◌++◌, Bool-cases, List, [], ap, arith, contains, contains-sorted_set, eq_iff,
  false, inl, inr, none, refl, sorted_set, str_eq, str_eq_refl, true, ◌∙◌, ◌∷◌,
}

Settled-Agree :
    (platform : Platform) (apart : Distinguishes platform) (consumer : Consumer) (look : Look)
    (p : String) {w v : Watch}
    → Agree p w v
    → Settled platform apart consumer look p w
    → Settled platform apart consumer look p v
Settled-Agree platform apart consumer look p a s = record {
  read_as = s.read_as;
  loads = s.loads;
  document = λ d e. let (held, is_held, shows) = s.document d e in (held, a.known ∙ is_held, shows);
  delivered = λ d e name. ap (λ o. told o name) a.last_delivered ∙ s.delivered d e name;
  idle = λ d e. a.pending ∙ s.idle d e;
  reported = λ f e. a.reported ∙ s.reported f e;
}

pub none_contained : (xs : List String) → ((x : String) → contains xs x ≡ false) → xs ≡ []
unfolding contains
none_contained [] h = refl
none_contained (x ∷ xs) h = absurd (ground (arith, h x, str_eq_refl x))

module _ (platform : Platform) (apart : Distinguishes platform) (consumer : Consumer)
    (is_periodic : Bool) (look : Look) where
  -- A list of listed paths is rechecked, and one of another path says nothing of `p`.
  pub present_paths-Agree :
      (p : String) (ps : List String) (w : Watch)
      → contains ps p ≡ false
      → Agree p w (recheck_present_paths platform consumer is_periodic look ps w)
  unfolding recheck_present_paths contains
  present_paths-Agree p [] w h = Agree-refl p w
  present_paths-Agree p (q ∷ ps) w h =
      Agree-trans
        (recheck_present_path-Agree platform consumer is_periodic look p q
          (λ e. ground (arith, eq_iff q p)) w)
        (present_paths-Agree p ps (recheck_present_path platform consumer is_periodic look q w)
          (ground arith))

  vanished_paths-Agree :
      (p : String) (ps : List String) (w : Watch)
      → contains ps p ≡ false
      → Agree p w (recheck_vanished_paths platform consumer is_periodic look ps w)
  unfolding recheck_vanished_paths contains
  vanished_paths-Agree p [] w h = Agree-refl p w
  vanished_paths-Agree p (q ∷ ps) w h =
      Agree-trans
        (recheck_vanished_path-Agree platform consumer is_periodic look p q
          (λ e. ground (arith, eq_iff q p)) w)
        (vanished_paths-Agree p ps (recheck_vanished_path platform consumer is_periodic look q w)
          (ground arith))

  vanished_paths-none :
      (p : String) (ps : List String) (w : Watch)
      → Dict.get w.known p ≡ none
      → Dict.get (recheck_vanished_paths platform consumer is_periodic look ps w).known p ≡ none
  unfolding recheck_vanished_paths
  vanished_paths-none p [] w h = h
  vanished_paths-none p (q ∷ ps) w h =
      vanished_paths-none p ps (recheck_vanished_path platform consumer is_periodic look q w)
        (elim (recheck_vanished_path-known platform consumer is_periodic look q w p) [
          | inl same ↦ same ∙ h
          | inr gone ↦ gone
        ])

  module _ (accepts : Accepts consumer) where
    pub step_keeps :
        (p q : String) (w : Watch)
        → AllHeld platform w
        → (str_eq q p ≡ false → Settled platform apart consumer look p w)
        → Settled platform apart consumer look p
            (recheck_present_path platform consumer is_periodic look q w)
    step_keeps p q w all s = elim (Bool-cases (str_eq q p)) [
      | inl same ↦
          subst
            (λ x.
              Settled platform apart consumer look x
                (recheck_present_path platform consumer is_periodic look q w))
            ((eq_iff q p).0 same)
            (recheck_present_path-Settled platform apart consumer look q is_periodic accepts w all)
      | inr other ↦
          Settled-Agree platform apart consumer look p
            (recheck_present_path-Agree platform consumer is_periodic look p q
              (λ e. ground (arith, eq_iff q p)) w)
            (s other)
    ]

    -- Once settled, or still to be rechecked, a path is settled at the end of the loop.
    present_paths-Settled :
        (p : String) (ps : List String) (w : Watch)
        → AllHeld platform w
        → (contains ps p ≡ false → Settled platform apart consumer look p w)
        → Settled platform apart consumer look p
            (recheck_present_paths platform consumer is_periodic look ps w)
    unfolding recheck_present_paths contains
    present_paths-Settled p [] w all s = s refl
    present_paths-Settled p (q ∷ ps) w all s =
        present_paths-Settled p ps (recheck_present_path platform consumer is_periodic look q w)
          (recheck_present_path-AllHeld platform consumer is_periodic look q w all)
          (λ unlisted. step_keeps p q w all (λ other. s (ground (arith, other, unlisted))))

    vanished_paths-gone :
        (p : String) (ps : List String) (w : Watch)
        → (contains ps p ≡ false → Dict.get w.known p ≡ none)
        → Dict.get (recheck_vanished_paths platform consumer is_periodic look ps w).known p ≡ none
    unfolding recheck_vanished_paths contains
    vanished_paths-gone p [] w h = h refl
    vanished_paths-gone p (q ∷ ps) w h = elim (Bool-cases (str_eq q p)) [
      | inl same ↦
          vanished_paths-none p ps (recheck_vanished_path platform consumer is_periodic look q w) (
            subst
              (λ x.
                Dict.get (recheck_vanished_path platform consumer is_periodic look q w).known x
                ≡ none)
              ((eq_iff q p).0 same)
              (recheck_vanished_path-gone platform consumer is_periodic look q accepts w))
      | inr other ↦
          vanished_paths-gone p ps (recheck_vanished_path platform consumer is_periodic look q w)
            (λ unlisted.
              elim (recheck_vanished_path-known platform consumer is_periodic look q w p) [
                | inl same ↦ same ∙ h (ground (arith, other, unlisted))
                | inr gone ↦ gone
              ])
    ]

    module _ (w : Watch) (all : AllHeld platform w) (p : String) where
      -- Nothing is left to tell about a listed path.
      Settled-recheck :
          contains look.listed p ≡ true
          → Settled platform apart consumer look p (recheck platform consumer is_periodic look w)
      Settled-recheck listed =
          let w₁ = after_present platform consumer is_periodic look w in
          let gone = sorted_set (gone_paths platform consumer is_periodic look w₁) in
          rw (recheck-parts platform consumer is_periodic look w) (
            Settled-Agree platform apart consumer look p
              (sweep-Agree platform consumer is_periodic look (look.listed ++ Dict.keys w₁.known) p
                (after_vanished platform consumer is_periodic look w₁))
              (unfold after_vanished in
                Settled-Agree platform apart consumer look p
                  (vanished_paths-Agree p gone w₁
                    (contains-gone_paths platform consumer is_periodic look w₁ p ∙ rw listed))
                  (unfold after_present in
                    present_paths-Settled p (sorted_set look.listed) w all
                      (λ e. absurd (ground (arith, contains-sorted_set look.listed p))))))

      pub recheck-Settled :
          contains look.listed p ≡ true
          → Settled platform apart consumer look p (recheck platform consumer is_periodic look w)
            × Heard p w (recheck platform consumer is_periodic look w)
      recheck-Settled listed =
          (Settled-recheck listed, recheck-Heard platform consumer is_periodic look p w listed)

      -- If the digest tells bodies apart, no callback raises, and every document that is held was
      -- read from its own path, then after a pass a path that is not listed is no longer known.
      pub recheck-gone :
          contains look.listed p ≡ false
          → Dict.get (recheck platform consumer is_periodic look w).known p ≡ none
      recheck-gone unlisted =
          let w₁ = after_present platform consumer is_periodic look w in
          let gone = sorted_set (gone_paths platform consumer is_periodic look w₁) in
          rw (recheck-parts platform consumer is_periodic look w) (
            (sweep-Agree platform consumer is_periodic look (look.listed ++ Dict.keys w₁.known) p
              (after_vanished platform consumer is_periodic look w₁)).known
            ∙ (unfold after_vanished in
                vanished_paths-gone p gone w₁ (λ e. ground (
                  arith,
                  e,
                  contains-gone_paths platform consumer is_periodic look w₁ p,
                  unlisted,
                ))))
