-- ===== src/Watch/HeardPass.antt =====
-- What the consumer hears of a path during a whole pass.
use ajit_segment_bots.Watch.Isolation.{recheck_present_path-Agree, recheck_vanished_path-Agree}
use ajit_segment_bots.Watch.Recheck.{
  recheck, recheck_present_path, recheck_present_paths, recheck_vanished_path,
  recheck_vanished_paths,
}
use ajit_segment_bots.Watch.Pass.{
  after_present, after_vanished, contains-gone_paths, gone_paths, recheck-parts, sweep-Agree,
  sweep-log,
}
use mathlib.Core.Path.{subst}
use ajit_segment_bots.Prelude.{
  String, ◌≡◌, refl, ◌∙◌, arith, Bool, true, false, inl, inr, Bool-cases, List, [], ◌∷◌, ◌++◌,
  if◌then◌else◌, contains, sorted_set, str_eq, eq_iff,
}
use ajit_segment_bots.Dict
use ajit_segment_bots.Dict.{get, keys, Dict}
use ajit_segment_bots.Settings.{Platform}
use ajit_segment_bots.Watch.{Watch, Look, Consumer, clear_in_flight_not_among}
use ajit_segment_bots.Watch.Retold.{Heard, Heard-trans, Heard-skip}
use ajit_segment_bots.Watch.Heard.{recheck_present_path-Heard, recheck_vanished_path-log}

module _ (platform : Platform) (consumer : Consumer) (is_periodic : Bool) (look : Look)
    (p : String) where
  present_step-Heard :
      (q : String) (w : Watch)
      → Heard p w (recheck_present_path platform consumer is_periodic look q w)
  present_step-Heard q w = elim (Bool-cases (str_eq q p)) [
    | inl same ↦
        subst (λ x. Heard x w (recheck_present_path platform consumer is_periodic look q w))
          ((eq_iff q p).0 same) (recheck_present_path-Heard q consumer platform is_periodic look w)
    | inr other ↦
        let (calls, grown, heard) =
          recheck_present_path-Heard q consumer platform is_periodic look w in
        Heard-skip p w (recheck_present_path platform consumer is_periodic look q w) calls grown
          (recheck_present_path-Agree platform consumer is_periodic look p q
            (λ e. ground (arith, eq_iff q p)) w).last_delivered
  ]

  present_paths-Heard :
      (ps : List String) (w : Watch)
      → Heard p w (recheck_present_paths platform consumer is_periodic look ps w)
  unfolding recheck_present_paths
  present_paths-Heard [] w = ([], refl, λ name. refl)
  present_paths-Heard (q ∷ ps) w =
      let v = recheck_present_path platform consumer is_periodic look q w in
      Heard-trans p w v (recheck_present_paths platform consumer is_periodic look ps v)
        (present_step-Heard q w) (present_paths-Heard ps v)

  vanished_paths-Heard :
      (ps : List String) (w : Watch)
      → contains ps p ≡ false
      → Heard p w (recheck_vanished_paths platform consumer is_periodic look ps w)
  unfolding recheck_vanished_paths contains
  vanished_paths-Heard [] w apart = ([], refl, λ name. refl)
  vanished_paths-Heard (q ∷ ps) w apart =
      let v = recheck_vanished_path platform consumer is_periodic look q w in
      let (calls, grown) = recheck_vanished_path-log q consumer platform is_periodic look w in
      Heard-trans p w v (recheck_vanished_paths platform consumer is_periodic look ps v)
        (Heard-skip p w v calls grown
          (recheck_vanished_path-Agree platform consumer is_periodic look p q
            (λ e. ground (arith, eq_iff q p)) w).last_delivered)
        (vanished_paths-Heard ps v (ground arith))

  -- What is remembered as delivered of a listed path is what the consumer heard of it.
  pub recheck-Heard :
      (w : Watch)
      → contains look.listed p ≡ true
      → Heard p w (recheck platform consumer is_periodic look w)
  recheck-Heard w listed =
      let w₁ = after_present platform consumer is_periodic look w in
      let w₂ = after_vanished platform consumer is_periodic look w₁ in
      let gone = sorted_set (gone_paths platform consumer is_periodic look w₁) in
      let visited = look.listed ++ Dict.keys w₁.known in
      rw (recheck-parts platform consumer is_periodic look w) (
        Heard-trans p w w₂ (if is_periodic then w₂ else clear_in_flight_not_among visited w₂)
          (Heard-trans p w w₁ w₂
            (unfold after_present in present_paths-Heard (sorted_set look.listed) w)
            (unfold after_vanished in
              vanished_paths-Heard gone w₁
                (contains-gone_paths platform consumer is_periodic look w₁ p ∙ rw listed)))
          (Heard-skip p w₂ (if is_periodic then w₂ else clear_in_flight_not_among visited w₂) []
            (sweep-log platform consumer is_periodic look visited w₂)
            (sweep-Agree platform consumer is_periodic look visited p w₂).last_delivered))
