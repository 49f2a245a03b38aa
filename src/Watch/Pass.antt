-- ===== src/Watch/Pass.antt =====
-- Whole passes: what holds of every path after one.
use ajit_segment_bots.Dict
use ajit_segment_bots.Watch.Gone.{recheck_vanished_path-AllHeld}
use ajit_segment_bots.Dict.{Dict, contains-keys, has_key, keys}
use ajit_segment_bots.Watch.Frame.{Agree}
use ajit_segment_bots.Watch.Held.{AllHeld, recheck_present_path-AllHeld}
use ajit_segment_bots.Watch.Recheck.{
  recheck_present_paths, recheck_vanished_paths, recheck, recheck_present_path,
  recheck_vanished_path,
}
use ajit_segment_bots.Watch.{Consumer, Look, clear_in_flight_not_among, Watch}
use ajit_segment_bots.Settings.{Platform}
use ajit_segment_bots.Prelude.{
  String, ◌≡◌, Bool, sorted_set, List, contains, sym, ◌∷◌, not, keep_if, ◌&&◌, ◌++◌, [], ap, arith,
  contains-keep_if, contains-sorted_set, if◌then◌else◌, refl, ◌∙◌,
}

module _ (platform : Platform) (consumer : Consumer) (is_periodic : Bool) (look : Look) where
  pub recheck_present_paths-AllHeld :
      (ps : List String) (w : Watch)
      → AllHeld platform w
      → AllHeld platform (recheck_present_paths platform consumer is_periodic look ps w)
  unfolding recheck_present_paths
  recheck_present_paths-AllHeld [] w all = all
  recheck_present_paths-AllHeld (q ∷ ps) w all =
      recheck_present_paths-AllHeld ps (recheck_present_path platform consumer is_periodic look q w)
        (recheck_present_path-AllHeld platform consumer is_periodic look q w all)

  recheck_vanished_paths-AllHeld :
      (ps : List String) (w : Watch)
      → AllHeld platform w
      → AllHeld platform (recheck_vanished_paths platform consumer is_periodic look ps w)
  unfolding recheck_vanished_paths
  recheck_vanished_paths-AllHeld [] w all = all
  recheck_vanished_paths-AllHeld (q ∷ ps) w all =
      recheck_vanished_paths-AllHeld ps
        (recheck_vanished_path platform consumer is_periodic look q w)
        (recheck_vanished_path-AllHeld platform consumer is_periodic look q w all)

  -- The sweep of the marks at the end of a pass changes nothing else.
  pub sweep-Agree :
      (visited : List String) (p : String) (w : Watch)
      → Agree p w (if is_periodic then w else clear_in_flight_not_among visited w)
  unfolding clear_in_flight_not_among
  sweep-Agree visited p w = record {
    known = ground arith;
    last_delivered = ground arith;
    pending = ground arith;
    reported = ground arith;
  }

  pub sweep-log :
      (visited : List String) (w : Watch)
      → (if is_periodic then w else clear_in_flight_not_among visited w).log ≡ w.log
  unfolding clear_in_flight_not_among
  sweep-log visited w = ground arith

  unfoldable pub after_present : Watch → Watch
  after_present w =
      recheck_present_paths platform consumer is_periodic look (sorted_set look.listed) w

  unfoldable pub gone_paths : Watch → List String
  gone_paths w = keep_if (λ path. not (contains look.listed path)) (Dict.keys w.known)

  unfoldable pub after_vanished : Watch → Watch
  after_vanished w =
      recheck_vanished_paths platform consumer is_periodic look (sorted_set (gone_paths w)) w

  pub recheck-parts :
      (w : Watch)
      → recheck platform consumer is_periodic look w ≡ (
          let w₁ = after_present w in
          let w₂ = after_vanished w₁ in
          if is_periodic
          then w₂
          else clear_in_flight_not_among (look.listed ++ Dict.keys w₁.known) w₂)
  unfolding recheck after_present after_vanished gone_paths
  recheck-parts w = refl

  pub contains-gone_paths :
      (w : Watch) (p : String)
      → contains (sorted_set (gone_paths w)) p
        ≡ (not (contains look.listed p) && Dict.has_key w.known p)
  unfolding gone_paths
  contains-gone_paths w p =
      contains-sorted_set (keep_if (λ path. not (contains look.listed path)) (Dict.keys w.known)) p
      ∙ contains-keep_if (λ path. not (contains look.listed path)) (Dict.keys w.known) p
      ∙ ap (λ b. not (contains look.listed p) && b) (contains-keys w.known p)

  -- If every document that is held was read from its own path, under the scope that the path gives,
  -- then so was every document that is held after a pass.
  pub recheck-AllHeld :
      (w : Watch)
      → AllHeld platform w
      → AllHeld platform (recheck platform consumer is_periodic look w)
  recheck-AllHeld w all p s = rw (recheck-parts w) λ e.
      unfold after_vanished after_present in
      recheck_vanished_paths-AllHeld (sorted_set (gone_paths (after_present w))) (after_present w)
        (recheck_present_paths-AllHeld (sorted_set look.listed) w all) p s
        (sym
            (sweep-Agree (look.listed ++ Dict.keys (after_present w).known) p
              (after_vanished (after_present w))).known
          ∙ e)
