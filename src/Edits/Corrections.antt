-- ===== src/Edits/Corrections.antt =====
-- dashboard/blueprint_edits/apply_2026-08-20_correct_live_decision_parts.py: three parts whose throttle
-- facts are overwritten. `feats` has the last feature of each id.
use ajit_segment_bots.Prelude.{
  ◌&&◌, Bool, true, false, List, [], ◌∷◌, Option, none, some, String, Result, ok, raise, ◌>>=◌,
  if◌then◌else◌, contains, keep_if, not, map, sorted_set,
}
use ajit_segment_bots.Contracts.{Feature, equal_option}

pub record Correction : Type 0 where
  pub part_id : String
  pub rate_risk : String
  pub skipped_tick_effect : String

abbrev pub corrections : List Correction
corrections =
    record {
      part_id = "leverage-selector";
      rate_risk = "changes-the-answer";
      skipped_tick_effect = "corrupts";
    }
    ∷ record {
      part_id = "tail-trailing-exit-planner";
      rate_risk = "changes-the-answer";
      skipped_tick_effect = "corrupts";
    }
    ∷ record {
      part_id = "forecast-distribution-gate";
      rate_risk = "changes-the-answer";
      skipped_tick_effect = "corrupts";
    }
    ∷ []

-- A feature without an id, and the exit that refuses to guess.
pub data EditError : Type 0 where
  no_id : EditError
  not_in_the_blueprint : List String → EditError

-- `f["id"]`, before the ids of the features after it.
abbrev pub next_id : Option String → Result EditError (List String) → Result EditError (List String)
next_id none ids = raise no_id
next_id (some part_id) ids = do rest ← ids; ok (part_id ∷ rest)

unfoldable pub ids_of : List Feature → Result EditError (List String)
ids_of [] = ok []
ids_of (f ∷ fs) = next_id f.id (ids_of fs)

-- Whether a feature is the one of this id.
abbrev pub has_id : String → Feature → Bool
has_id part_id f = equal_option f.id (some part_id)

unfoldable pub is_declared : String → List Feature → Bool
is_declared part_id [] = false
is_declared part_id (f ∷ fs) =
    let later_on = is_declared part_id fs in if has_id part_id f then true else later_on

-- `feats[part_id]`
unfoldable pub feature_of : String → List Feature → Option Feature
unfolding is_declared
feature_of part_id [] = none
feature_of part_id (f ∷ fs) =
    let later_on = feature_of part_id fs in
    if is_declared part_id fs then later_on else if has_id part_id f then some f else none

-- An assignment to keys of `feats[part_id]`, which the registry's list holds.
unfoldable pub update_at : (Feature → Feature) → String → List Feature → List Feature
unfolding is_declared
update_at change part_id [] = []
update_at change part_id (f ∷ fs) =
    let later_on = update_at change part_id fs in
    if is_declared part_id fs then f ∷ later_on else (if has_id part_id f then change f else f) ∷ fs

abbrev pub overwrite : Correction → Feature → Feature
overwrite c f = record f {
  rate_risk = some c.rate_risk;
  skipped_tick_effect = some c.skipped_tick_effect;
}

-- `before == after`
abbrev pub holds : Correction → Feature → Bool
holds c f =
    equal_option f.rate_risk (some c.rate_risk)
    && equal_option f.skipped_tick_effect (some c.skipped_tick_effect)

abbrev pub holds_in : Correction → Option Feature → Bool
holds_in c none = false
holds_in c (some f) = holds c f

-- What is written, and the ids of the parts in the two lists that are printed.
pub record Corrected : Type 0 where
  pub features : List Feature
  pub changed : List String
  pub left_alone : List String

unfoldable pub correct_from : List Correction → List Feature → Corrected
unfolding feature_of update_at
correct_from [] fs = record { features = fs; changed = []; left_alone = [] }
correct_from (c ∷ cs) fs =
    let kept = correct_from cs fs in
    let done = correct_from cs (update_at (overwrite c) c.part_id fs) in
    if holds_in c (feature_of c.part_id fs)
    then record kept { left_alone = c.part_id ∷ kept.left_alone }
    else record done { changed = c.part_id ∷ done.changed }

abbrev pub part_ids : List Correction → List String
part_ids cs = map (λ (c : Correction). c.part_id) cs

unfoldable pub missing_ids : List String → List String
missing_ids ids = keep_if (λ i. not (contains ids i)) (part_ids corrections)

abbrev pub refuse_or_correct : List String → List Feature → Result EditError Corrected
refuse_or_correct [] fs = ok (correct_from corrections fs)
refuse_or_correct (i ∷ missing) fs = raise (not_in_the_blueprint (sorted_set (i ∷ missing)))

unfoldable pub apply_corrections : List Feature → Result EditError Corrected
unfolding ids_of missing_ids correct_from
apply_corrections fs = do ids ← ids_of fs; refuse_or_correct (missing_ids ids) fs
