-- ===== src/Edits/Ladder.antt =====
-- The facts that are filled in, against what the loader makes of them for the rate ladder.
use ajit_segment_bots.Prelude.{
  ◌≡◌, refl, Bool, List, none, some, String, Text, codes, ok, contains, inl, inr, Bool-cases, not,
  ◌&&◌, ◌||◌, split_on,
}
use ajit_segment_bots.Contracts.{Feature}
use ajit_segment_bots.Declaration.{
  PartDeclaration, declaration_of, may_enter_rate_ladder, parse_resource_class, parse_rate_risk,
  parse_skipped_tick_effect, RateRisk, ResourceClass, SkippedTickEffect, changes_the_answer,
  compute_bound, corrupts, is_delays, is_latency_only, bandwidth_bound, delays, io_bound,
  latency_only,
}
use ajit_segment_bots.Edits.Defaults.{
  Triple, default_for, first_match, meets, fill, forced_catch_all, defaults, record_words,
  model_words, catch_all, triple_of, venue_words, window_words,
}

-- Whether a part of this id is a record, a model or their like, and not one of the two locks.
abbrev pub is_throttleable : String → Bool
is_throttleable i =
    not (contains forced_catch_all i)
    && (meets (split_on b'-' (codes i)) record_words || meets (split_on b'-' (codes i)) model_words)

-- A declaration that loads, and enters the rate ladder or not as told.
abbrev pub LoadsAs : String → Feature → Bool → Type 0
LoadsAs i f may_enter =
    (d : PartDeclaration) × (declaration_of i f ≡ ok d) × (may_enter_rate_ladder d ≡ may_enter)

-- A feature that declares what it reads and writes, and none of the three facts.
module _ (i : String) (f : Feature) (reads writes : List String)
    (reads_given : f.consumes ≡ some reads) (writes_given : f.produces ≡ some writes)
    (no_class : f.resource_class ≡ none) (no_risk : f.rate_risk ≡ none)
    (no_effect : f.skipped_tick_effect ≡ none) where
  LoadsAs-fill :
      (t : Triple) (c : ResourceClass) (r : RateRisk) (e : SkippedTickEffect)
      → parse_resource_class t.class_text ≡ ok c
      → parse_rate_risk t.risk_text ≡ ok r
      → parse_skipped_tick_effect t.effect_text ≡ ok e
      → LoadsAs i (fill t f) (is_latency_only r && is_delays e)
  unfolding fill declaration_of may_enter_rate_ladder
  LoadsAs-fill t c r e class_read risk_read effect_read = (
    record {
      part_id = i;
      consumes = reads;
      produces = writes;
      resource_class = c;
      rate_risk = r;
      skipped_tick_effect = e;
    },
    rw (reads_given, writes_given, no_class, no_risk, no_effect, class_read, risk_read, effect_read)
        refl,
    refl,
  )

  -- By the row that the words of the id meet first.
  LoadsAs-first_match :
      (tokens : List Text)
      → LoadsAs i
          (fill (first_match tokens defaults).triple f)
          (meets tokens record_words || meets tokens model_words)
  unfolding first_match parse_resource_class parse_rate_risk parse_skipped_tick_effect
  LoadsAs-first_match tokens = elim (Bool-cases (meets tokens record_words)) [
    | inl a_record ↦ rw a_record (
        LoadsAs-fill (triple_of "io-bound" "latency-only" "delays") io_bound latency_only delays
          refl refl refl)
    | inr no_record ↦ rw no_record (elim (Bool-cases (meets tokens model_words)) [
      | inl a_model ↦ rw a_model (
          LoadsAs-fill (triple_of "compute-bound" "latency-only" "delays") compute_bound
            latency_only delays refl refl refl)
      | inr no_model ↦ rw no_model (elim (Bool-cases (meets tokens window_words)) [
        | inl a_window ↦ rw a_window (
            LoadsAs-fill (triple_of "bandwidth-bound" "changes-the-answer" "corrupts")
              bandwidth_bound changes_the_answer corrupts refl refl refl)
        | inr no_window ↦ rw no_window (elim (Bool-cases (meets tokens venue_words)) [
          | inl a_venue ↦ rw a_venue (
              LoadsAs-fill (triple_of "io-bound" "changes-the-answer" "corrupts") io_bound
                changes_the_answer corrupts refl refl refl)
          | inr no_venue ↦ rw no_venue (
              LoadsAs-fill catch_all.triple compute_bound changes_the_answer corrupts refl refl
                refl)
        ])
      ])
    ])
  ]

  -- The classifier's facts load, and let a part into the rate ladder exactly if one of the words of its
  -- id is a word for records or for models, and it is not one of the two locks.
  pub default_for-LoadsAs : LoadsAs i (fill (default_for i).triple f) (is_throttleable i)
  unfolding default_for parse_resource_class parse_rate_risk parse_skipped_tick_effect
  default_for-LoadsAs = elim (Bool-cases (contains forced_catch_all i)) [
    | inl forced ↦
        rw forced
          (LoadsAs-fill catch_all.triple compute_bound changes_the_answer corrupts refl refl refl)
    | inr free ↦ rw free (LoadsAs-first_match (split_on b'-' (codes i)))
  ]
