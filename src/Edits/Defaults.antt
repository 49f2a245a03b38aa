-- ===== src/Edits/Defaults.antt =====
-- dashboard/blueprint_edits/apply_2026-08-20_part_declarations.py: the class of a part from the words
-- of its id, and the loop that fills in what a feature does not declare.
use ajit_segment_bots.Prelude.{
  ◌||◌, ℕ, suc, Bool, true, false, List, [], ◌∷◌, Option, none, some, String, Text, codes, Result,
  ok, raise, ◌>>=◌, if◌then◌else◌, contains, text_eq, split_on,
}
use ajit_segment_bots.Contracts.{Feature}
use ajit_segment_bots.Contracts.Edges.{RegistryError, key_error}

-- `(resource_class, rate_risk, skipped_tick_effect)`
pub record Triple : Type 0 where
  pub class_text : String
  pub risk_text : String
  pub effect_text : String

-- A row of `DEFAULTS`.
pub record Shape : Type 0 where
  pub label : String
  pub vocabulary : List String
  pub triple : Triple

-- What `default_for` returns.
pub record Classified : Type 0 where
  pub label : String
  pub triple : Triple

abbrev pub triple_of : String → String → String → Triple
triple_of c r e = record { class_text = c; risk_text = r; effect_text = e }

abbrev pub record_words : List String
record_words =
    "ledger" ∷ "journal" ∷ "provenance" ∷ "recorder" ∷ "registry" ∷ "keeper" ∷ "archive" ∷ "auditor"
    ∷ "checker" ∷ "store" ∷ "cache" ∷ "publisher" ∷ "versioner" ∷ "accountant" ∷ "verifier"
    ∷ "monitor" ∷ []

abbrev pub model_words : List String
model_words =
    "model" ∷ "scorer" ∷ "scorekeeper" ∷ "learner" ∷ "learning" ∷ "forecast" ∷ "forecaster"
    ∷ "classifier" ∷ "regressor" ∷ "calibrator" ∷ "search" ∷ "miner" ∷ "optimizer" ∷ "ensembler"
    ∷ "critic" ∷ "estimator" ∷ "selector" ∷ "ranker" ∷ "decoder" ∷ "reflector" ∷ "planner"
    ∷ "picker" ∷ []

abbrev pub window_words : List String
window_words =
    "indicator" ∷ "feature" ∷ "window" ∷ "tracker" ∷ "gauge" ∷ "meter" ∷ "profiler" ∷ "aggregator"
    ∷ "consolidator" ∷ []

abbrev pub venue_words : List String
venue_words =
    "reader" ∷ "feed" ∷ "venue" ∷ "poller" ∷ "fetcher" ∷ "socket" ∷ "api" ∷ "caller" ∷ "rotator"
    ∷ "resubmitter" ∷ []

abbrev pub defaults : List Shape
defaults =
    record {
      label = "ledger, journal, provenance, reporting";
      vocabulary = record_words;
      triple = triple_of "io-bound" "latency-only" "delays";
    }
    ∷ record {
      label = "model, scorer, search, learning";
      vocabulary = model_words;
      triple = triple_of "compute-bound" "latency-only" "delays";
    }
    ∷ record {
      label = "indicator, feature, rolling-window";
      vocabulary = window_words;
      triple = triple_of "bandwidth-bound" "changes-the-answer" "corrupts";
    }
    ∷ record {
      label = "feed reader, socket loop, REST poller, venue client";
      vocabulary = venue_words;
      triple = triple_of "io-bound" "changes-the-answer" "corrupts";
    }
    ∷ []

abbrev pub catch_all : Classified
catch_all = record {
  label = "everything else (catch-all, most restrictive on purpose)";
  triple = triple_of "compute-bound" "changes-the-answer" "corrupts";
}

abbrev pub forced_catch_all : List String
forced_catch_all = "fund-lock-ledger" ∷ "resource-reservation-ledger" ∷ []

unfoldable pub is_token : List Text → String → Bool
is_token [] word = false
is_token (token ∷ tokens) word = text_eq token (codes word) || is_token tokens word

-- `tokens & vocabulary`
unfoldable pub meets : List Text → List String → Bool
unfolding is_token
meets tokens [] = false
meets tokens (word ∷ vocabulary) = is_token tokens word || meets tokens vocabulary

unfoldable pub first_match : List Text → List Shape → Classified
first_match tokens [] = catch_all
first_match tokens (shape ∷ shapes) =
    let later_on = first_match tokens shapes in
    if meets tokens shape.vocabulary
    then record { label = shape.label; triple = shape.triple }
    else later_on

unfoldable pub default_for : String → Classified
unfolding first_match
default_for part_id =
    if contains forced_catch_all part_id
    then catch_all
    else first_match (split_on b'-' (codes part_id)) defaults

abbrev pub is_absent : Option String → Bool
is_absent none = true
is_absent (some s) = false

abbrev pub or_default : Option String → String → Option String
or_default none d = some d
or_default (some s) d = some s

unfoldable pub fill : Triple → Feature → Feature
fill t f = record f {
  resource_class = or_default f.resource_class t.class_text;
  rate_risk = or_default f.rate_risk t.risk_text;
  skipped_tick_effect = or_default f.skipped_tick_effect t.effect_text;
}

unfoldable pub lacks_some : Feature → Bool
lacks_some f =
    (is_absent f.resource_class || is_absent f.rate_risk) || is_absent f.skipped_tick_effect

-- What is written, the two counts, and the labels that `matched` counts.
pub record Declared : Type 0 where
  pub features : List Feature
  pub touched : ℕ
  pub left_alone : ℕ
  pub matched : List String

unfoldable pub add_feature : String → Feature → Declared → Declared
add_feature part_id f rest =
    let class = default_for part_id in
    record {
      features = fill class.triple f ∷ rest.features;
      touched = if lacks_some f then suc rest.touched else rest.touched;
      left_alone = if lacks_some f then rest.left_alone else suc rest.left_alone;
      matched = class.label ∷ rest.matched;
    }

-- One turn of the loop, before what the turns after it give.
abbrev pub declare_next :
    Option String → Feature → Result RegistryError Declared → Result RegistryError Declared
declare_next none f rest = raise key_error
declare_next (some part_id) f rest = do r ← rest; ok (add_feature part_id f r)

unfoldable pub apply_defaults : List Feature → Result RegistryError Declared
apply_defaults [] = ok (record { features = []; touched = 0; left_alone = 0; matched = [] })
apply_defaults (f ∷ fs) = declare_next f.id f (apply_defaults fs)
