-- ===== src/Edits/Tests.antt =====
-- A registry of a reader, a lock and the three parts that are corrected.
use ajit_segment_bots.Prelude.{
  ◌≡◌, refl, true, false, List, [], ◌∷◌, none, some, String, ok, contains, All, split_on, text_eq,
}
use ajit_segment_bots.Contracts.{Feature}
use ajit_segment_bots.Contracts.Sample.{sample_reader}
use ajit_segment_bots.Edits.Defaults.{Declared, apply_defaults, default_for, meets, is_token, fill}
use ajit_segment_bots.Edits.Corrections.{
  Correction, Corrected, corrections, correct_from, apply_corrections, feature_of, ids_of, part_ids,
}
use ajit_segment_bots.Edits.Kept.{HoldsIn, kept_as_is, apply_corrections_lem}
use ajit_segment_bots.Edits.Settle.{unchanged, apply_defaults_settles}
use ajit_segment_bots.Edits.Ladder.{LoadsAs, is_throttleable, default_for-LoadsAs}

abbrev bare : String → Feature
bare i = record sample_reader {
  id = some i;
  resource_class = none;
  rate_risk = none;
  skipped_tick_effect = none;
}

abbrev registry_ids : List String
registry_ids =
    "news-reader" ∷ "fund-lock-ledger" ∷ "leverage-selector" ∷ "tail-trailing-exit-planner"
    ∷ "forecast-distribution-gate" ∷ []

abbrev bare_features : List Feature
bare_features =
    bare "news-reader"
    ∷ bare "fund-lock-ledger"
    ∷ bare "leverage-selector"
    ∷ bare "tail-trailing-exit-planner"
    ∷ bare "forecast-distribution-gate"
    ∷ []

ids_read : ids_of bare_features ≡ ok registry_ids
unfolding ids_of
ids_read = refl

corrections-All : All (λ (c : Correction). contains registry_ids c.part_id ≡ true) corrections
unfolding contains
corrections-All = (refl, (refl, (refl, tt)))

not_corrected : contains (part_ids corrections) "news-reader" ≡ false
unfolding contains
not_corrected = refl

apply_corrections_lem_example :
    (d : Corrected) × (apply_corrections bare_features ≡ ok d)
    × All (HoldsIn d.features) corrections
    × (feature_of "news-reader" d.features ≡ feature_of "news-reader" bare_features)
    × (apply_corrections d.features ≡ ok (kept_as_is corrections d.features))
apply_corrections_lem_example =
    apply_corrections_lem bare_features registry_ids "news-reader" ids_read corrections-All
      not_corrected

apply_defaults_settles_example :
    (d : Declared) × (apply_defaults bare_features ≡ ok d)
    × (apply_defaults (correct_from corrections d.features).features
        ≡ ok (unchanged (correct_from corrections d.features).features))
apply_defaults_settles_example =
    apply_defaults_settles bare_features registry_ids corrections ids_read

default_for-LoadsAs_example :
    LoadsAs "fund-lock-ledger"
      (fill (default_for "fund-lock-ledger").triple (bare "fund-lock-ledger"))
      (is_throttleable "fund-lock-ledger")
default_for-LoadsAs_example =
    default_for-LoadsAs "fund-lock-ledger" (bare "fund-lock-ledger") [] ("tick" ∷ []) refl refl refl
      refl refl

-- A lock is not let into the rate ladder, and a ledger is.
lock_refused : is_throttleable "fund-lock-ledger" ≡ false
unfolding contains
lock_refused = refl

ledger_let_in : is_throttleable "trade-ledger" ≡ true
unfolding contains meets is_token split_on text_eq
ledger_let_in = refl
