-- ===== src/Contracts/Sample.antt =====
-- A small registry that breaks no rule.
use ajit_segment_bots.Contracts.Rules.{
  feature_violations, features_violations, is_feature, names_two, report_each, report_wires,
  required_feature_fields,
}
use ajit_segment_bots.Contracts.Edges.{derive_edges, edges_of_types, edges_to}
use ajit_segment_bots.Contracts.Check.{
  context, crosses_peers, find_contract_violations, gather, category_of,
}
use ajit_segment_bots.Contracts.{Feature, FeatureRegistry}
use ajit_segment_bots.Prelude.{[], contains, none, ok, refl, some, true, ◌∷◌, ◌≡◌}

abbrev pub sample_reader : Feature
sample_reader = record {
  id = some "reader";
  name = some "Reader";
  role = some "Reads ticks";
  category = some "feed";
  consumes = some [];
  produces = some ("tick" ∷ []);
  switchable = some true;
  off_releases_resources = some true;
  states = some ("on" ∷ "off" ∷ []);
  resource_class = some "io-bound";
  rate_risk = some "latency-only";
  skipped_tick_effect = some "delays";
  controls = none;
}

abbrev pub sample_keeper : Feature
sample_keeper = record sample_reader {
  id = some "keeper";
  name = some "Keeper";
  role = some "Keeps ticks";
  consumes = some ("tick" ∷ []);
  produces = some [];
}

abbrev pub sample_registry : FeatureRegistry
sample_registry = record {
  categories =
      record {
        category_id = "feed";
        category_name = none;
        origin = some "user";
        flow_origin = some "proposed";
        peer_group = none;
        consumes = none;
        produces = none;
      }
      ∷ [];
  data_types = "tick" ∷ [];
  features = sample_reader ∷ sample_keeper ∷ [];
  state_vocabulary = "on" ∷ "off" ∷ [];
}

pub registry_lawful : find_contract_violations sample_registry ≡ ok []
unfolding find_contract_violations derive_edges edges_to edges_of_types features_violations
    feature_violations report_each report_wires context gather crosses_peers contains is_feature
    names_two required_feature_fields category_of
registry_lawful = refl
