-- ===== src/Contracts/Tests.antt =====
-- The checker at a small registry.
use ajit_segment_bots.Contracts.Flow.{IsClosed, find_flow_gaps, find_flow_gaps-nil_iff}
use ajit_segment_bots.Contracts.{Category}
use ajit_segment_bots.Contracts.Sample.{sample_keeper, sample_reader, sample_registry}
use ajit_segment_bots.Contracts.Rules.{
  feature_violations, features_violations, is_feature, names_two, report_each, report_wires,
  required_feature_fields,
}
use ajit_segment_bots.Contracts.Edges.{derive_edges, edges_of_types, edges_to}
use ajit_segment_bots.Contracts.Check.{
  category_of, context, crosses_peers, find_contract_violations, gather,
}
use ajit_segment_bots.Prelude.{[], arith, contains, none, ok, some, ◌↔◌, ◌∷◌, ◌≡◌, ◌≢◌, All}

-- A part that is not a switch, and that names a part instead of a data type.
broken :
    find_contract_violations (record sample_registry {
      features =
          record sample_keeper { switchable = none; consumes = some ("reader" ∷ []) }
          ∷ sample_reader
          ∷ [];
    })
    ≢ ok []
unfolding find_contract_violations derive_edges edges_to edges_of_types features_violations
    feature_violations report_each report_wires context gather crosses_peers contains is_feature
    names_two required_feature_fields category_of
broken h = ground (arith, h)

find_flow_gaps-nil_iff_example :
    (find_flow_gaps sample_registry ≡ [])
    ↔ All
        (IsClosed
          (gather (λ (c : Category). c.produces) sample_registry.categories)
          (gather (λ (c : Category). c.consumes) sample_registry.categories))
        sample_registry.categories
find_flow_gaps-nil_iff_example = find_flow_gaps-nil_iff sample_registry
