-- ===== src/Declaration/Tests.antt =====
-- Loading at a small registry.
use ajit_segment_bots.Contracts.Sample.{sample_registry, registry_lawful}
use ajit_segment_bots.Declaration.Blueprint.{load_declaration-lawful}
use ajit_segment_bots.Contracts.Rules.{is_feature}
use ajit_segment_bots.Declaration.{
  PartDeclaration, declaration_of, delays, io_bound, latency_only, load_declaration_from_blueprint,
  parse_rate_risk, parse_resource_class, parse_skipped_tick_effect,
}
use ajit_segment_bots.Prelude.{[], ok, refl, ◌∷◌, ◌≡◌}

keeper_loads :
    load_declaration_from_blueprint sample_registry.features "keeper"
    ≡ ok (record {
      part_id = "keeper";
      consumes = "tick" ∷ [];
      produces = [];
      resource_class = io_bound;
      rate_risk = latency_only;
      skipped_tick_effect = delays;
    })
unfolding load_declaration_from_blueprint declaration_of parse_resource_class parse_rate_risk
    parse_skipped_tick_effect
keeper_loads = refl

load_declaration-lawful_example :
    (d : PartDeclaration) × (load_declaration_from_blueprint sample_registry.features "keeper"
      ≡ ok d)
    × (d.part_id ≡ "keeper")
unfolding is_feature
load_declaration-lawful_example =
    load_declaration-lawful sample_registry "keeper" registry_lawful refl
