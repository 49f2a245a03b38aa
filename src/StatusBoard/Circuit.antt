-- ===== src/StatusBoard/Circuit.antt =====
-- The probes that read the registry.
use ajit_segment_bots.Prelude.{
  ℕ, String, List, [], ◌∷◌, Bool, not, if◌then◌else◌, some, Result, ok, raise, ◌>>=◌, length,
  keep_if, ◌-◌, ◌==◌,
}
use Prim.Native.String.{◌++◌}
use ajit_segment_bots.Settings.{decimal}
use ajit_segment_bots.Contracts.{
  Category, FeatureRegistry, load_feature_registry, has_declared_flow, is_nonempty, equal_option,
}
use ajit_segment_bots.Contracts.Edges.{RegistryError, count_data_edges, count_health_edges, is_data}
use ajit_segment_bots.Contracts.Rules.{Violation}
use ajit_segment_bots.Contracts.Check.{find_contract_violations}
use ajit_segment_bots.Contracts.Flow.{derive_category_edges, find_flow_gaps}
use ajit_segment_bots.Probes.{
  ProbeState, state_ok, state_not_built, state_failing, state_not_measured,
}
use ajit_segment_bots.StatusBoard.{ProbeResult, Probed, Server}

abbrev pub tile : String → String → ProbeState → String → ProbeResult
tile name evidence s v = record { label = name; state = s; value = v; proof = evidence }

-- A name that is missing from the registry is a KeyError.
abbrev pub raised_by : {A : Type 0} → Result RegistryError A → Result String A
raised_by (ok a) = ok a
raised_by (raise e) = raise "KeyError"

count_block_edges : FeatureRegistry → ℕ
count_block_edges registry = length (keep_if is_data (derive_category_edges registry))

count_from_user : FeatureRegistry → ℕ
count_from_user registry =
    length (keep_if (λ (c : Category). equal_option c.origin (some "user")) registry.categories)

unfoldable pub blueprint_tile : ProbeState → String → ProbeResult
blueprint_tile = tile "Architecture blueprint" "render_mermaid_flowchart() over docs/features.json"

unfoldable pub drawn : FeatureRegistry → Probed
drawn registry = do
  data_edges ← raised_by (count_data_edges registry)
  health_edges ← raised_by (count_health_edges registry)
  ok (
      blueprint_tile state_ok (
        decimal (length registry.features)
        ++ " parts, "
        ++ decimal data_edges
        ++ " data edges, "
        ++ decimal health_edges
        ++ " health"))

unfoldable pub judge_blueprint : Bool → FeatureRegistry → Probed
unfolding drawn count_block_edges
judge_blueprint is_file registry =
    let stand = decimal (length registry.categories) ++ " blocks stand, flow not drawn" in
    let proposed =
      "block flow proposed, "
      ++ decimal (count_block_edges registry)
      ++ " edges, awaiting the user's verdict" in
    let whole = drawn registry in
    if not is_file
    then ok (blueprint_tile state_not_built "no registry to draw from")
    else if not (is_nonempty registry.categories)
    then ok (blueprint_tile state_not_built "no foundation blocks yet")
    else if is_nonempty registry.features
    then whole
    else if not (has_declared_flow registry)
    then ok (blueprint_tile state_not_built stand)
    else ok (blueprint_tile state_not_built proposed)

abbrev category_detail : FeatureRegistry → String
category_detail registry =
    let from_user = count_from_user registry in
    let proposed = length registry.categories - from_user in
    let detail =
      decimal (length registry.categories)
      ++ " declared, "
      ++ decimal from_user
      ++ " from the user" in
    if proposed == 0 then detail else detail ++ ", " ++ decimal proposed ++ " proposed"

unfoldable pub judge_categories : FeatureRegistry → ProbeResult
unfolding count_from_user
judge_categories registry =
    let categories_tile = tile "Foundation categories" "categories[] in docs/features.json" in
    if is_nonempty registry.categories
    then categories_tile state_ok (category_detail registry)
    else categories_tile state_not_built "none declared"

unfoldable pub judge_features : Bool → FeatureRegistry → ProbeResult
judge_features is_file registry =
    let features_tile = tile "Defined features" "features[] in docs/features.json" in
    if not is_file
    then features_tile state_not_built "no registry file"
    else if is_nonempty registry.features
    then features_tile state_ok (
        decimal (length registry.features)
        ++ " features, "
        ++ decimal (length registry.data_types)
        ++ " data types")
    else features_tile state_not_built "0 — awaiting the user's list"

unfoldable pub flow_tile : ProbeState → String → ProbeResult
flow_tile = tile "Flow contract" "find_contract_violations() in dashboard/render_blueprint.py"

unfoldable pub resolved : FeatureRegistry → Probed
resolved registry = do
  data_edges ← raised_by (count_data_edges registry)
  health_edges ← raised_by (count_health_edges registry)
  ok (
      flow_tile state_ok (
        decimal data_edges
        ++ " data edges, all resolved ("
        ++ decimal health_edges
        ++ " health emissions, counted apart)"))

-- What the probe makes of the violations.
unfoldable pub judge_violations : FeatureRegistry → List Violation → Probed
unfolding resolved count_block_edges
judge_violations registry (v ∷ violations) =
    ok (flow_tile state_failing (decimal (length (v ∷ violations)) ++ " violation(s)"))
judge_violations registry [] =
    let whole = resolved registry in
    if is_nonempty registry.features
    then whole
    else ok (
        flow_tile state_not_built (
          decimal (count_block_edges registry)
          ++ " block edges proposed, "
          ++ decimal (length (find_flow_gaps registry))
          ++ " gaps, 0 features"))

unfoldable pub judge_flow : FeatureRegistry → Probed
judge_flow registry =
    if has_declared_flow registry
    then (do
      violations ← raised_by (find_contract_violations registry)
      judge_violations registry violations)
    else ok (flow_tile state_not_measured "no flow declared between blocks")

module _ (server : Server) where
  abbrev pub registry_of : FeatureRegistry
  registry_of = load_feature_registry server.registry_is_file server.raw_registry

  unfoldable pub probe_architecture_blueprint : Probed
  unfolding judge_blueprint
  probe_architecture_blueprint = judge_blueprint server.registry_is_file registry_of

  unfoldable pub probe_declared_categories : Probed
  unfolding judge_categories
  probe_declared_categories = ok (judge_categories registry_of)

  unfoldable pub probe_defined_features : Probed
  unfolding judge_features
  probe_defined_features = ok (judge_features server.registry_is_file registry_of)

  unfoldable pub probe_flow_contract : Probed
  unfolding judge_flow
  probe_flow_contract = judge_flow registry_of
