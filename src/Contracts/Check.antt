-- ===== src/Contracts/Check.antt =====
-- `find_contract_violations` as a whole: the context, the loop over the features, and the rule on
-- peer blocks over the derived edges; then the exit status of dashboard/check_contracts.py.
use ajit_segment_bots.Contracts.Edges.{Edge, RegistryError, derive_edges, is_health}
use ajit_segment_bots.Contracts.Rules.{
  Context, Violation, features_violations, is_empty, peer_wire, report_each, is_feature,
}
use ajit_segment_bots.Contracts.{Category, Feature, FeatureRegistry, equal_option, get_or}
use ajit_segment_bots.Prelude.{
  ℕ, String, Bool, ◌&&◌, ◌++◌, List, Option, Result, [], contains, false, if◌then◌else◌, map, none,
  not, ok, some, str_eq, ◌>>=◌, ◌∷◌,
}

unfoldable pub gather {ℓ} : {A : Type ℓ} → (A → Option (List String)) → List A → List String
gather part [] = []
gather part (x ∷ xs) = get_or (part x) [] ++ gather part xs

unfoldable pub context : FeatureRegistry → Context
context registry = record {
  known_types = registry.data_types;
  known_categories = map (λ c. c.category_id) registry.categories;
  known_features = map (λ f. f.id) registry.features;
  vocabulary = registry.state_vocabulary;
  produced =
      gather (λ (f : Feature). f.produces) registry.features
      ++ gather (λ (c : Category). c.produces) registry.categories;
  consumed =
      gather (λ (f : Feature). f.consumes) registry.features
      ++ gather (λ (c : Category). c.consumes) registry.categories;
}

-- `{f.get("id"): f.get("category") ...}`, where a later feature of the same id wins, and `.get`.
unfoldable pub category_of : List Feature → String → Option String
category_of [] k = none
category_of (f ∷ fs) k =
    let later_one = category_of fs k in
    if is_feature (map (λ g. g.id) fs) k
    then later_one
    else if equal_option f.id (some k)
    then f.category
    else none

-- `{c["id"]: c.get("peer_group") ...}` and `.get`.
unfoldable pub peer_group_of : List Category → Option String → Option String
peer_group_of cs none = none
peer_group_of [] (some k) = none
peer_group_of (c ∷ cs) (some k) =
    let later_one = peer_group_of cs (some k) in
    if contains (map (λ d. d.category_id) cs) k
    then later_one
    else if str_eq c.category_id k
    then c.peer_group
    else none

abbrev pub is_truthy : Option String → Bool
is_truthy none = false
is_truthy (some s) = not (str_eq s "")

module _ (registry : FeatureRegistry) where
  unfoldable pub crosses_peers : Edge → Bool
  crosses_peers e =
      let pc = category_of registry.features e.producer_id in
      let cc' = category_of registry.features e.consumer_id in
      not (is_health e)
      && (not (equal_option pc cc')
          && (is_truthy (peer_group_of registry.categories pc)
              && equal_option (peer_group_of registry.categories pc)
                  (peer_group_of registry.categories cc')))

  unfoldable pub find_contract_violations : Result RegistryError (List Violation)
  find_contract_violations = do
    edges ← derive_edges registry
    ok (
        features_violations (context registry) registry.features
        ++ report_each crosses_peers (λ e. peer_wire e.producer_id e.consumer_id e.type_id) edges)

  -- The exit status of `report_contract_violations`.
  unfoldable pub report_contract_violations : Result RegistryError ℕ
  unfolding find_contract_violations
  report_contract_violations = do
    violations ← find_contract_violations
    ok (if is_empty registry.features then 0 else if is_empty violations then 0 else 1)
