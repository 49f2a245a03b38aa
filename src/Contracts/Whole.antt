-- ===== src/Contracts/Whole.antt =====
-- The checker as a whole: an empty report, the exit status, and the counts of edges.
use ajit_segment_bots.Contracts.Reports.{append-eq-nil_iff}
use ajit_segment_bots.Contracts.Check.{context, crosses_peers, find_contract_violations}
use ajit_segment_bots.Contracts.Lawful.{
  IsLawfulFeature, feature_violations-nil, nil-feature_violations,
}
use ajit_segment_bots.Contracts.Peers.{JoinsPeers, none_joins}
use ajit_segment_bots.Contracts.{Feature, FeatureRegistry}
use ajit_segment_bots.Contracts.Edges.{
  Edge, RegistryError, count_data_edges, count_derived_edges, count_health_edges, derive_edges,
  is_data, is_health,
}
use ajit_segment_bots.Contracts.Rules.{
  Context, Violation, feature_violations, features_violations, peer_wire, report_each,
}
use ajit_segment_bots.Prelude.{
  Bool, ◌+◌, All, List, Result, [], ap, arith, false, keep_if, length, ok, raise, refl, ◌>>=◌, ◌↔◌,
  ◌∷◌, ◌≡◌,
}

-- The ids that the derivation needs are there, every feature keeps the rules on single features,
-- and no edge but one that carries health joins two peer blocks.
pub record IsLawful (registry : FeatureRegistry) : Type 0 where
  pub edges : List Edge
  pub derives : derive_edges registry ≡ ok edges
  pub features : All (IsLawfulFeature (context registry)) registry.features
  pub peers : All (λ e. ¬ JoinsPeers registry e) edges

nil-features :
    (ctx : Context) (fs : List Feature)
    → features_violations ctx fs ≡ []
    → All (IsLawfulFeature ctx) fs
unfolding features_violations
nil-features ctx [] h = tt
nil-features ctx (f ∷ fs) h =
    let parts = (append-eq-nil_iff (feature_violations ctx f) (features_violations ctx fs)).0 h in
    (feature_violations-nil ctx f parts.0, nil-features ctx fs parts.1)

features-nil :
    (ctx : Context) (fs : List Feature)
    → All (IsLawfulFeature ctx) fs
    → features_violations ctx fs ≡ []
unfolding features_violations
features-nil ctx [] h = refl
features-nil ctx (f ∷ fs) h =
    (append-eq-nil_iff (feature_violations ctx f) (features_violations ctx fs)).1
      (nil-feature_violations ctx f h.0, features-nil ctx fs h.1)

module _ (fails : Edge → Bool) (violation : Edge → Violation) where
  edges-nil : (es : List Edge) → report_each fails violation es ≡ [] → All (λ e. fails e ≡ false) es
  unfolding report_each
  edges-nil [] h = tt
  edges-nil (e ∷ es) h = (ground arith, edges-nil es (ground arith))

  nil-edges : (es : List Edge) → All (λ e. fails e ≡ false) es → report_each fails violation es ≡ []
  unfolding report_each
  nil-edges [] h = refl
  nil-edges (e ∷ es) h = ground (arith, h.0, nil-edges es h.1)

module _ (registry : FeatureRegistry) where
  abbrev wire : Edge → Violation
  wire e = peer_wire e.producer_id e.consumer_id e.type_id

  with_edges :
      (r : Result RegistryError (List Edge))
      → derive_edges registry ≡ r
      → find_contract_violations registry ≡ ok []
      → IsLawful registry
  unfolding find_contract_violations
  with_edges (raise e) d h = absurd (ground (arith, d, h))
  with_edges (ok es) d h =
      let parts =
        (append-eq-nil_iff (features_violations (context registry) registry.features)
            (report_each (crosses_peers registry) wire es)).0
          (ground (arith, d, h)) in
      record {
        edges = es;
        derives = d;
        features = nil-features (context registry) registry.features parts.0;
        peers = (none_joins registry es).0 (edges-nil (crosses_peers registry) wire es parts.1);
      }

  pub find_contract_violations-nil_iff :
      (find_contract_violations registry ≡ ok []) ↔ IsLawful registry
  unfolding find_contract_violations
  find_contract_violations-nil_iff = (
    with_edges (derive_edges registry) refl,
    λ l. rw l.derives (
        ap ok (
          (append-eq-nil_iff (features_violations (context registry) registry.features)
              (report_each (crosses_peers registry) wire l.edges)).1
            (
              features-nil (context registry) registry.features l.features,
              nil-edges (crosses_peers registry) wire l.edges
                  ((none_joins registry l.edges).1 l.peers),
            ))),
  )

length-split :
    (es : List Edge) → length es ≡ length (keep_if is_data es) + length (keep_if is_health es)
unfolding keep_if
length-split [] = refl
length-split (e ∷ es) = ground (arith, length-split es)

split_by :
    (registry : FeatureRegistry) (r : Result RegistryError (List Edge))
    → derive_edges registry ≡ r
    → count_derived_edges registry ≡ (do
      data_edges ← count_data_edges registry
      health_edges ← count_health_edges registry
      ok (data_edges + health_edges))
unfolding count_derived_edges count_data_edges count_health_edges
split_by registry (raise e) h = ground (arith, h)
split_by registry (ok es) h = ground (arith, h, length-split es)

-- The data edges and the health edges together are all the derived edges, and the three counts raise
-- together.
pub count_derived_edges-split :
    (registry : FeatureRegistry)
    → count_derived_edges registry ≡ (do
      data_edges ← count_data_edges registry
      health_edges ← count_health_edges registry
      ok (data_edges + health_edges))
count_derived_edges-split registry = split_by registry (derive_edges registry) refl
