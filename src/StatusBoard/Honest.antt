-- ===== src/StatusBoard/Honest.antt =====
-- The tile on the flow contract against the rules of the contract.
use ajit_segment_bots.Prelude.{◌≡◌, ◌≢◌, ◌↔◌, String, List, [], ◌∷◌, true, Result, ok, raise}
use ajit_segment_bots.Contracts.{FeatureRegistry, is_nonempty, has_declared_flow}
use ajit_segment_bots.Contracts.Edges.{RegistryError}
use ajit_segment_bots.Contracts.Rules.{Violation}
use ajit_segment_bots.Contracts.Check.{find_contract_violations}
use ajit_segment_bots.Contracts.Whole.{IsLawful}
use ajit_segment_bots.Probes.{state_ok, state_failing, ProbeState}
use ajit_segment_bots.StatusBoard.{ProbeResult}
use ajit_segment_bots.StatusBoard.Circuit.{judge_flow}
use ajit_segment_bots.StatusBoard.Board.{run_one}

abbrev flow_name : String
flow_name = "probe_flow_contract"

module _ (registry : FeatureRegistry) where
  abbrev tile_of : ProbeResult
  tile_of = run_one flow_name (judge_flow registry)

  -- What the tile says when no violation is found, and when one is, and when the checker raises.
  abbrev Says : Result RegistryError (List Violation) → Type 0
  Says (raise e) = (tile_of.state ≢ state_ok) × (tile_of.state ≢ state_failing)
  Says (ok []) =
      ((tile_of.state ≡ state_ok)
        ↔ ((has_declared_flow registry ≡ true) × (is_nonempty registry.features ≡ true)))
      × (tile_of.state ≢ state_failing)
  Says (ok (v ∷ vs)) =
      ((tile_of.state ≡ state_failing) ↔ (has_declared_flow registry ≡ true))
      × (tile_of.state ≢ state_ok)

  -- A tile is OK and FAILING on these conditions.
  abbrev pub IsFlowTile : ProbeState → Type 0
  IsFlowTile state =
      ((state ≡ state_ok) ↔ (
        (has_declared_flow registry ≡ true)
        × (is_nonempty registry.features ≡ true)
        × IsLawful registry))
      × ((state ≡ state_failing) ↔ (
          (has_declared_flow registry ≡ true)
          × ((v : Violation) × (vs : List Violation) × (find_contract_violations registry
                ≡ ok (v ∷ vs)))))
