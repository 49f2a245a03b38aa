-- ===== src/StatusBoard/Board.antt =====
-- The run of all probes, the tally, the headline, and the two groups of tiles.
use ajit_segment_bots.Probes.Readings.{run_all_substrate_probes}
use ajit_segment_bots.Prelude.{
  ℕ, String, List, [], ◌∷◌, Bool, true, false, not, if◌then◌else◌, Option, some, none, ok, raise,
  length, keep_if, str_eq, ◌==◌, take, drop, map,
}
use mathlib.Core.List.{◌++◌ as append}
use Prim.Native.String.{◌++◌}
use ajit_segment_bots.Settings.{decimal}
use ajit_segment_bots.Probes.{
  ProbeState, SubstrateProbeResult, state_ok, state_not_built, state_failing, state_not_measured,
  Machine,
}
use ajit_segment_bots.StatusBoard.{ProbeResult, Probed, Server}
use ajit_segment_bots.StatusBoard.Circuit.{
  tile, probe_architecture_blueprint, probe_declared_categories, probe_defined_features,
  probe_flow_contract,
}
use ajit_segment_bots.StatusBoard.Host.{
  probe_project_home, probe_project_instructions, probe_claude_startup_directory,
  probe_git_repository, probe_goal_definition, probe_contract_enforcement, probe_running_processes,
}

abbrev pub state_eq : ProbeState → ProbeState → Bool
state_eq state_ok state_ok = true
state_eq state_not_built state_not_built = true
state_eq state_failing state_failing = true
state_eq state_not_measured state_not_measured = true
state_eq _ _ = false

-- One turn of the loop: a probe that raises is unmeasured.
unfoldable pub run_one : String → Probed → ProbeResult
run_one name (ok result) = result
run_one name (raise class_name) = tile name name state_not_measured ("probe raised " ++ class_name)

adapt : SubstrateProbeResult → ProbeResult
adapt result = record {
  label = result.label;
  state = result.state;
  value = result.value;
  proof = result.proof;
}

unfoldable pub collect_substrate_results : Option Machine → List ProbeResult
unfolding adapt
collect_substrate_results none =
    tile "Part runtime substrate" "import runtime.probes.substrate_probes" state_not_measured
      "runtime package not importable"
    ∷ []
collect_substrate_results (some machine) = map adapt (run_all_substrate_probes machine)

module _ (server : Server) where
  -- The names and the probes, in the order of `PROBES`.
  unfoldable pub probes : List (String × Probed)
  probes =
      ("probe_goal_definition", probe_goal_definition server)
      ∷ ("probe_architecture_blueprint", probe_architecture_blueprint server)
      ∷ ("probe_project_home", probe_project_home server)
      ∷ ("probe_project_instructions", probe_project_instructions server)
      ∷ ("probe_claude_startup_directory", probe_claude_startup_directory server)
      ∷ ("probe_git_repository", probe_git_repository server)
      ∷ ("probe_declared_categories", probe_declared_categories server)
      ∷ ("probe_contract_enforcement", probe_contract_enforcement server)
      ∷ ("probe_defined_features", probe_defined_features server)
      ∷ ("probe_flow_contract", probe_flow_contract server)
      ∷ ("probe_running_processes", probe_running_processes server)
      ∷ ("probe_server_load", server.server_load)
      ∷ ("probe_server_memory", server.server_memory)
      ∷ ("probe_server_disk", server.server_disk)
      ∷ []

  unfoldable pub run_all_probes : List ProbeResult
  run_all_probes =
      append (map (λ p. run_one p.0 p.1) probes) (collect_substrate_results server.substrate)

-- `sum(1 for r in results if r.state == state)`
unfoldable pub count_state : ProbeState → List ProbeResult → ℕ
count_state state results = length (keep_if (λ (r : ProbeResult). state_eq r.state state) results)

-- The chips of `render_tally`, in their order: the modifier, the count and the state.
unfoldable pub tally : List ProbeResult → List (String × ℕ × ProbeState)
unfolding count_state
tally results =
    let ok_count = count_state state_ok results in
    let fail_count = count_state state_failing results in
    (if ok_count == 0 then "" else "has-ok", ok_count, state_ok)
    ∷ ("", count_state state_not_built results, state_not_built)
    ∷ (if fail_count == 0 then "" else "has-fail", fail_count, state_failing)
    ∷ ("", count_state state_not_measured results, state_not_measured)
    ∷ []

unfoldable pub find_state : List ProbeResult → String → ProbeState
find_state [] label = state_not_measured
find_state (r ∷ results) label =
    let rest = find_state results label in if str_eq r.label label then r.state else rest

-- The stage that the headline names.
pub data Stage : Type 0 where
  no_goal no_blueprint blueprint_exists : Stage

abbrev pub stage_text : Stage → String
stage_text no_goal = "No goal has been given yet, so there is nothing to design against."
stage_text no_blueprint =
    "The goal is recorded and the blueprint is the current deliverable. It has not been drawn yet — the feature catalogue and the data-flow contract are still open questions the user has to answer, not defaults to be picked."
stage_text blueprint_exists =
    "The blueprint exists. Every tile below is measured against what is on the server."

unfoldable pub stage_of : List ProbeResult → Stage
stage_of results =
    if not (state_eq (find_state results "Goal") state_ok)
    then no_goal
    else if not (state_eq (find_state results "Architecture blueprint") state_ok)
    then no_blueprint
    else blueprint_exists

unfoldable pub compose_verdict : List ProbeResult → String
unfolding stage_of count_state
compose_verdict results =
    let stage = stage_text (stage_of results) in
    let failures = count_state state_failing results in
    if failures == 0
    then stage ++ " Anything unmeasured reads as its own state below, never as healthy."
    else decimal failures ++ " probe(s) failing. " ++ stage

-- The two groups of tiles of `render_board`, and the number that it shows.
unfoldable pub base_results : Server → List ProbeResult → List ProbeResult
base_results server results = take (length (probes server)) results

unfoldable pub substrate_results : Server → List ProbeResult → List ProbeResult
substrate_results server results = drop (length (probes server)) results
