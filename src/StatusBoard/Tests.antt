-- ===== src/StatusBoard/Tests.antt =====
-- A server on which the goal is recorded and a lawful registry stands, and no substrate.
use ajit_segment_bots.Prelude.{◌≡◌, ◌≢◌, ◌↔◌, [], ◌∷◌, true, some, none, raise, codes}
use ajit_segment_bots.Contracts.{is_nonempty, load_feature_registry}
use ajit_segment_bots.Contracts.Sample.{sample_registry, registry_lawful}
use ajit_segment_bots.Contracts.Whole.{IsLawful, find_contract_violations-nil_iff}
use ajit_segment_bots.StatusBoard.{Server}
use ajit_segment_bots.StatusBoard.Board.{run_all_probes, stage_of, blueprint_exists}
use ajit_segment_bots.StatusBoard.Verdict.{stage_of-run_all_probes}

abbrev server : Server
server = record {
  project_home = "/home/bots";
  home_exists = true;
  entries = codes "docs" ∷ codes ".git" ∷ [];
  instructions = some (codes "one\ntwo\n");
  aliases = none;
  bashrc = none;
  goal = some (codes "- why\n");
  git_on_path = true;
  branch = some "main";
  remote = none;
  hooks_path = some ".githooks";
  checker_is_file = true;
  hook_is_executable = true;
  registry_is_file = true;
  raw_registry = some sample_registry;
  processes = (7, some (codes "/home/bots/part")) ∷ (8, none) ∷ [];
  own_pids = 9 ∷ [];
  server_load = raise "ValueError";
  server_memory = raise "ValueError";
  server_disk = raise "OSError";
  substrate = none;
}

sample-IsLawful : IsLawful sample_registry
sample-IsLawful = (find_contract_violations-nil_iff sample_registry).0 registry_lawful

stage_of-run_all_probes_example : (stage_of (run_all_probes server) ≡ blueprint_exists) ↔ (
    (server.goal ≢ none)
    × (server.registry_is_file ≡ true)
    × (is_nonempty sample_registry.categories ≡ true)
    × (is_nonempty sample_registry.features ≡ true))
unfolding load_feature_registry
stage_of-run_all_probes_example =
    stage_of-run_all_probes server sample-IsLawful.edges sample-IsLawful.derives
