-- ===== src/StatusBoard/Host.antt =====
-- The probes that read files, git and /proc.
use ajit_segment_bots.Prelude.{
  ℕ, String, List, [], ◌∷◌, Bool, true, false, not, ◌&&◌, ◌||◌, if◌then◌else◌, Option, some, none,
  ok, length, keep_if, Text, codes, lines, starts_with, str_eq, ◌==◌, is_some,
}
use Prim.Native.String.{◌++◌}
use ajit_segment_bots.Settings.{decimal}
use ajit_segment_bots.Contracts.Rules.{has_part}
use ajit_segment_bots.Probes.{state_ok, state_not_built, state_failing, state_not_measured}
use ajit_segment_bots.StatusBoard.{ProbeResult, Probed, Server}
use ajit_segment_bots.StatusBoard.Circuit.{tile}

-- A text that is there and not empty.
abbrev pub said : Option String → Option String
said none = none
said (some s) = if str_eq s "" then none else some s

has_text : Text → Option Text → Bool
has_text part none = false
has_text part (some s) = has_part part s

abbrev has_pid : List ℕ → ℕ → Bool
has_pid [] n = false
has_pid (p ∷ ps) n = p == n || has_pid ps n

unfoldable pub judge_git : Bool → Option String → Option String → String → ProbeResult
judge_git false branch remote proof =
    tile "Git repository" proof state_not_measured "git not on PATH"
judge_git true none remote proof = tile "Git repository" proof state_not_built "not a repository"
judge_git true (some b) none proof = tile "Git repository" proof state_failing (b ++ ", no remote")
judge_git true (some b) (some r) proof = tile "Git repository" proof state_ok (b ++ " to " ++ r)

unfoldable pub judge_startup : Option Text → Option Text → ProbeResult
unfolding has_text
judge_startup aliases bashrc =
    let startup_tile =
      tile "Claude startup directory"
        "grep AJIT_SEGMENT_BOTS_HOME ~/.bash_aliases; grep bash_aliases ~/.bashrc" in
    let defines_function = has_text (codes "AJIT_SEGMENT_BOTS_HOME") aliases in
    let is_sourced = has_text (codes "bash_aliases") bashrc in
    if not (is_some aliases)
    then startup_tile state_not_built "no ~/.bash_aliases"
    else if defines_function && is_sourced
    then startup_tile state_ok "function installed and sourced"
    else if defines_function
    then startup_tile state_failing "defined but not sourced"
    else startup_tile state_not_built "function absent"

unfoldable pub judge_enforcement : Bool → Bool → Option String → ProbeResult
judge_enforcement checker_is_file hook_is_executable hooks_path =
    let hook_tile =
      tile "Contract enforcement" "test -x .githooks/pre-commit; git config core.hooksPath" in
    if not checker_is_file
    then hook_tile state_not_built "no checker"
    else if not hook_is_executable
    then hook_tile state_failing "checker present, hook missing"
    else elim hooks_path [
      | none ↦ hook_tile state_failing "hook present, git not pointed at it"
      | some path ↦
          if str_eq path ".githooks"
          then hook_tile state_ok "pre-commit hook armed"
          else hook_tile state_failing "hook present, git not pointed at it"
    ]

unfoldable pub judge_goal : Option Text → String → ProbeResult
judge_goal none proof = tile "Goal" proof state_not_built "not given yet"
judge_goal (some body) proof =
    let open_questions = length (keep_if (starts_with (codes "- ")) (lines body)) in
    tile "Goal" proof state_ok ("recorded, " ++ decimal open_questions ++ " open questions")

judge_instructions : Option Text → String → ProbeResult
judge_instructions none proof = tile "Project CLAUDE.md" proof state_not_built "absent"
judge_instructions (some body) proof =
    tile "Project CLAUDE.md" proof state_ok (decimal (length (lines body)) ++ " lines")

module _ (server : Server) where
  unfoldable pub probe_project_home : Probed
  probe_project_home =
      let proof = "test -d " ++ server.project_home in
      let entries = keep_if (λ (name : Text). not (starts_with (codes ".") name)) server.entries in
      ok (
        if server.home_exists
        then tile "Project home" proof state_ok (decimal (length entries) ++ " entries")
        else tile "Project home" proof state_failing "missing")

  unfoldable pub probe_project_instructions : Probed
  unfolding judge_instructions
  probe_project_instructions =
      ok (judge_instructions server.instructions ("wc -l " ++ server.project_home ++ "/CLAUDE.md"))

  unfoldable pub probe_claude_startup_directory : Probed
  unfolding judge_startup
  probe_claude_startup_directory = ok (judge_startup server.aliases server.bashrc)

  unfoldable pub probe_git_repository : Probed
  unfolding judge_git
  probe_git_repository = ok (
      judge_git server.git_on_path (said server.branch) (said server.remote)
        ("git -C " ++ server.project_home ++ " rev-parse --abbrev-ref HEAD"))

  unfoldable pub probe_goal_definition : Probed
  unfolding judge_goal
  probe_goal_definition =
      ok (judge_goal server.goal ("wc -l " ++ server.project_home ++ "/docs/goal.md"))

  unfoldable pub probe_contract_enforcement : Probed
  unfolding judge_enforcement
  probe_contract_enforcement =
      ok (judge_enforcement server.checker_is_file server.hook_is_executable server.hooks_path)

  -- Whether a process is one of this project's, and not the generator.
  unfoldable pub is_running_part : ℕ × Option Text → Bool
  is_running_part (pid, none) = false
  is_running_part (pid, some cmdline) =
      not (has_pid server.own_pids pid)
      && (has_part (codes server.project_home) cmdline
          && not (has_part (codes "build_status_board.py") cmdline))

  judge_matches : List (ℕ × Option Text) → ProbeResult
  judge_matches [] =
      tile "Running processes" "scan /proc/*/cmdline for the project home, excluding this generator"
        state_not_built "none — nothing to run yet"
  judge_matches (p ∷ matches) =
      tile "Running processes" "scan /proc/*/cmdline for the project home, excluding this generator"
        state_ok (decimal (length (p ∷ matches)) ++ " running")

  unfoldable pub probe_running_processes : Probed
  unfolding judge_matches
  probe_running_processes = ok (judge_matches (keep_if is_running_part server.processes))
