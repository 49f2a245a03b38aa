-- ===== src/StatusBoard.antt =====
-- dashboard/build_status_board.py: the tiles of the status board, their tally and the headline. What
-- the file system, git, /proc and the registry's file answer is a `Server`; a probe that raises gives
-- the class of its exception. The states are the substrate's own four.
pub mod Circuit
pub mod Host
pub mod Board
pub mod Verdict
pub mod Honest
mod Tests
use ajit_segment_bots.Prelude.{String, ℕ, Option, List, Bool, Text, Result}
use ajit_segment_bots.Contracts.{FeatureRegistry}
use ajit_segment_bots.Probes.{ProbeState, Machine}

pub record ProbeResult : Type 0 where
  pub label : String
  pub state : ProbeState
  pub value : String
  pub proof : String

-- A probe's tile, or the class of the exception that it raises.
abbrev pub Probed : Type 0
Probed = Result String ProbeResult

pub record Server : Type 0 where
  pub project_home : String
  -- Whether the home is a directory, and the names in it.
  pub home_exists : Bool
  pub entries : List Text
  -- The texts of files, none of a file that is absent.
  pub instructions : Option Text
  pub aliases : Option Text
  pub bashrc : Option Text
  pub goal : Option Text
  -- git: whether it is on the path, and what the three commands put out, none where they fail.
  pub git_on_path : Bool
  pub branch : Option String
  pub remote : Option String
  pub hooks_path : Option String
  pub checker_is_file : Bool
  pub hook_is_executable : Bool
  -- The registry's file, and what `json.loads` gives of it.
  pub registry_is_file : Bool
  pub raw_registry : Option FeatureRegistry
  -- /proc: the numbers of the processes with their command lines, none of one that cannot be read.
  pub processes : List (ℕ × Option Text)
  pub own_pids : List ℕ
  -- The three probes that compare floats.
  pub server_load : Probed
  pub server_memory : Probed
  pub server_disk : Probed
  -- What the substrate's probes ask, none where their package is not importable.
  pub substrate : Option Machine
