-- ===== src/Probes.antt =====
-- runtime/probes/substrate_probes.py: the six facts that the substrate measures of itself. What the
-- interpreter, the kernel and the disk answer is a `Machine`; an exception is its class and its text,
-- and a `try` catches the classes that the source names. `PYPROJECT_PATH` is the path of the project's
-- file; a text that is read is a list of code points.
pub mod Pinned
pub mod Readings
pub mod Facts
pub mod Search
pub mod Backed
pub mod Forkable
mod Tests
use ajit_segment_bots.Part.{raised}
use ajit_segment_bots.Prelude.{
  ◌≡◌, refl, ◌&&◌, ◌||◌, ℕ, ◌+◌, ◌==◌, Bool, true, false, not, List, [], ◌∷◌, Option, none, some,
  String, Text, Result, ok, raise, ◌>>=◌, if◌then◌else◌, keep_if, leb, length, str_eq, is_none,
  contains,
}
use Prim.Native.String.{◌++◌}
use ajit_segment_bots.Dict
use ajit_segment_bots.Dict.{Dict, get}
use ajit_segment_bots.Settings.{
  TomlValue, Fields, end, Platform, decimal, boolean, field, integer, printed, table, text,
}
use ajit_segment_bots.Store.{JournalEntry, SettingRow, Connection}
use ajit_segment_bots.Hardware.{FactError}
use ajit_segment_bots.Launcher.{StatError}

pub data ProbeState : Type 0 where
  state_ok state_not_built state_failing state_not_measured : ProbeState

pub record SubstrateProbeResult : Type 0 where
  pub label : String
  pub state : ProbeState
  pub value : String
  pub proof : String

-- The exceptions, as far as a clause of the source tells them apart.
pub data Exception : Type 0 where
  os_error : String → Exception
  store_error : String → Exception
  uncaught : String → String → Exception

-- A pool of threads that threadpoolctl reports.
pub record Pool : Type 0 where
  pub num_threads : Option ℕ
  pub internal_api : String

pub record Machine : Type 0 where
  -- `sysconfig.get_config_var` as a truth value, and `sys.version_info`.
  pub gil_disabled : Option Bool
  pub major : ℕ
  pub minor : ℕ
  pub micro : ℕ
  -- The project's file: its path, what reading it gives, and `tomllib.loads` of a text.
  pub pyproject_path : String
  pub pyproject : Result Exception String
  pub loads_text : String → Result String (Dict TomlValue)
  -- The values of the decimal digits, which `\d` matches.
  pub digit_of : ℕ → Option ℕ
  -- The operator's file: its path, what reading it gives, its parser, and the clock.
  pub platform : Platform
  pub runtime_toml : String
  pub runtime_toml_is_file : Bool
  pub runtime_body : Result String (List ℕ)
  pub now : ℕ
  -- Python's `repr` of a text.
  pub repr : String → String
  -- Whether an int is at most a value that is no int: none is the TypeError.
  pub at_most_other : ℕ → TomlValue → Option Bool
  -- The kernel's text on this process, and Python's `int`.
  pub stat : Option Text
  pub int_of : Text → Option ℕ
  pub stat_message : StatError → String
  -- Whether threadpoolctl is imported, and what it reports.
  pub threadpoolctl : Result String (Result String (List Pool))
  -- The directory of the state, the store in it, and SQLite's answers.
  pub state_directory : String
  pub state_directory_exists : Bool
  pub is_durable : Bool
  pub volatile_message : String
  pub milliseconds_of : TomlValue → Result Exception ℕ
  pub tables : Option (List JournalEntry × List SettingRow)
  pub journal_mode_of : Connection → Result Exception String
  -- The kernel's texts on the hardware.
  pub cpuinfo : Result Exception Text
  pub meminfo : Result Exception Text
  pub cpu_count : Option ℕ
  pub numa_node_count : ℕ
  pub fact_message : FactError → String

abbrev pub tile : String → String → ProbeState → String → SubstrateProbeResult
tile name evidence s v = record { label = name; state = s; value = v; proof = evidence }

-- One turn of the loop: a probe that raises is unmeasured.
unfoldable pub run_probe : String → Result Exception SubstrateProbeResult → SubstrateProbeResult
run_probe name (ok result) = result
run_probe name (raise (os_error failure)) =
    tile name name state_not_measured ("probe raised OSError: " ++ failure)
run_probe name (raise (store_error failure)) =
    tile name name state_not_measured ("probe raised Error: " ++ failure)
run_probe name (raise (uncaught class_name failure)) =
    tile name name state_not_measured ("probe raised " ++ class_name ++ ": " ++ failure)

-- Whether Python takes a parsed value as false.
unfoldable pub is_falsy : TomlValue → Bool
is_falsy (TomlValue.text s) = str_eq s ""
is_falsy (TomlValue.integer _ n) = n == 0
is_falsy (TomlValue.boolean b) = not b
is_falsy (TomlValue.printed s) = contains ("[]" ∷ "0.0" ∷ "-0.0" ∷ []) s
is_falsy (TomlValue.table _ end) = true
is_falsy (TomlValue.table _ (Fields.field _ _ _)) = false
