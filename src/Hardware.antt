-- ===== src/Hardware.antt =====
-- runtime/hardware_facts.py: the kernel's texts, read into facts. What stands in /proc is a text.
-- `int_of` and `float_of` are Python's `int` and `float` of a text, none for the ValueError; a float
-- is of any type. The fields of a file are a dictionary by name, the last one set first.
pub mod Cores
pub mod Memory
mod Tests
use ajit_segment_bots.Placer.{PlacementError, read_process_cgroup, below_cgroup_root}
use ajit_segment_bots.Prelude.{
  ℕ, ◌&&◌, ◌*◌, ◌++◌, Bool, List, Option, Result, Text, [], codes, false, if◌then◌else◌, length,
  lines, map, none, ok, partition, raise, some, strip, suc, text_eq, words, zero, ◌||◌, ◌>>=◌, ◌∷◌,
}

-- `line.partition(sep)` without the separator.
unfoldable pub before_and_after : Text → Text → Text × Text
before_and_after sep line = elim (partition sep line) [ none ↦ (line, []) | some parts ↦ parts ]

abbrev pub Core : Type 0
Core = Text × Text

unfoldable pub core_eq : Core → Core → Bool
core_eq c d = text_eq c.0 d.0 && text_eq c.1 d.1

unfoldable pub has_core : List Core → Core → Bool
has_core [] c = false
has_core (d ∷ ds) c = core_eq d c || has_core ds c

-- `cores.add`
unfoldable pub add_core : List Core → Core → List Core
add_core cores c = if has_core cores c then cores else c ∷ cores

-- The name and the value of a line of cpuinfo.
unfoldable pub named_value : Text → Text × Text
unfolding before_and_after
named_value line = let parts = before_and_after (codes ":") line in (strip parts.0, strip parts.1)

abbrev pub core_of : Option Text → Text → List Core → List Core
core_of none core cores = cores
core_of (some pkg) core cores = add_core cores (pkg, core)

-- The loop over the lines: the package that was named last, and the cores so far.
unfoldable pub cores_among : List (Text × Text) → Option Text → List Core → List Core
cores_among [] pkg cores = cores
cores_among ((name, value) ∷ lines) pkg cores =
    cores_among lines (if text_eq name (codes "physical id") then some value else pkg) (
      if text_eq name (codes "physical id")
      then cores
      else if text_eq name (codes "core id")
      then core_of pkg value cores
      else cores)

unfoldable pub physical_cores_of : Text → List Core
physical_cores_of cpuinfo_text = cores_among (map named_value (lines cpuinfo_text)) none []

-- `n or None`
abbrev pub nonzero : ℕ → Option ℕ
nonzero zero = none
nonzero (suc n) = some (suc n)

unfoldable pub parse_physical_core_count : Text → Option ℕ
parse_physical_core_count cpuinfo_text = nonzero (length (physical_cores_of cpuinfo_text))

pub data FactError : Type 0 where
  meminfo_field_missing : Text → FactError
  not_a_number : Text → FactError

abbrev pub FieldsOf : Type 0 → Type 0
FieldsOf V = List (Text × V)

unfoldable pub look_up : {V : Type 0} → FieldsOf V → Text → Option V
look_up [] name = none
look_up ((n, v) ∷ fs) name = if text_eq n name then some v else look_up fs name

abbrev pub kibibyte : ℕ
kibibyte = 1024

pub record HardwareFacts : Type 0 where
  pub physical_cores : Option ℕ
  pub logical_cpus : Option ℕ
  pub total_ram_bytes : ℕ
  pub available_ram_bytes : ℕ
  pub swap_total_bytes : ℕ
  pub numa_nodes : Option ℕ
  pub measured_at_ns : ℕ

module _ (int_of : Text → Option ℕ) where
  set_field : Text → Option ℕ → Text → FieldsOf ℕ → Result FactError (FieldsOf ℕ)
  set_field name none word fields = raise (not_a_number word)
  set_field name (some n) word fields = ok ((name, n) ∷ fields)

  meminfo_line : Text → List Text → FieldsOf ℕ → Result FactError (FieldsOf ℕ)
  unfolding set_field
  meminfo_line name [] fields = ok fields
  meminfo_line name (word ∷ words) fields = set_field name (int_of word) word fields

  unfoldable pub meminfo_lines : List Text → FieldsOf ℕ → Result FactError (FieldsOf ℕ)
  unfolding meminfo_line before_and_after
  meminfo_lines [] fields = ok fields
  meminfo_lines (line ∷ lines) fields = do
    let parts = before_and_after (codes ":") line
    fields' ← meminfo_line parts.0 (words parts.1) fields
    meminfo_lines lines fields'

  -- `_read_meminfo_kibibytes`
  unfoldable pub read_meminfo_kibibytes : Text → Result FactError (FieldsOf ℕ)
  unfolding meminfo_lines
  read_meminfo_kibibytes meminfo_text = meminfo_lines (lines meminfo_text) []

  -- `_require_meminfo_field`
  unfoldable pub require_meminfo_field : FieldsOf ℕ → Text → Result FactError ℕ
  require_meminfo_field meminfo name = elim (look_up meminfo name) [
    | none ↦ raise (meminfo_field_missing name)
    | some n ↦ ok n
  ]

  unfoldable pub read_available_ram_bytes : Text → Result FactError ℕ
  read_available_ram_bytes meminfo_text = do
    meminfo ← read_meminfo_kibibytes meminfo_text
    available ← require_meminfo_field meminfo (codes "MemAvailable")
    ok (available * kibibyte)

  -- `numa_node_count` is the number of the nodes' directories, 0 where there is no tree.
  unfoldable pub measure_hardware_facts :
      Text → Text → Option ℕ → ℕ → ℕ → Result FactError HardwareFacts
  measure_hardware_facts cpuinfo_text meminfo_text cpu_count numa_node_count now = do
    meminfo ← read_meminfo_kibibytes meminfo_text
    total ← require_meminfo_field meminfo (codes "MemTotal")
    available ← require_meminfo_field meminfo (codes "MemAvailable")
    swap ← require_meminfo_field meminfo (codes "SwapTotal")
    ok (record {
      physical_cores = parse_physical_core_count cpuinfo_text;
      logical_cpus = cpu_count;
      total_ram_bytes = total * kibibyte;
      available_ram_bytes = available * kibibyte;
      swap_total_bytes = swap * kibibyte;
      numa_nodes = nonzero numa_node_count;
      measured_at_ns = now;
    })

module _ (Float : Type 0) (float_of : Text → Option Float) where
  set_reading : Text → Option Float → Text → FieldsOf Float → Result FactError (FieldsOf Float)
  set_reading key none word readings = raise (not_a_number word)
  set_reading key (some x) word readings = ok ((key, x) ∷ readings)

  pressure_fields : Text → List Text → FieldsOf Float → Result FactError (FieldsOf Float)
  unfolding set_reading before_and_after
  pressure_fields scope [] readings = ok readings
  pressure_fields scope (field_text ∷ rest) readings = do
    let parts = before_and_after (codes "=") field_text
    readings' ← set_reading (scope ++ (codes "_" ++ parts.0)) (float_of parts.1) parts.1 readings
    pressure_fields scope rest readings'

  pressure_line : List Text → FieldsOf Float → Result FactError (FieldsOf Float)
  pressure_line [] readings = ok readings
  pressure_line (scope ∷ rest) readings = pressure_fields scope rest readings

  pressure_lines : List Text → FieldsOf Float → Result FactError (FieldsOf Float)
  unfolding pressure_line
  pressure_lines [] readings = ok readings
  pressure_lines (line ∷ lines) readings = do
    readings' ← pressure_line (words line) readings
    pressure_lines lines readings'

  unfoldable pub read_cgroup_pressure : Text → Result FactError (FieldsOf Float)
  unfolding pressure_lines pressure_fields
  read_cgroup_pressure pressure_text = pressure_lines (lines pressure_text) []

-- `read_own_cgroup_directory`: a path is its text. What stands in the process's own cgroup file is a
-- text, or none for an OSError.
unfoldable pub read_own_cgroup_directory : Option Text → Result PlacementError Text
read_own_cgroup_directory own = do cgroup ← read_process_cgroup own; ok (below_cgroup_root cgroup)
