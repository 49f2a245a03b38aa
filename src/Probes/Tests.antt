-- ===== src/Probes/Tests.antt =====
-- A machine on which everything is as it should be but the BLAS threads, and the search for a version.
use ajit_segment_bots.Probes.Facts.{
  HasSettings, HasStore, IsForkable, IsMeasured, IsPinned, IsStandardBuild,
}
use ajit_segment_bots.Prelude.{
  keep_if, ◌≡◌, refl, ◌↔◌, ◌-◌, ℕ, List, [], ◌∷◌, ok, Option, true, false, some, none, Text, codes,
  leb, ◌&&◌, if◌then◌else◌,
}
use ajit_segment_bots.Dict
use ajit_segment_bots.Settings.Reader.{load_settings_document, load_entries, load_entry, read_value}
use ajit_segment_bots.Dict.{Dict, get, put}
use ajit_segment_bots.Settings.{TomlValue, integer, text, table, field, end}
use ajit_segment_bots.Launcher.{spawn_part}
use ajit_segment_bots.Probes.{Machine, SubstrateProbeResult, state_ok}
use ajit_segment_bots.Probes.Readings.{
  probe_forkserver_is_forkable, read_runtime_setting, run_all_substrate_probes,
}
use ajit_segment_bots.Probes.Forkable.{probe_forkserver_is_forkable-spawn_part, Foretells}
use ajit_segment_bots.Probes.Backed.{run_all_substrate_probes-Backed}

abbrev digit_of : ℕ → Option ℕ
digit_of c = if leb b'0' c && leb c b'9' then some (c - 48) else none

abbrev one_digit : Text → Option ℕ
one_digit (c ∷ []) = some (c - 48)
one_digit _ = none

abbrev entry : ℕ → TomlValue
entry n =
    table "" (field "value" (integer false n) (field "unit" (text "") (field "note" (text "") end)))

abbrev live : Dict TomlValue
live = ("fork_thread_ceiling", entry 1) ∷ ("store_busy_timeout", entry 5) ∷ []

abbrev machine : Machine
machine = record {
  gil_disabled = some false;
  major = 3;
  minor = 14;
  micro = 0;
  pyproject_path = "pyproject.toml";
  pyproject = ok "";
  loads_text =
      λ _. ok (("project", table "" (field "requires-python" (text ">=3.14,<4") end)) ∷ []);
  digit_of = digit_of;
  platform = record { loads = λ _. ok live; sha256 = λ _. "00"; stem = λ s. s };
  runtime_toml = "runtime.toml";
  runtime_toml_is_file = true;
  runtime_body = ok [];
  now = 7;
  repr = λ s. s;
  at_most_other = λ _ _. none;
  stat = some (codes "7 (a) S 1 2 3 4 5 6 7 8 9 0 1 2 3 4 5 6 1 8");
  int_of = one_digit;
  stat_message = λ _. "";
  threadpoolctl = ok (ok (record { num_threads = some 2; internal_api = "openblas" } ∷ []));
  state_directory = "state";
  state_directory_exists = true;
  is_durable = true;
  volatile_message = "";
  milliseconds_of = λ _. ok 5000;
  tables = none;
  journal_mode_of = λ _. ok "wal";
  cpuinfo = ok (codes "physical id: 0\ncore id: 0\n");
  meminfo = ok (codes "MemTotal: 8 kB\nMemAvailable: 5 kB\nSwapTotal: 0 kB\n");
  cpu_count = some 1;
  numa_node_count = 1;
  fact_message = λ _. "";
}

ceiling_read : read_runtime_setting machine "fork_thread_ceiling" ≡ ok (integer false 1)
unfolding read_runtime_setting load_settings_document load_entries load_entry keep_if Dict.get
    read_value Dict.put
ceiling_read = refl

probe_forkserver_is_forkable-spawn_part_example :
    (r : SubstrateProbeResult) × (probe_forkserver_is_forkable machine ≡ ok r)
    × Foretells machine "tick" 1 [] r (spawn_part one_digit "tick" 1 machine.stat [])
probe_forkserver_is_forkable-spawn_part_example =
    probe_forkserver_is_forkable-spawn_part machine "tick" 1 [] ceiling_read

abbrev constraint : List ℕ
constraint = codes ">="

run_all_substrate_probes-Backed_example :
    (build fork blas store settings capacity : SubstrateProbeResult) × (run_all_substrate_probes
        machine
      ≡ build ∷ fork ∷ blas ∷ store ∷ settings ∷ capacity ∷ [])
    × ((build.state ≡ state_ok) ↔ IsStandardBuild machine)
    × ((fork.state ≡ state_ok) ↔ IsForkable machine)
    × ((blas.state ≡ state_ok) ↔ IsPinned machine)
    × ((store.state ≡ state_ok) ↔ HasStore machine)
    × ((settings.state ≡ state_ok) ↔ HasSettings machine)
    × ((capacity.state ≡ state_ok) ↔ IsMeasured machine)
run_all_substrate_probes-Backed_example = run_all_substrate_probes-Backed machine
