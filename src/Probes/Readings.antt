-- ===== src/Probes/Readings.antt =====
-- The five other probes, and `run_all_substrate_probes`.
use ajit_segment_bots.Prelude.{
  ℕ, ◌+◌, ◌==◌, Bool, true, false, not, List, [], ◌∷◌, Option, none, some, String, Result, ok,
  raise, ◌>>=◌, if◌then◌else◌, keep_if, leb, length, str_eq, zero, suc, map,
}
use Prim.Native.String.{◌++◌}
use ajit_segment_bots.Settings.{TomlValue, decimal, to_text}
use ajit_segment_bots.Settings.Reader.{
  load_settings_document, read_value, message, join, Refusal, SettingsDocument,
}
use ajit_segment_bots.Hardware.{
  HardwareFacts, read_meminfo_kibibytes, measure_hardware_facts, FactError, meminfo_field_missing,
  not_a_number,
}
use ajit_segment_bots.Launcher.{read_kernel_thread_count, StatError}
use ajit_segment_bots.Store.{Connection, open_store, record_only, volatile_directory}
use ajit_segment_bots.Probes.{
  Machine, Exception, os_error, store_error, uncaught, SubstrateProbeResult, tile, state_ok,
  ProbeState, state_failing, state_not_measured, state_not_built, Pool, run_probe,
}
use ajit_segment_bots.Probes.Pinned.{probe_interpreter_build}

-- The number that `int(SINGLE_THREAD)` gives.
abbrev pub pinned_thread_count : ℕ
pinned_thread_count = 1

-- `num_threads != pinned_thread_count`, on a field that may be missing.
unfoldable pub differs : Option ℕ → Bool
differs none = true
differs (some n) = not (n == pinned_thread_count)

unfoldable pub is_unpinned : Pool → Bool
unfolding differs
is_unpinned pool = differs pool.num_threads

abbrev pub optional_number : Option ℕ → String
optional_number none = "None"
optional_number (some n) = decimal n

unfoldable pub pool_text : Pool → String
pool_text pool = pool.internal_api ++ "=" ++ optional_number pool.num_threads

abbrev pub named_if : Option ℕ → String → List String → List String
named_if none name names = name ∷ names
named_if (some _) name names = names

-- The fields that could not be measured.
unfoldable pub unmeasured_fields : HardwareFacts → List String
unmeasured_fields facts =
    named_if facts.physical_cores "physical_cores"
      (named_if facts.logical_cpus "logical_cpus" (named_if facts.numa_nodes "numa_nodes" []))

unfoldable pub capacity_text : HardwareFacts → String
capacity_text facts =
    "physical_cores="
    ++ optional_number facts.physical_cores
    ++ ", logical_cpus="
    ++ optional_number facts.logical_cpus
    ++ ", numa_nodes="
    ++ optional_number facts.numa_nodes
    ++ ", ram="
    ++ decimal facts.total_ram_bytes
    ++ "B, swap="
    ++ decimal facts.swap_total_bytes
    ++ "B"

-- `text[:12]`, by characters.
unfoldable pub first_of : ℕ → String → String
first_of _ String.[] = ""
first_of zero (String.◌∷◌ c s) = ""
first_of (suc n) (String.◌∷◌ c s) = String.◌∷◌ c (first_of n s)

abbrev first_twelve : String → String
first_twelve = first_of 12

module _ (m : Machine) where
  -- `_read_runtime_setting`; both exceptions that it raises are caught by its callers.
  unfoldable pub read_runtime_setting : String → Result String TomlValue
  read_runtime_setting name =
      elim (load_settings_document m.platform m.runtime_toml "runtime" m.runtime_body m.now) [
        | raise refusal ↦ raise (message refusal)
        | ok document ↦ elim (read_value document name) [
          | none ↦ raise (
              m.repr (
                "no setting named '" ++ name ++ "' in " ++ document.source_path
                ++ ". RL-061 admits no default: a number that was never declared has no provenance to show."))
          | some v ↦ ok v
        ]
      ]

  -- `observed <= thread_ceiling`; a truth value is 0 or 1.
  unfoldable pub at_most : ℕ → TomlValue → Option Bool
  at_most observed (TomlValue.integer false n) = some (leb observed n)
  at_most observed (TomlValue.integer true n) = some (leb (observed + n) 0)
  at_most observed (TomlValue.boolean b) = some (leb observed (if b then 1 else 0))
  at_most observed v = m.at_most_other observed v

  unfoldable pub fork_tile : ProbeState → String → SubstrateProbeResult
  fork_tile =
      tile "Forkserver is forkable"
        "field 20 of /proc/self/stat (forkserver_launcher.read_kernel_thread_count)"

  unfoldable pub compare_threads :
      ℕ → TomlValue → Option Bool → Result Exception SubstrateProbeResult
  compare_threads observed ceiling none =
      raise (uncaught "TypeError" "'<=' not supported between these instances")
  compare_threads observed ceiling (some true) =
      ok (fork_tile state_ok (decimal observed ++ " kernel thread(s), ceiling " ++ to_text ceiling))
  compare_threads observed ceiling (some false) = ok (
      fork_tile state_failing (
        decimal observed
        ++ " kernel threads, ceiling "
        ++ to_text ceiling
        ++ " -- a forkserver this wide would refuse every fork"))

  -- What the probe makes of the ceiling and of the count.
  unfoldable pub judge_threads :
      Result String TomlValue → Result StatError ℕ → Result Exception SubstrateProbeResult
  unfolding compare_threads
  judge_threads (raise failure) count =
      ok (fork_tile state_not_measured ("fork_thread_ceiling unreadable: " ++ failure))
  judge_threads (ok ceiling) (raise e) =
      ok (fork_tile state_not_measured ("/proc/self/stat unreadable: " ++ m.stat_message e))
  judge_threads (ok ceiling) (ok observed) =
      compare_threads observed ceiling (at_most observed ceiling)

  unfoldable pub probe_forkserver_is_forkable : Result Exception SubstrateProbeResult
  unfolding judge_threads
  probe_forkserver_is_forkable =
      judge_threads (read_runtime_setting "fork_thread_ceiling")
        (read_kernel_thread_count m.int_of m.stat)

  unfoldable pub blas_tile : ProbeState → String → SubstrateProbeResult
  blas_tile = tile "BLAS threads pinned" "threadpoolctl.threadpool_info()"

  -- The pools, and those among them that are not pinned.
  unfoldable pub judge_pools : List Pool → List Pool → SubstrateProbeResult
  judge_pools [] unpinned =
      blas_tile state_not_measured
        "0 pools reported -- no BLAS library is loaded in this process, so there is nothing to speak for"
  judge_pools (p ∷ pools) [] = blas_tile state_ok (
      decimal (length (p ∷ pools))
      ++ " pool(s) reported, all pinned to "
      ++ decimal pinned_thread_count
      ++ " thread")
  judge_pools (p ∷ pools) (q ∷ unpinned) = blas_tile state_failing (
      decimal (length (q ∷ unpinned))
      ++ " of "
      ++ decimal (length (p ∷ pools))
      ++ " pool(s) not pinned to "
      ++ decimal pinned_thread_count
      ++ " thread: "
      ++ join (map pool_text (q ∷ unpinned)))

  unfoldable pub judge_report : Result String (Result String (List Pool)) → SubstrateProbeResult
  unfolding judge_pools
  judge_report (raise failure) =
      blas_tile state_not_measured ("threadpoolctl not importable: " ++ failure)
  judge_report (ok (raise failure)) =
      blas_tile state_not_measured ("threadpool_info() raised: " ++ failure)
  judge_report (ok (ok pools)) = judge_pools pools (keep_if is_unpinned pools)

  unfoldable pub probe_blas_is_pinned : Result Exception SubstrateProbeResult
  unfolding judge_report
  probe_blas_is_pinned = ok (judge_report m.threadpoolctl)

  abbrev store_path : String
  store_path = m.state_directory ++ "/substrate-probe.sqlite3"

  unfoldable pub store_tile : ProbeState → String → SubstrateProbeResult
  store_tile = tile "State store opens" ("open_store(" ++ store_path ++ "); PRAGMA journal_mode")

  unfoldable pub opened_store : TomlValue → Result Exception Connection
  opened_store busy_timeout_seconds =
      if m.is_durable
      then (do
        milliseconds ← m.milliseconds_of busy_timeout_seconds
        elim (open_store true record_only milliseconds m.tables) [
          | raise volatile_directory ↦ raise (store_error m.volatile_message)
          | ok connection ↦ ok connection
        ])
      else raise (store_error m.volatile_message)

  unfoldable pub judge_mode : String → SubstrateProbeResult
  judge_mode journal_mode =
      if str_eq journal_mode "wal"
      then store_tile state_ok "journal_mode=wal"
      else store_tile state_failing ("journal_mode=" ++ journal_mode)

  unfoldable pub read_store : Result Exception Connection → Result Exception SubstrateProbeResult
  unfolding judge_mode
  read_store (raise (uncaught c failure)) = raise (uncaught c failure)
  read_store (raise (os_error failure)) =
      ok (store_tile state_not_measured ("open_store refused: " ++ failure))
  read_store (raise (store_error failure)) =
      ok (store_tile state_not_measured ("open_store refused: " ++ failure))
  read_store (ok connection) = do
    journal_mode ← m.journal_mode_of connection
    ok (judge_mode journal_mode)

  unfoldable pub judge_store :
      Bool → Result String TomlValue → Result Exception SubstrateProbeResult
  unfolding read_store
  judge_store false busy_timeout =
      ok (store_tile state_not_measured (m.state_directory ++ " does not exist yet"))
  judge_store true (raise failure) =
      ok (store_tile state_not_measured ("store_busy_timeout unreadable: " ++ failure))
  judge_store true (ok busy_timeout_seconds) = read_store (opened_store busy_timeout_seconds)

  unfoldable pub probe_state_store_opens : Result Exception SubstrateProbeResult
  unfolding judge_store
  probe_state_store_opens =
      judge_store m.state_directory_exists (read_runtime_setting "store_busy_timeout")

  unfoldable pub settings_tile : ProbeState → String → SubstrateProbeResult
  settings_tile = tile "Settings are readable" m.runtime_toml

  unfoldable pub judge_settings : Bool → Result Refusal SettingsDocument → SubstrateProbeResult
  judge_settings false document = settings_tile state_not_built (m.runtime_toml ++ " absent")
  judge_settings true (raise refusal) = settings_tile state_failing (message refusal)
  judge_settings true (ok document) = settings_tile state_ok (
      decimal (length document.entries)
      ++ " entries, digest "
      ++ first_twelve document.content_digest)

  unfoldable pub probe_settings_are_readable : Result Exception SubstrateProbeResult
  unfolding judge_settings
  probe_settings_are_readable = ok (
      judge_settings m.runtime_toml_is_file
        (load_settings_document m.platform m.runtime_toml "runtime" m.runtime_body m.now))

  unfoldable pub capacity_tile : ProbeState → String → SubstrateProbeResult
  capacity_tile =
      tile "Measured capacity"
        "/proc/cpuinfo, /proc/meminfo (hardware_facts.measure_hardware_facts)"

  -- A line without a number is a ValueError, which no clause catches.
  abbrev fact_error : FactError → Exception
  fact_error (meminfo_field_missing name) = os_error (m.fact_message (meminfo_field_missing name))
  fact_error (not_a_number word) = uncaught "ValueError" (m.fact_message (not_a_number word))

  abbrev lift : {A : Type 0} → Result FactError A → Result Exception A
  lift (ok a) = ok a
  lift (raise e) = raise (fact_error e)

  unfoldable pub measured_hardware : Result Exception HardwareFacts
  measured_hardware = do
    meminfo_text ← m.meminfo
    fields ← lift (read_meminfo_kibibytes m.int_of meminfo_text)
    cpuinfo_text ← m.cpuinfo
    lift (
        measure_hardware_facts m.int_of cpuinfo_text meminfo_text m.cpu_count m.numa_node_count
          m.now)

  unfoldable pub judge_capacity : HardwareFacts → List String → SubstrateProbeResult
  judge_capacity facts [] = capacity_tile state_ok (capacity_text facts)
  judge_capacity facts (field_name ∷ rest) = capacity_tile state_not_measured (
      join (field_name ∷ rest) ++ " could not be measured on this machine; " ++ capacity_text facts)

  unfoldable pub capacity_of :
      Result Exception HardwareFacts → Result Exception SubstrateProbeResult
  capacity_of (raise (os_error failure)) = ok (capacity_tile state_not_measured failure)
  capacity_of (raise e) = raise e
  capacity_of (ok facts) = ok (judge_capacity facts (unmeasured_fields facts))

  unfoldable pub probe_measured_capacity : Result Exception SubstrateProbeResult
  unfolding capacity_of
  probe_measured_capacity = capacity_of measured_hardware

  unfoldable pub run_all_substrate_probes : List SubstrateProbeResult
  run_all_substrate_probes =
      run_probe "probe_interpreter_build" (probe_interpreter_build m)
      ∷ run_probe "probe_forkserver_is_forkable" probe_forkserver_is_forkable
      ∷ run_probe "probe_blas_is_pinned" probe_blas_is_pinned
      ∷ run_probe "probe_state_store_opens" probe_state_store_opens
      ∷ run_probe "probe_settings_are_readable" probe_settings_are_readable
      ∷ run_probe "probe_measured_capacity" probe_measured_capacity
      ∷ []
