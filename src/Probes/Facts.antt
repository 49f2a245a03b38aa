-- ===== src/Probes/Facts.antt =====
-- The facts that the tiles stand for, and the verdicts on the interpreter, the threads and the pools.
use mathlib.Core.Path.{subst}
use ajit_segment_bots.Placer.{os_error}
use ajit_segment_bots.Prelude.{
  ◌≡◌, refl, ◌↔◌, ℕ, String, List, [], ◌∷◌, Result, ok, raise, false, arith, Option, Bool, true,
  some, none, All, ◌≢◌, keep_if,
}
use ajit_segment_bots.Settings.{TomlValue}
use ajit_segment_bots.Settings.Reader.{SettingsDocument, load_settings_document}
use ajit_segment_bots.Launcher.{StatError, read_kernel_thread_count}
use ajit_segment_bots.Hardware.{HardwareFacts}
use ajit_segment_bots.Store.{Connection, open_store, record_only}
use ajit_segment_bots.Probes.{
  os_error, store_error, uncaught, Machine, SubstrateProbeResult, Exception, state_ok, run_probe,
  Pool,
}
use ajit_segment_bots.Probes.Pinned.{
  read_pinned_interpreter_version, judge_build, PinError, build_tile, escaped, version_unreadable,
}
use ajit_segment_bots.Probes.Readings.{
  read_runtime_setting, fork_tile, compare_threads, at_most, judge_threads, measured_hardware,
  blas_tile, is_unpinned, judge_pools, judge_report, differs,
}

-- A probe's tile, with what the loop makes of an exception.
abbrev pub IsOk : String → Result Exception SubstrateProbeResult → Type 0
IsOk name r = (run_probe name r).state ≡ state_ok

module _ (m : Machine) where
  -- The facts.
  abbrev pub IsStandardBuild : Type 0
  IsStandardBuild =
      (m.gil_disabled ≡ some false) × (read_pinned_interpreter_version m ≡ ok (m.major, m.minor))

  abbrev pub IsForkable : Type 0
  IsForkable =
      (ceiling : TomlValue) × (observed : ℕ) × (read_runtime_setting m "fork_thread_ceiling"
        ≡ ok ceiling)
      × (read_kernel_thread_count m.int_of m.stat ≡ ok observed)
      × (at_most m observed ceiling ≡ some true)

  abbrev pub IsPinned : Type 0
  IsPinned =
      (pools : List Pool) × (m.threadpoolctl ≡ ok (ok pools))
      × (pools ≢ [])
      × All (λ (p : Pool). p.num_threads ≡ some 1) pools

  abbrev pub HasStore : Type 0
  HasStore =
      (m.state_directory_exists ≡ true)
      × ((busy_timeout : TomlValue) × (milliseconds : ℕ) × (connection : Connection)
          × (read_runtime_setting m "store_busy_timeout" ≡ ok busy_timeout)
          × (m.is_durable ≡ true)
          × (m.milliseconds_of busy_timeout ≡ ok milliseconds)
          × (open_store true record_only milliseconds m.tables ≡ ok connection)
          × (m.journal_mode_of connection ≡ ok "wal"))

  abbrev pub HasSettings : Type 0
  HasSettings =
      (m.runtime_toml_is_file ≡ true)
      × ((document : SettingsDocument) × (load_settings_document m.platform m.runtime_toml "runtime"
              m.runtime_body m.now
            ≡ ok document))

  abbrev pub IsMeasured : Type 0
  IsMeasured =
      (facts : HardwareFacts) × (measured_hardware m ≡ ok facts)
      × (facts.physical_cores ≢ none)
      × (facts.logical_cpus ≢ none)
      × (facts.numa_nodes ≢ none)

  pub judge_build-IsOk :
      (flag : Option Bool) (pin : Result PinError (ℕ × ℕ))
      → IsOk "probe_interpreter_build" (judge_build m flag pin)
        ↔ ((flag ≡ some false) × (pin ≡ ok (m.major, m.minor)))
  unfolding judge_build run_probe build_tile
  judge_build-IsOk none pin = ((λ h. absurd (cc h)), (λ (h, _). absurd (cc h)))
  judge_build-IsOk (some true) pin = ((λ h. absurd (cc h)), (λ (h, _). absurd (cc h)))
  judge_build-IsOk (some false) (raise (escaped (os_error w))) =
      ((λ h. absurd (cc h)), (λ (_, h). absurd (cc h)))
  judge_build-IsOk (some false) (raise (escaped (store_error w))) =
      ((λ h. absurd (cc h)), (λ (_, h). absurd (cc h)))
  judge_build-IsOk (some false) (raise (escaped (uncaught c w))) =
      ((λ h. absurd (cc h)), (λ (_, h). absurd (cc h)))
  judge_build-IsOk (some false) (raise (version_unreadable w)) =
      ((λ h. absurd (cc h)), (λ (_, h). absurd (cc h)))
  judge_build-IsOk (some false) (ok (a, b)) = ground arith

  pub judge_threads-IsOk :
      (ceiling : Result String TomlValue) (count : Result StatError ℕ)
      → IsOk "probe_forkserver_is_forkable" (judge_threads m ceiling count) ↔ (
          (v : TomlValue) × (n : ℕ) × (ceiling ≡ ok v)
          × (count ≡ ok n)
          × (at_most m n v ≡ some true))
  unfolding judge_threads compare_threads run_probe fork_tile
  judge_threads-IsOk (raise w) count = ((λ h. absurd (cc h)), (λ (_, _, h, _, _). absurd (cc h)))
  judge_threads-IsOk (ok v) (raise w) = ((λ h. absurd (cc h)), (λ (_, _, _, h, _). absurd (cc h)))
  judge_threads-IsOk (ok v) (ok n) = (
    (λ h. (v, n, refl, refl, compared (at_most m n v) h)),
    (λ (w, k, e, f, g). by_parts w k e f g),
  )
    where
      by_parts :
          (w : TomlValue) (k : ℕ)
          → ◌≡◌ {A = Result String TomlValue} (ok v) (ok w)
          → ◌≡◌ {A = Result StatError ℕ} (ok n) (ok k)
          → at_most m k w ≡ some true
          → IsOk "probe_forkserver_is_forkable" (compare_threads m n v (at_most m n v))
      by_parts w k e f g = let same : at_most m n v ≡ some true = cc (e, f, g) in rw same refl

      compared :
          (o : Option Bool)
          → IsOk "probe_forkserver_is_forkable" (compare_threads m n v o)
          → o ≡ some true
      compared none h = absurd (cc h)
      compared (some true) h = refl
      compared (some false) h = absurd (cc h)

  differs_iff : (o : Option ℕ) → (differs o ≡ false) ↔ (o ≡ some 1)
  unfolding differs
  differs_iff none = ground arith
  differs_iff (some n) = ground arith

  unpinned-nil :
      (pools : List Pool)
      → (keep_if is_unpinned pools ≡ []) ↔ All (λ (p : Pool). p.num_threads ≡ some 1) pools
  unfolding keep_if is_unpinned
  unpinned-nil [] = ((λ _. tt), (λ _. refl))
  unpinned-nil (p ∷ pools) = ground (arith, differs_iff p.num_threads, unpinned-nil pools)

  pub judge_pools-IsOk :
      (pools unpinned : List Pool)
      → ((judge_pools m pools unpinned).state ≡ state_ok) ↔ ((pools ≢ []) × (unpinned ≡ []))
  unfolding judge_pools blas_tile
  judge_pools-IsOk [] unpinned = ((λ h. absurd (cc h)), (λ (h, _). absurd (h refl)))
  judge_pools-IsOk (p ∷ pools) [] = ((λ _. ((λ h. cc h), refl)), (λ _. refl))
  judge_pools-IsOk (p ∷ pools) (q ∷ unpinned) = ((λ h. absurd (cc h)), (λ (_, h). absurd (cc h)))

  pub judge_report-IsOk :
      (report : Result String (Result String (List Pool)))
      → ((judge_report m report).state ≡ state_ok) ↔ (
          (pools : List Pool) × (report ≡ ok (ok pools))
          × (pools ≢ [])
          × All (λ (p : Pool). p.num_threads ≡ some 1) pools)
  unfolding judge_report blas_tile
  judge_report-IsOk (raise w) = ((λ h. absurd (cc h)), (λ (_, h, _, _). absurd (cc h)))
  judge_report-IsOk (ok (raise w)) = ((λ h. absurd (cc h)), (λ (_, h, _, _). absurd (cc h)))
  judge_report-IsOk (ok (ok pools)) =
      let judged = judge_pools-IsOk pools (keep_if is_unpinned pools) in
      (
        (λ h. let both = judged.0 h in (pools, refl, both.0, (unpinned-nil pools).0 both.1)),
        (λ (ps, e, some_pool, pinned).
            let same : ps ≡ pools = cc e in
            judged.1 (
              subst (λ x. x ≢ []) same some_pool,
              (unpinned-nil pools).1
                  (subst (λ x. All (λ (p : Pool). p.num_threads ≡ some 1) x) same pinned),
            )),
      )
