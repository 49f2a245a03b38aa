-- ===== src/Probes/Backed.antt =====
-- What a tile that says OK has behind it, for each probe and for the run of all of them.
use mathlib.Core.Path.{subst}
use ajit_segment_bots.Placer.{os_error}
use ajit_segment_bots.Prelude.{
  ◌≡◌, refl, ◌↔◌, ℕ, String, [], ◌∷◌, Result, ok, raise, false, arith, Option, Bool, true, some,
  none, ◌≢◌, ap, sym, ◌>>=◌, ◌∙◌,
}
use text.Mathlib.TextEquality.{eq_iff}
use ajit_segment_bots.Settings.{TomlValue}
use ajit_segment_bots.Settings.Reader.{Refusal, SettingsDocument, load_settings_document}
use ajit_segment_bots.Launcher.{read_kernel_thread_count}
use ajit_segment_bots.Hardware.{HardwareFacts}
use ajit_segment_bots.Store.{Connection, open_store, record_only}
use ajit_segment_bots.Probes.{
  os_error, store_error, uncaught, Machine, SubstrateProbeResult, Exception, state_ok, run_probe,
}
use ajit_segment_bots.Probes.Pinned.{probe_interpreter_build, read_pinned_interpreter_version}
use ajit_segment_bots.Probes.Readings.{
  probe_forkserver_is_forkable, read_runtime_setting, measured_hardware, capacity_tile,
  judge_capacity, judge_settings, named_if, settings_tile, judge_mode, opened_store, read_store,
  store_tile, capacity_of, judge_store, probe_blas_is_pinned, probe_measured_capacity,
  probe_settings_are_readable, probe_state_store_opens, run_all_substrate_probes, unmeasured_fields,
}
use ajit_segment_bots.Probes.Facts.{
  IsOk, IsStandardBuild, IsForkable, IsPinned, HasStore, HasSettings, IsMeasured, judge_build-IsOk,
  judge_threads-IsOk, judge_report-IsOk,
}

module _ (m : Machine) where
  judge_settings-IsOk :
      (there : Bool) (document : Result Refusal SettingsDocument)
      → ((judge_settings m there document).state ≡ state_ok)
        ↔ ((there ≡ true) × ((d : SettingsDocument) × (document ≡ ok d)))
  unfolding judge_settings settings_tile
  judge_settings-IsOk false document = ((λ h. absurd (cc h)), (λ (h, _). absurd (cc h)))
  judge_settings-IsOk true (raise w) = ((λ h. absurd (cc h)), (λ (_, (_, h)). absurd (cc h)))
  judge_settings-IsOk true (ok d) = ((λ _. (refl, (d, refl))), (λ _. refl))

  judge_capacity-IsOk :
      (facts : HardwareFacts) (p l n : Option ℕ)
      → ((judge_capacity m facts (
            named_if p "physical_cores"
              (named_if l "logical_cpus" (named_if n "numa_nodes" [])))).state
          ≡ state_ok)
        ↔ ((p ≢ none) × (l ≢ none) × (n ≢ none))
  unfolding judge_capacity capacity_tile
  judge_capacity-IsOk facts none l n = ((λ h. absurd (cc h)), (λ (h, _, _). absurd (h refl)))
  judge_capacity-IsOk facts (some p) none n = ((λ h. absurd (cc h)), (λ (_, h, _). absurd (h refl)))
  judge_capacity-IsOk facts (some p) (some l) none =
      ((λ h. absurd (cc h)), (λ (_, _, h). absurd (h refl)))
  judge_capacity-IsOk facts (some p) (some l) (some n) =
      ((λ _. ((λ h. cc h), (λ h. cc h), (λ h. cc h))), (λ _. refl))

  judge_mode-IsOk : (mode : String) → ((judge_mode m mode).state ≡ state_ok) ↔ (mode ≡ "wal")
  unfolding judge_mode store_tile
  judge_mode-IsOk mode = ground (arith, eq_iff mode "wal")

  answer-IsOk :
      (answer : Result Exception String)
      → IsOk "probe_state_store_opens" (do mode ← answer; ok (judge_mode m mode))
        ↔ (answer ≡ ok "wal")
  unfolding run_probe
  answer-IsOk (raise (os_error w)) = ground arith
  answer-IsOk (raise (store_error w)) = ground arith
  answer-IsOk (raise (uncaught c w)) = ground arith
  answer-IsOk (ok mode) = ground (arith, judge_mode-IsOk mode)

  read_store-IsOk :
      (opened : Result Exception Connection)
      → IsOk "probe_state_store_opens" (read_store m opened)
        ↔ ((c : Connection) × (opened ≡ ok c) × (m.journal_mode_of c ≡ ok "wal"))
  unfolding read_store run_probe store_tile
  read_store-IsOk (raise (uncaught c w)) = ((λ h. absurd (cc h)), (λ (_, h, _). absurd (cc h)))
  read_store-IsOk (raise (os_error w)) = ((λ h. absurd (cc h)), (λ (_, h, _). absurd (cc h)))
  read_store-IsOk (raise (store_error w)) = ((λ h. absurd (cc h)), (λ (_, h, _). absurd (cc h)))
  read_store-IsOk (ok c) = (
    (λ h. (c, refl, (answer-IsOk (m.journal_mode_of c)).0 h)),
    (λ (d, e, wal). (answer-IsOk (m.journal_mode_of c)).1 (cc (e, wal))),
  )

  opened_store_iff :
      (v : TomlValue) (c : Connection)
      → (opened_store m v ≡ ok c) ↔ (
          (m.is_durable ≡ true)
          × ((n : ℕ) × (m.milliseconds_of v ≡ ok n)
              × (open_store true record_only n m.tables ≡ ok c)))
  unfolding opened_store open_store
  opened_store_iff v c = ground arith

  judge_store-IsOk :
      (there : Bool) (busy : Result String TomlValue)
      → IsOk "probe_state_store_opens" (judge_store m there busy) ↔ (
          (there ≡ true)
          × ((v : TomlValue) × (n : ℕ) × (c : Connection) × (busy ≡ ok v)
              × (m.is_durable ≡ true)
              × (m.milliseconds_of v ≡ ok n)
              × (open_store true record_only n m.tables ≡ ok c)
              × (m.journal_mode_of c ≡ ok "wal")))
  unfolding judge_store run_probe store_tile
  judge_store-IsOk false busy = ((λ h. absurd (cc h)), (λ (h, _). absurd (cc h)))
  judge_store-IsOk true (raise w) =
      ((λ h. absurd (cc h)), (λ (_, (_, _, _, h, _, _, _, _)). absurd (cc h)))
  judge_store-IsOk true (ok v) = (
    (λ h.
        let (c, opened, wal) = (read_store-IsOk (opened_store m v)).0 h in
        let (durable, (n, converted, opens)) = (opened_store_iff v c).0 opened in
        (refl, (v, n, c, refl, durable, converted, opens, wal))),
    (λ (_, (w, n, c, e, durable, converted, opens, wal)).
        let same : w ≡ v = cc e in
        (read_store-IsOk (opened_store m v)).1 (
          c,
          (opened_store_iff v c).1
              (durable, (n, ap m.milliseconds_of (sym same) ∙ converted, opens)),
          wal,
        )),
  )

  capacity_of-IsOk :
      (hardware : Result Exception HardwareFacts)
      → IsOk "probe_measured_capacity" (capacity_of m hardware) ↔ (
          (facts : HardwareFacts) × (hardware ≡ ok facts)
          × (facts.physical_cores ≢ none)
          × (facts.logical_cpus ≢ none)
          × (facts.numa_nodes ≢ none))
  unfolding capacity_of unmeasured_fields run_probe capacity_tile
  capacity_of-IsOk (raise (uncaught c w)) =
      ((λ h. absurd (cc h)), (λ (_, h, _, _, _). absurd (cc h)))
  capacity_of-IsOk (raise (os_error w)) = ((λ h. absurd (cc h)), (λ (_, h, _, _, _). absurd (cc h)))
  capacity_of-IsOk (raise (store_error w)) =
      ((λ h. absurd (cc h)), (λ (_, h, _, _, _). absurd (cc h)))
  capacity_of-IsOk (ok facts) =
      let judged =
        judge_capacity-IsOk facts facts.physical_cores facts.logical_cpus facts.numa_nodes in
      (
        (λ h. let (p, l, n) = judged.0 h in (facts, refl, p, l, n)),
        (λ (other_facts, e, p, l, n).
            let same : other_facts ≡ facts = cc e in
            judged.1 (
              subst
                (λ (x : HardwareFacts).
                  (x.physical_cores ≢ none) × (x.logical_cpus ≢ none) × (x.numa_nodes ≢ none))
                same (p, l, n))),
      )

  -- A run gives six tiles, for the six probes in their order, whatever raises; and each of them says
  -- OK exactly if its fact holds: the build is the standard one at the version that the project pins;
  -- the ceiling and the count are read and the count is at most the ceiling; some pool is reported,
  -- and each has one thread; the directory is there and durable, and the store in it opens and
  -- answers "wal"; the operator's file is there and loads; and the hardware is read with all three of
  -- its optional facts.
  pub run_all_substrate_probes-Backed :
      (build fork blas store settings capacity : SubstrateProbeResult) × (run_all_substrate_probes m
        ≡ build ∷ fork ∷ blas ∷ store ∷ settings ∷ capacity ∷ [])
      × ((build.state ≡ state_ok) ↔ IsStandardBuild m)
      × ((fork.state ≡ state_ok) ↔ IsForkable m)
      × ((blas.state ≡ state_ok) ↔ IsPinned m)
      × ((store.state ≡ state_ok) ↔ HasStore m)
      × ((settings.state ≡ state_ok) ↔ HasSettings m)
      × ((capacity.state ≡ state_ok) ↔ IsMeasured m)
  unfolding run_all_substrate_probes probe_interpreter_build probe_forkserver_is_forkable
      probe_blas_is_pinned probe_state_store_opens probe_settings_are_readable
      probe_measured_capacity run_probe
  run_all_substrate_probes-Backed = (
    _,
    _,
    _,
    _,
    _,
    _,
    refl,
    judge_build-IsOk m m.gil_disabled (read_pinned_interpreter_version m),
    judge_threads-IsOk m (read_runtime_setting m "fork_thread_ceiling")
        (read_kernel_thread_count m.int_of m.stat),
    judge_report-IsOk m m.threadpoolctl,
    judge_store-IsOk m.state_directory_exists (read_runtime_setting m "store_busy_timeout"),
    judge_settings-IsOk m.runtime_toml_is_file
        (load_settings_document m.platform m.runtime_toml "runtime" m.runtime_body m.now),
    capacity_of-IsOk (measured_hardware m),
  )
