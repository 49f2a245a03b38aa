-- ===== src/Probes/Forkable.antt =====
-- The tile on the forkserver against what the launcher does under the same ceiling.
use ajit_segment_bots.Journal.Scan.{within}
use ajit_segment_bots.Prelude.{
  ◌≡◌, refl, ◌↔◌, ℕ, String, List, ◌∷◌, Result, ok, raise, false, arith, leb, some, Bool-cases, inl,
  inr, if◌then◌else◌, ltb, ap,
}
use ajit_segment_bots.Settings.{integer}
use ajit_segment_bots.Launcher.{
  StatError, LaunchError, stat_error, fork_refused, spawn_part, read_kernel_thread_count,
}
use ajit_segment_bots.Probes.{
  Machine, SubstrateProbeResult, state_ok, state_failing, state_not_measured,
}
use ajit_segment_bots.Probes.Readings.{
  probe_forkserver_is_forkable, read_runtime_setting, fork_tile, judge_threads, at_most,
  compare_threads,
}

module _ (m : Machine) (entry_point : String) (ceiling : ℕ) (started : List String) where
  abbrev spawned_of : Result StatError ℕ → Result LaunchError (List String)
  spawned_of count = elim count [
    | raise e ↦ raise (stat_error e)
    | ok observed ↦
        if ltb ceiling observed
        then raise (fork_refused observed ceiling)
        else ok (entry_point ∷ started)
  ]

  -- A tile says of the fork that is tried what comes of it.
  abbrev pub Foretells : SubstrateProbeResult → Result LaunchError (List String) → Type 0
  Foretells r spawned =
      ((r.state ≡ state_ok) ↔ (spawned ≡ ok (entry_point ∷ started)))
      × ((r.state ≡ state_failing) ↔ ((n : ℕ) × (spawned ≡ raise (fork_refused n ceiling))))
      × ((r.state ≡ state_not_measured) ↔ ((e : StatError) × (spawned ≡ raise (stat_error e))))

  judge_threads-spawn :
      (count : Result StatError ℕ)
      → (r : SubstrateProbeResult) × (judge_threads m (ok (integer false ceiling)) count ≡ ok r)
        × Foretells r (spawned_of count)
  unfolding judge_threads compare_threads at_most fork_tile
  judge_threads-spawn (raise e) = (
    _,
    refl,
    (
      ((λ h. absurd (cc h)), (λ h. absurd (cc h))),
      ((λ h. absurd (cc h)), (λ (_, h). absurd (cc h))),
      ((λ _. (e, refl)), (λ _. refl)),
    ),
  )
  judge_threads-spawn (ok n) = elim (Bool-cases (leb n ceiling)) [
    | inl within ↦
        let spawned : spawned_of (ok n) ≡ ok (entry_point ∷ started) = ground (arith, within) in
        (
          _,
          ap (λ b. compare_threads m n (integer false ceiling) (some b)) within,
          (
            ((λ _. spawned), (λ _. refl)),
            ((λ h. absurd (cc h)), (λ (_, h). absurd (cc (h, spawned)))),
            ((λ h. absurd (cc h)), (λ (_, h). absurd (cc (h, spawned)))),
          ),
        )
    | inr above ↦
        let refused : spawned_of (ok n) ≡ raise (fork_refused n ceiling) = ground (arith, above) in
        (
          _,
          ap (λ b. compare_threads m n (integer false ceiling) (some b)) above,
          (
            ((λ h. absurd (cc h)), (λ h. absurd (cc (h, refused)))),
            ((λ _. (n, refused)), (λ _. refl)),
            ((λ h. absurd (cc h)), (λ (_, h). absurd (cc (h, refused)))),
          ),
        )
  ]

  -- If the operator's file sets the ceiling to a number, then the probe returns a tile, and it is OK
  -- exactly if a part is started under that ceiling, FAILING exactly if the fork is refused, and NOT
  -- MEASURED exactly if the launcher cannot read the count either.
  pub probe_forkserver_is_forkable-spawn_part :
      read_runtime_setting m "fork_thread_ceiling" ≡ ok (integer false ceiling)
      → (r : SubstrateProbeResult) × (probe_forkserver_is_forkable m ≡ ok r)
        × Foretells r (spawn_part m.int_of entry_point ceiling m.stat started)
  unfolding probe_forkserver_is_forkable spawn_part
  probe_forkserver_is_forkable-spawn_part set =
      rw set (judge_threads-spawn (read_kernel_thread_count m.int_of m.stat))
