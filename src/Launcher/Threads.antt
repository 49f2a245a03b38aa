-- ===== src/Launcher/Threads.antt =====
-- The thread count and the fork that it allows.
use ajit_segment_bots.Prelude.{
  ◌++◌, All, List, Option, String, Text, [], arith, none, ok, raise, refl, some, true, words, ℕ,
  ◌↔◌, ◌∷◌, ◌≡◌, ◌≢◌, Bool, Result, if◌then◌else◌, leb, ltb, ◌>>=◌, ◌<◌, false,
}
use ajit_segment_bots.Launcher.{
  after_last, field_at, read_kernel_thread_count, is_safe_to_fork, spawn_part, StatError,
  LaunchError, fork_refused, number_of, stat_error,
}

-- No right parenthesis in a text.
abbrev pub IsPlain : Text → Type 0
IsPlain = All (λ (c : ℕ). c ≢ b')')

after_last-plain : (s : Text) → IsPlain s → after_last b')' s ≡ none
unfolding after_last
after_last-plain [] h = refl
after_last-plain (c ∷ s) h = ground (arith, h.0, after_last-plain s h.1)

after_last-append : (front s : Text) → IsPlain s → after_last b')' (front ++ b')' ∷ s) ≡ some s
unfolding after_last
after_last-append [] s h = rw (after_last-plain s h) refl
after_last-append (c ∷ front) s h = rw (after_last-append front s h) refl

module _ (int_of : Text → Option ℕ) where
  -- Whatever stands in the name of the executable, parentheses and spaces included, the count is the
  -- eighteenth word after the parenthesis that closes it, if what follows has none itself.
  pub read_kernel_thread_count_lem :
      (front rest w : Text) (n : ℕ)
      → IsPlain rest
      → field_at 17 (words rest) ≡ some w
      → int_of w ≡ some n
      → read_kernel_thread_count int_of (some (front ++ b')' ∷ rest)) ≡ ok n
  unfolding read_kernel_thread_count number_of
  read_kernel_thread_count_lem front rest w n plain at reads_as =
      rw (after_last-append front rest plain) (rw at (rw (number_of, reads_as) refl))

  -- A part is started, and it alone, exactly if the process is safe to fork; if it is not, the fork
  -- is refused with a count that is above the ceiling; and if the count cannot be read, the error is
  -- the same for both.
  spawn_part_lem :
      (entry_point : String) (thread_ceiling : ℕ) (stat : Option Text) (started : List String)
      → ((is_safe_to_fork int_of thread_ceiling stat ≡ ok true) ↔ (
          spawn_part int_of entry_point thread_ceiling stat started ≡ ok (entry_point ∷ started)))
        × (is_safe_to_fork int_of thread_ceiling stat ≡ ok false
            → (n : ℕ) × (thread_ceiling < n)
              × (spawn_part int_of entry_point thread_ceiling stat started
                  ≡ raise (fork_refused n thread_ceiling)))
        × ((e : StatError)
            → (is_safe_to_fork int_of thread_ceiling stat ≡ raise e)
              ↔ (spawn_part int_of entry_point thread_ceiling stat started ≡ raise (stat_error e)))
  unfolding is_safe_to_fork spawn_part
  spawn_part_lem entry_point thread_ceiling stat started =
      by_count (read_kernel_thread_count int_of stat)
    where
      safe : Result StatError ℕ → Result StatError Bool
      safe m = do count ← m; ok (leb count thread_ceiling)

      spawned : Result StatError ℕ → Result LaunchError (List String)
      spawned m = elim m [
        | raise e ↦ raise (stat_error e)
        | ok observed ↦
            if ltb thread_ceiling observed
            then raise (fork_refused observed thread_ceiling)
            else ok (entry_point ∷ started)
      ]

      by_count :
          (m : Result StatError ℕ)
          → ((safe m ≡ ok true) ↔ (spawned m ≡ ok (entry_point ∷ started)))
            × (safe m ≡ ok false
                → (n : ℕ) × (thread_ceiling < n)
                  × (spawned m ≡ raise (fork_refused n thread_ceiling)))
            × ((e : StatError) → (safe m ≡ raise e) ↔ (spawned m ≡ raise (stat_error e)))
      by_count (raise f) = (ground arith, (λ h. absurd (cc h)), λ e. ground arith)
      by_count (ok n) =
          (ground arith, (λ h. (n, ground (arith, h), ground (arith, h))), λ e. ground arith)
