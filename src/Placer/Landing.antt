-- ===== src/Placer/Landing.antt =====
-- What a placement that is confirmed, or is not, was seen to be.
use ajit_segment_bots.Prelude.{
  ◌<◌, Any, List, Text, [], ok, true, ℕ, ◌∷◌, ◌≡◌, ◌≢◌, ◌≤◌, Result, arith, inl, inr, raise, refl,
  ◌⊎◌, false, ◌↔◌,
}
use ajit_segment_bots.Placer.{
  Round, PlacementError, placed, still_waiting, poll_until, has_process_landed_in_scope,
  read_process_cgroup, lstrip_slashes, placement_not_confirmed, index_error, not_confirmed,
  os_error, placed_by,
}

module _ (scope_name : Text) (returncode deadline : ℕ) where
  -- A round before the deadline that saw the process in the scope, and read the directory.
  abbrev pub Confirms : Text → Round → Type 0
  Confirms directory r =
      (r.clock < deadline)
      × (has_process_landed_in_scope scope_name r.first ≡ true)
      × ((cgroup : Text) × (read_process_cgroup r.second ≡ ok cgroup)
          × (directory ≡ lstrip_slashes cgroup))

  placed_step :
      (r : Round) (rounds : List Round) (directory : Text)
      → poll_until scope_name returncode deadline (r ∷ rounds) ≡ placed directory
      → ((r.clock < deadline)
          × (has_process_landed_in_scope scope_name r.first ≡ false)
          × (poll_until scope_name returncode deadline rounds ≡ placed directory))
        ⊎ ((r.clock < deadline)
            × (has_process_landed_in_scope scope_name r.first ≡ true)
            × (placed_by (read_process_cgroup r.second) ≡ placed directory))
  unfolding poll_until not_confirmed
  placed_step r rounds directory h = ground (arith, h)

  directory_read :
      (m : Result PlacementError Text) (directory : Text)
      → placed_by m ≡ placed directory
      → (cgroup : Text) × (m ≡ ok cgroup) × (directory ≡ lstrip_slashes cgroup)
  unfolding placed_by
  directory_read (raise e) directory h = absurd (cc h)
  directory_read (ok cgroup) directory h = (cgroup, refl, cc h)

  -- A round before the deadline that did not see the process in the scope.
  abbrev pub Waits : Round → Type 0
  Waits r = (r.clock < deadline) × (has_process_landed_in_scope scope_name r.first ≡ false)

  -- The first round that saw the process in the scope confirms, and every round before it waits.
  abbrev pub FirstConfirms : Text → List Round → Type 0
  FirstConfirms directory [] = ⊥
  FirstConfirms directory (r ∷ rounds) =
      Confirms directory r ⊎ (Waits r × FirstConfirms directory rounds)

  confirmed_first :
      (rounds : List Round) (directory : Text)
      → poll_until scope_name returncode deadline rounds ≡ placed directory
      → FirstConfirms directory rounds
  unfolding poll_until
  confirmed_first [] directory h = cc h
  confirmed_first (r ∷ rounds) directory h = elim (placed_step r rounds directory h) [
    | inl (early, unseen, later_one) ↦
        inr ((early, unseen), confirmed_first rounds directory later_one)
    | inr (early, landed, read) ↦
        inl (early, landed, directory_read (read_process_cgroup r.second) directory read)
  ]

  first_confirmed :
      (rounds : List Round) (directory : Text)
      → FirstConfirms directory rounds
      → poll_until scope_name returncode deadline rounds ≡ placed directory
  unfolding poll_until
  first_confirmed [] directory never = absurd never
  first_confirmed (r ∷ rounds) directory (inl (early, landed, (cgroup, read, same))) =
      ground (arith, early, landed, read, same)
  first_confirmed (r ∷ rounds) directory (inr ((early, unseen), later_one)) =
      ground (arith, early, unseen, first_confirmed rounds directory later_one)

  -- A directory is returned exactly if, in the first round in which /proc said that the process is in
  -- the scope, that round and all before it were before the deadline, and the directory is the one
  -- that the second reading of that round gave: whatever the return code of the call is.
  pub poll_until-placed :
      (rounds : List Round) (directory : Text)
      → (poll_until scope_name returncode deadline rounds ≡ placed directory)
        ↔ FirstConfirms directory rounds
  poll_until-placed rounds directory =
      (confirmed_first rounds directory, first_confirmed rounds directory)

  not_waiting :
      (m : Result PlacementError Text)
      → (placed_by m ≢ still_waiting) × (not_confirmed returncode m ≢ still_waiting)
  unfolding placed_by not_confirmed
  not_waiting (ok cgroup) = ((λ e. cc e), (λ e. cc e))
  not_waiting (raise os_error) = ((λ e. cc e), (λ e. cc e))
  not_waiting (raise index_error) = ((λ e. cc e), (λ e. cc e))
  not_waiting (raise (placement_not_confirmed n t)) = ((λ e. cc e), (λ e. cc e))

  waiting_step :
      (r : Round) (rounds : List Round)
      → poll_until scope_name returncode deadline (r ∷ rounds) ≡ still_waiting
      → (r.clock < deadline) × (poll_until scope_name returncode deadline rounds ≡ still_waiting)
  unfolding poll_until
  waiting_step r rounds h = ground (
    arith,
    h,
    not_waiting (read_process_cgroup r.first),
    not_waiting (read_process_cgroup r.second),
  )

  -- Once a round starts at or after the deadline, the loop has ended.
  pub poll_until-ends :
      (rounds : List Round)
      → Any (λ (r : Round). deadline ≤ r.clock) rounds
      → poll_until scope_name returncode deadline rounds ≢ still_waiting
  poll_until-ends [] late h = late
  poll_until-ends (r ∷ rounds) late h =
      let step = waiting_step r rounds h in
      elim late [
        | inl elapsed_by ↦ omega (arith, step.0, elapsed_by)
        | inr rest ↦ poll_until-ends rounds rest step.1
      ]
