-- ===== src/Placer/Tests.antt =====
-- A process that lands in its scope in the second round.
use ajit_segment_bots.Placer.Landing.{poll_until-ends, poll_until-placed, FirstConfirms}
use ajit_segment_bots.Prelude.{
  List, Text, [], arith, codes, inl, inr, none, partition, refl, some, starts_with, strip, ◌∷◌, ◌≡◌,
  ◌≢◌, ◌↔◌,
}
use ajit_segment_bots.Placer.{
  poll_until, Round, ScopeLimits, ends_with_text, has_process_landed_in_scope, placed,
  read_process_cgroup, still_waiting,
}

abbrev bounds : ScopeLimits
bounds = record {
  memory_max_bytes = 4096;
  cpu_weight = 100;
  pids_max = none;
  cpu_quota_percent = some 50;
}

abbrev outside : Text
outside = codes "0::/user.slice/session-9.scope\n"

abbrev inside : Text
inside = codes "0::/user.slice/gaps.scope\n"

abbrev two_rounds : List Round
two_rounds =
    record { clock = 1; first = some outside; second = none }
    ∷ record { clock = 2; first = some inside; second = some inside }
    ∷ []

lands : poll_until (codes "gaps") 0 10 two_rounds ≡ placed (codes "user.slice/gaps.scope")
unfolding poll_until has_process_landed_in_scope read_process_cgroup ends_with_text starts_with
    strip partition
lands = refl

poll_until-placed_example :
    (poll_until (codes "gaps") 1 10 two_rounds ≡ placed (codes "user.slice/gaps.scope"))
    ↔ FirstConfirms (codes "gaps") 1 10 (codes "user.slice/gaps.scope") two_rounds
poll_until-placed_example =
    poll_until-placed (codes "gaps") 1 10 two_rounds (codes "user.slice/gaps.scope")

abbrev late_rounds : List Round
late_rounds =
    record { clock = 1; first = some outside; second = none }
    ∷ record { clock = 10; first = some outside; second = none }
    ∷ []

poll_until-ends_example : poll_until (codes "gaps") 1 10 late_rounds ≢ still_waiting
poll_until-ends_example = poll_until-ends (codes "gaps") 1 10 late_rounds (inr (inl (omega arith)))
