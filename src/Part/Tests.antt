-- ===== src/Part/Tests.antt =====
-- The loop of a part at small inputs.
use ajit_segment_bots.Control.{refused, too_large}
use ajit_segment_bots.Part.Health.{IsTimely, run_turns-IsTimely, refusals_reported, refusals_met}
use ajit_segment_bots.Prelude.{◌++◌, [], arith, none, ok, raise, refl, some, ◌∷◌, ◌≡◌}
use ajit_segment_bots.Part.{
  Turn, Loop, run_turn, run_turns, compute_tick_interval, Rate, going, take_command,
  tick_and_report,
}

abbrev full : Rate
full = record { part = 1; whole = 1 }

abbrev half : Rate
half = record { part = 1; whole = 2 }

abbrev fresh : Loop
fresh = record {
  last_tick_at = 100;
  last_health_at = 0;
  refused_control_frame = none;
  clock = 100;
  ticks = 0;
  reports = [];
}

abbrev met_refused : Turn
met_refused = record { pending = some (raise (refused (too_large 9))); elapsed = 3; wall = 50 }

abbrev idle_turn : Turn
idle_turn = record { pending = none; elapsed = 4; wall = 55 }

fresh-IsTimely : IsTimely "probe" 10 full fresh
fresh-IsTimely = record {
  ticked = omega arith;
  reported = omega arith;
  told = refl;
  started = omega arith;
}

abbrev after_two : Loop
after_two = record {
  last_tick_at = 107;
  last_health_at = 103;
  refused_control_frame = none;
  clock = 107;
  ticks = 2;
  reports =
      record {
        part_id = "probe";
        rate_ratio = full;
        staleness = 3;
        observed_at = 50;
        refused_control_frame = some (too_large 9);
      }
      ∷ [];
}

two_turns : run_turns "probe" 10 full (met_refused ∷ idle_turn ∷ []) fresh ≡ going after_two
unfolding run_turns run_turn tick_and_report take_command
two_turns = refl

run_turns-IsTimely_example :
    IsTimely "probe" 10 full after_two
    × (refusals_reported after_two.reports
        ≡ refusals_reported fresh.reports ++ refusals_met (met_refused ∷ idle_turn ∷ []))
run_turns-IsTimely_example =
    run_turns-IsTimely "probe" 10 full (met_refused ∷ idle_turn ∷ []) fresh after_two fresh-IsTimely
      two_turns

abbrev doubled : Rate
doubled = record { part = 20; whole = 1 }

halved : compute_tick_interval 10 half ≡ ok doubled
unfolding compute_tick_interval
halved = refl
