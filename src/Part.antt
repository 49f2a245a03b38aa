-- ===== src/Part.antt =====
-- runtime/part_process.py: the loop of a part. One turn of the loop is what its environment does
-- during it: whether a command was pending and what `receive_command` gave, how long the turn took,
-- and the wall clock. Times are numbers of one unit; the monotonic clock only grows. The tick and the
-- health callback return.
pub mod Health
mod Tests
use ajit_segment_bots.Control.{ControlError, Json, Refused, refused, unhashable}
use ajit_segment_bots.Prelude.{
  ℕ, String, Bool, ◌&&◌, ◌*◌, ◌+◌, ◌-◌, List, Option, Result, [], if◌then◌else◌, leb, ltb, none, ok,
  raise, some, str_eq, ◌>>=◌, ◌∷◌,
}

-- A fraction of the full rate: `part` out of `whole`.
pub record Rate : Type 0 where
  pub part : ℕ
  pub whole : ℕ

pub data RateError : Type 0 where
  rate_refused : Rate → RateError

abbrev pub exit_switched_off : ℕ
exit_switched_off = 0

abbrev pub exit_control_channel_closed : ℕ
exit_control_channel_closed = 0

-- `health_interval_seconds / rate_ratio`, as a fraction, for a ratio in (0, 1].
unfoldable pub compute_tick_interval : ℕ → Rate → Result RateError Rate
compute_tick_interval health_interval rate =
    if ltb 0 rate.part && leb rate.part rate.whole
    then ok (record { part = health_interval * rate.whole; whole = rate.part })
    else raise (rate_refused rate)

pub record PartHealth : Type 0 where
  pub part_id : String
  pub rate_ratio : Rate
  pub staleness : ℕ
  pub observed_at : ℕ
  pub refused_control_frame : Option Refused

abbrev pub Answer : Type 0
Answer = Result ControlError (Option (String × Json))

pub record Turn : Type 0 where
  pub pending : Option Answer
  pub elapsed : ℕ
  pub wall : ℕ

-- The variables of the loop, the monotonic clock, the ticks done, and the reports that were emitted,
-- the last one first.
pub record Loop : Type 0 where
  pub last_tick_at : ℕ
  pub last_health_at : ℕ
  pub refused_control_frame : Option Refused
  pub clock : ℕ
  pub ticks : ℕ
  pub reports : List PartHealth

-- How the function ends: a returned exit status, or an exception that no handler takes.
pub data Ending : Type 0 where
  returned : ℕ → Ending
  raised : ControlError → Ending

pub data Next : Type 0 where
  going : Loop → Next
  stopped : Ending → Next

unfoldable pub obey : String → Loop → Next
obey command s =
    if str_eq command "off"
    then stopped (returned exit_switched_off)
    else if str_eq command "report-health"
    then going (record s { last_health_at = 0 })
    else going s

unfoldable pub take_command : Option Answer → Loop → Next
unfolding obey
take_command none s = going s
take_command (some (raise (refused why))) s =
    going (record s { refused_control_frame = some why; last_health_at = 0 })
take_command (some (raise unhashable)) s = stopped (raised unhashable)
take_command (some (ok none)) s = stopped (returned exit_control_channel_closed)
take_command (some (ok (some (command, payload)))) s = obey command s

module _ (part_id : String) (health_interval : ℕ) (rate : Rate) where
  report : ℕ → ℕ → Loop → Loop
  report staleness wall s = record s {
    reports =
        record {
          part_id = part_id;
          rate_ratio = rate;
          staleness = staleness;
          observed_at = wall;
          refused_control_frame = s.refused_control_frame;
        }
        ∷ s.reports;
    last_health_at = s.clock;
    refused_control_frame = none;
  }

  -- `do_one_tick()` and what follows it in the loop's body.
  unfoldable pub tick_and_report : Turn → Loop → Loop
  unfolding report
  tick_and_report turn s =
      let now = s.clock + turn.elapsed in
      let staleness = now - s.last_tick_at in
      let s₁ = record s { clock = now; last_tick_at = now; ticks = s.ticks + 1 } in
      if leb health_interval (now - s.last_health_at) then report staleness turn.wall s₁ else s₁

  unfoldable pub finish_turn : Turn → Next → Next
  finish_turn turn (stopped e) = stopped e
  finish_turn turn (going s) = going (tick_and_report turn s)

  unfoldable pub run_turn : Turn → Loop → Next
  unfolding finish_turn
  run_turn turn s = finish_turn turn (take_command turn.pending s)

  -- The loop over the turns that the environment makes; still going where they end first.
  unfoldable pub continue_from : (Loop → Next) → Next → Next
  continue_from rest (stopped e) = stopped e
  continue_from rest (going s) = rest s

  unfoldable pub run_turns : List Turn → Loop → Next
  unfolding continue_from
  run_turns [] s = going s
  run_turns (turn ∷ turns) s = continue_from (run_turns turns) (run_turn turn s)

-- `run_part`: the loop starts with the clock read, and no health reported.
unfoldable pub run_part : String → ℕ → Rate → ℕ → List Turn → Result RateError Next
run_part part_id health_interval rate now turns = do
  tick_interval ← compute_tick_interval health_interval rate
  ok (
      run_turns part_id health_interval rate turns (record {
        last_tick_at = now;
        last_health_at = 0;
        refused_control_frame = none;
        clock = now;
        ticks = 0;
        reports = [];
      }))
