-- ===== src/Watch/Lifecycle.antt =====
-- `start` and `stop` of a SettingsDirectoryWatch: its two threads, and the flags that say which of them
-- were started. A thread starts once; joining one that never started raises. Whether watchdog's
-- observer starts is given at each call.
use ajit_segment_bots.Watch.Settled.{told}
use ajit_segment_bots.Prelude.{Bool, true, false, if◌then◌else◌, ◌&&◌, not, ◌||◌}

-- A thread that is alive was started and has not ended.
pub data ThreadState : Type 0 where
  unstarted alive ended : ThreadState

pub record WatchThreads : Type 0 where
  pub periodic : ThreadState
  pub observer : ThreadState
  pub stop_event : Bool
  pub observer_stopping : Bool
  pub periodic_thread_started : Bool
  pub observer_started : Bool
  pub stopped : Bool

-- What the constructor leaves.
abbrev pub constructed : WatchThreads
constructed = record {
  periodic = unstarted;
  observer = unstarted;
  stop_event = false;
  observer_stopping = false;
  periodic_thread_started = false;
  observer_started = false;
  stopped = false;
}

-- The observer's own failure, and Python's RuntimeErrors of `Thread.start` and `Thread.join`.
pub data ThreadError : Type 0 where
  observer_failed : ThreadError
  started_twice : ThreadError
  joined_before_start : ThreadError

-- How a call ends, if it does: one that waits for a thread that was not told to end is blocked.
pub data Outcome : Type 0 where
  returned : Outcome
  raised : ThreadError → Outcome
  blocked : Outcome

-- What a call leaves, and how it ended.
abbrev pub Called : Type 0
Called = WatchThreads × Outcome

-- `Thread.join`, with whether the thread was told to end.
abbrev pub join_thread : Bool → ThreadState → Outcome
join_thread told unstarted = raised joined_before_start
join_thread true alive = returned
join_thread false alive = blocked
join_thread told ended = returned

abbrev join_observer : WatchThreads → Called
join_observer s = elim (join_thread s.observer_stopping s.observer) [
  | returned ↦ (record s { observer = ended }, returned)
  | raised e ↦ (s, raised e)
  | blocked ↦ (s, blocked)
]

-- The periodic thread ends once the event is set.
abbrev join_periodic : WatchThreads → Called
join_periodic s = elim (join_thread s.stop_event s.periodic) [
  | returned ↦ (record s { periodic = ended }, returned)
  | raised e ↦ (s, raised e)
  | blocked ↦ (s, blocked)
]

-- The second join, if the first returned.
abbrev join_rest : Called → Called
join_rest (s, returned) = if s.periodic_thread_started then join_periodic s else (s, returned)
join_rest (s, raised e) = (s, raised e)
join_rest (s, blocked) = (s, blocked)

-- `self._observer.stop()`
abbrev stop_observer : WatchThreads → WatchThreads
stop_observer s = record s { observer_stopping = true }

unfoldable pub stop : WatchThreads → Called
stop s =
    if s.stopped
    then (s, returned)
    else (let s₁ = record s { stopped = true; stop_event = true } in
        join_rest
          (if s₁.observer_started then join_observer (stop_observer s₁) else (s₁, returned)))

-- The handler of the observer's failure: it stops the watch, and raises again.
abbrev reraise : ThreadError → Called → Called
reraise e (s, returned) = (s, raised e)
reraise e (s, raised e') = (s, raised e')
reraise e (s, blocked) = (s, blocked)

-- `self._observer.start()`, once the periodic thread was started.
abbrev start_observer : Bool → WatchThreads → Called
start_observer comes_up s = elim s.observer [
  | unstarted ↦
      if comes_up
      then (record s { observer = alive; observer_started = true }, returned)
      else reraise observer_failed (stop s)
  | alive ↦ reraise started_twice (stop s)
  | ended ↦ reraise started_twice (stop s)
]

-- The periodic thread waits for the event first: started when that is set, it ends at once.
abbrev start_periodic : WatchThreads → WatchThreads
start_periodic s = record s {
  periodic = if s.stop_event then ended else alive;
  periodic_thread_started = true;
}

unfoldable pub start : Bool → WatchThreads → Called
start comes_up s = elim s.periodic [
  | unstarted ↦ start_observer comes_up (start_periodic s)
  | alive ↦ (s, raised started_twice)
  | ended ↦ (s, raised started_twice)
]

-- The states that calls of `start` and `stop`, in any order, lead to.
pub data Reached : WatchThreads → Type 0 where
  at_first : Reached constructed
  after_start : {s : WatchThreads} → Reached s → (comes_up : Bool) → Reached (start comes_up s).0
  after_stop : {s : WatchThreads} → Reached s → Reached (stop s).0

abbrev pub is_running : ThreadState → Bool
is_running unstarted = false
is_running alive = true
is_running ended = false

abbrev pub is_quiet : WatchThreads → Bool
is_quiet s = not (is_running s.periodic || is_running s.observer)

-- A watch that was stopped before, with a thread that was started since and runs.
abbrev pub is_late : WatchThreads → Bool
is_late s = s.stopped && not (is_quiet s)
