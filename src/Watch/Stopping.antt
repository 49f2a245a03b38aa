-- ===== src/Watch/Stopping.antt =====
-- The states that `start` and `stop` lead to, and what a stop leaves running.
use ajit_segment_bots.Prelude.{Bool, true, false}
use ajit_segment_bots.Watch.Lifecycle.{WatchThreads, ThreadState, unstarted, alive, ended}

abbrev both : ThreadState → ThreadState → Bool → Bool → Bool → Bool → WatchThreads
both p o has_periodic has_observer stopping ended_now = record {
  periodic = p;
  observer = o;
  stop_event = ended_now;
  observer_stopping = stopping;
  periodic_thread_started = has_periodic;
  observer_started = has_observer;
  stopped = ended_now;
}

-- All there are: new, up, stopped, never up, stopped before a start, and then started.
data Phase : WatchThreads → Type 0 where
  as_new : Phase (both unstarted unstarted false false false false)
  as_up : Phase (both alive alive true true false false)
  as_stopped : Phase (both ended ended true true true true)
  as_failed : Phase (both ended unstarted true false false true)
  as_early : Phase (both unstarted unstarted false false false true)
  as_late : Phase (both ended alive true true false true)
