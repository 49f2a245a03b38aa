-- ===== src/Watch.antt =====
-- runtime/settings_watcher.py: the state of a `SettingsDirectoryWatch` and what surrounds it.
-- A path is its text. What the file system shows during one pass is a `Look`; the three callbacks
-- are one consumer, which answers each call with whether it returned, from the calls before it.
pub mod Compare
pub mod Delivery
pub mod Recheck
pub mod Diff
pub mod Frame
pub mod Isolation
pub mod Settled
pub mod Retold
pub mod Heard
pub mod HeardPass
pub mod Accepted
pub mod Held
pub mod Gone
pub mod Steps
pub mod Quiet
pub mod Pass
pub mod Rest
pub mod Again
pub mod Events
pub mod Seen
pub mod Reached
pub mod Lifecycle
pub mod Stopping
mod Tests
use ajit_segment_bots.Prelude.{
  ℕ, String, Bool, List, [], ◌∷◌, Result, contains, add_member, discard_member, keep_if,
}
use ajit_segment_bots.Dict.{Dict}
use ajit_segment_bots.Settings.Reader.{SettingsDocument}
use ajit_segment_bots.Settings.Holder.{LastKnownGoodSettings, SettingsRejection}

pub record SettingsChange : Type 0 where
  pub changed_field : String
  pub old_value : String
  pub new_value : String
  pub observed_at_ns : ℕ

-- One call of `on_change`, `on_rejection` or `on_overflow`.
pub data Call : Type 0 where
  on_change : List SettingsChange → Call
  on_rejection : SettingsRejection → Call
  on_overflow : Call

-- The calls that were made, the last one first, each with whether it returned.
abbrev pub Log : Type 0
Log = List (Call × Bool)

abbrev pub Consumer : Type 0
Consumer = Log → Call → Bool

-- The directory listing, the reading of each file, the second reading that
-- `_digest_for_rejection_dedup` makes, and the clock, as they answer during one pass.
pub record Look : Type 0 where
  pub listed : List String
  pub read : String → Result String (List ℕ)
  pub reread : String → Result String (List ℕ)
  pub now : ℕ

pub record Watch : Type 0 where
  pub known : Dict LastKnownGoodSettings
  pub last_delivered : Dict SettingsDocument
  pub pending_overflow : List String
  pub last_reported_rejection_digest : Dict String
  pub in_flight : List String
  pub log : Log

-- `_mark_in_flight`, `_is_in_flight`, `_clear_in_flight` and `_clear_in_flight_not_among`.
unfoldable pub mark_in_flight : String → Watch → Watch
mark_in_flight path w = record w { in_flight = add_member w.in_flight path }

unfoldable pub is_in_flight : String → Watch → Bool
is_in_flight path w = contains w.in_flight path

unfoldable pub clear_in_flight : String → Watch → Watch
clear_in_flight path w = record w { in_flight = discard_member w.in_flight path }

unfoldable pub clear_in_flight_not_among : List String → Watch → Watch
clear_in_flight_not_among visited w = record w {
  in_flight = keep_if (contains visited) w.in_flight;
}

module _ (consumer : Consumer) where
  -- `_safely_call`: the call is made, and its failure goes no further.
  unfoldable pub safely_call : Call → Watch → Watch × Bool
  safely_call call w =
      let good = consumer w.log call in (record w { log = (call, good) ∷ w.log }, good)
