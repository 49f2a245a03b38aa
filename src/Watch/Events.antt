-- ===== src/Watch/Events.antt =====
-- What drives a watch: the constructor, which catalogs the directory, the handler of file system
-- events, and the passes. An exception of `on_rejection` leaves the constructor.
use mathlib.Core.List.{reverse}
use ajit_segment_bots.Watch.Delivery.{is_nonempty}
use ajit_segment_bots.Settings.Reader.{Refusal, message}
use ajit_segment_bots.Settings.{Platform}
use ajit_segment_bots.Settings.Holder.{LastKnownGoodSettings, open_settings}
use ajit_segment_bots.Prelude.{
  Bool, List, Option, Result, String, [], codes, false, if◌then◌else◌, keep_if, none, ok, raise,
  some, sorted_set, starts_with, ◌∷◌, ◌≡◌,
}
use ajit_segment_bots.Dict
use ajit_segment_bots.Dict.{Dict, get, put, get-put}
use ajit_segment_bots.Watch.{Watch, Look, Consumer, mark_in_flight, on_rejection, safely_call}
use ajit_segment_bots.Watch.Recheck.{recheck}

pub record Event : Type 0 where
  pub is_directory : Bool
  pub src_path : String
  pub dest_path : Option String

-- `raw and raw.endswith(SETTINGS_SUFFIX)`
unfoldable pub is_settings_path : String → Bool
is_settings_path raw = starts_with (reverse (codes ".toml")) (reverse (codes raw))

abbrev pub paths_of : Event → List String
paths_of event = event.src_path ∷ elim event.dest_path [ none ↦ [] | some dest ↦ dest ∷ [] ]

unfoldable pub matched_paths : Event → List String
matched_paths event = if event.is_directory then [] else keep_if is_settings_path (paths_of event)

unfoldable pub mark_all : List String → Watch → Watch
unfolding mark_in_flight
mark_all [] w = w
mark_all (path ∷ paths) w = mark_all paths (mark_in_flight path w)

abbrev pub unopened : Watch
unopened = record {
  known = [];
  last_delivered = [];
  pending_overflow = [];
  last_reported_rejection_digest = [];
  in_flight = [];
  log = [];
}

module _ (platform : Platform) (consumer : Consumer) where
  -- One path of the constructor's loop; none where the callback raised.
  unfoldable pub cataloged :
      Look → String → Result Refusal LastKnownGoodSettings → Watch → Option Watch
  cataloged look path (raise refusal) w =
      let call =
        on_rejection
          (record { source_path = path; reason = message refusal; rejected_at_ns = look.now }) in
      let (w', good) = safely_call consumer call w in if good then some w' else none
  cataloged look path (ok settings) w = some (record w {
    known = Dict.put w.known path settings;
    last_delivered = Dict.put w.last_delivered path settings.current;
  })

  unfoldable pub catalog : Look → List String → Watch → Option Watch
  catalog look [] w = some w
  catalog look (path ∷ paths) w =
      elim (cataloged look path
        (open_settings platform path (platform.stem path) (look.read path) look.now) w) [
          | none ↦ none
          | some w' ↦ catalog look paths w'
        ]

  -- `__init__`
  unfoldable pub open_watch : Look → Option Watch
  open_watch look = catalog look (sorted_set look.listed) unopened

  -- `on_any_event`: the paths are marked before the recheck.
  unfoldable pub on_any_event : Event → Look → Watch → Watch
  on_any_event event look w =
      let marked = mark_all (matched_paths event) w in
      let rechecked = recheck platform consumer false look marked in
      if is_nonempty (matched_paths event) then rechecked else w

  -- The states that a watch comes to, with the looks it took: opened, after a pass of either kind,
  -- after an event.
  pub data Reachable : List Look → Watch → Type 0 where
    opened_with : (look : Look) (w : Watch) → open_watch look ≡ some w → Reachable (look ∷ []) w
    passed :
        (is_periodic : Bool) (look : Look) (looks : List Look) (w : Watch)
        → Reachable looks w
        → Reachable (look ∷ looks) (recheck platform consumer is_periodic look w)
    noticed :
        (event : Event) (look : Look) (looks : List Look) (w : Watch)
        → Reachable looks w
        → Reachable (look ∷ looks) (on_any_event event look w)
