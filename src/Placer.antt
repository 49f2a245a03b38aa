-- ===== src/Placer.antt =====
-- runtime/scope_placer.py: the call that asks systemd for a scope, and the loop that waits until
-- /proc says that the process is there. A limit is a number that is not negative. What stands in
-- /proc/<pid>/cgroup is a text, or none for an OSError; `busctl` answers a return code. A round of
-- the loop is what its environment shows: the clock at the test, and the two readings it may make.
pub mod Words
pub mod Landing
mod Tests
use ajit_segment_bots.Settings.{decimal}
use mathlib.Core.List.{reverse}
use Prim.Native.String.{◌++◌ as concat}
use ajit_segment_bots.Prelude.{
  ℕ, ◌*◌, ◌+◌, ◌++◌, ◌==◌, Bool, List, Option, Result, String, Text, [], codes, false,
  if◌then◌else◌, length, ltb, none, ok, partition, raise, some, starts_with, strip, ◌∷◌,
}

pub record ScopeLimits : Type 0 where
  pub memory_max_bytes : ℕ
  pub cpu_weight : ℕ
  pub pids_max : Option ℕ
  pub cpu_quota_percent : Option ℕ

abbrev pub scope_limit_files : List String
scope_limit_files =
    "memory.max" ∷ "cpu.weight" ∷ "pids.max" ∷ "cpu.pressure" ∷ "memory.pressure" ∷ []

pub data PlacementError : Type 0 where
  os_error index_error : PlacementError
  placement_not_confirmed : ℕ → Option Text → PlacementError

-- `text.split("::")[1]`
second_part : Text → Option Text
second_part raw = elim (partition (codes "::") raw) [
  | none ↦ none
  | some (before, after) ↦ elim (partition (codes "::") after) [
    | none ↦ some after
    | some (middle, rest) ↦ some middle
  ]
]

unfoldable pub read_process_cgroup : Option Text → Result PlacementError Text
unfolding second_part
read_process_cgroup none = raise os_error
read_process_cgroup (some raw) = elim (second_part (strip raw)) [
  | none ↦ raise index_error
  | some cgroup ↦ ok cgroup
]

-- `text.endswith(suffix)`
unfoldable pub ends_with_text : Text → Text → Bool
ends_with_text suffix raw = starts_with (reverse suffix) (reverse raw)

unfoldable pub has_process_landed_in_scope : Text → Option Text → Bool
has_process_landed_in_scope scope_name reading = elim (read_process_cgroup reading) [
  | raise e ↦ false
  | ok cgroup ↦ ends_with_text (codes "/" ++ (scope_name ++ codes ".scope")) cgroup
]

-- `properties`
optional_property : Option ℕ → (ℕ → List String) → List (List String)
optional_property none property = []
optional_property (some n) property = property n ∷ []

unfoldable pub properties_for : ℕ → ScopeLimits → List (List String)
unfolding optional_property
properties_for pid limits =
    ("PIDs" ∷ "au" ∷ "1" ∷ decimal pid ∷ [])
    ∷ ("MemoryMax" ∷ "t" ∷ decimal limits.memory_max_bytes ∷ [])
    ∷ ("CPUWeight" ∷ "t" ∷ decimal limits.cpu_weight ∷ [])
    ∷ (optional_property limits.pids_max (λ n. "TasksMax" ∷ "t" ∷ decimal n ∷ [])
        ++ optional_property limits.cpu_quota_percent
            (λ n. "CPUQuotaPerSecUSec" ∷ "t" ∷ decimal (n * 10000) ∷ []))

abbrev pub flattened : List (List String) → List String
flattened [] = []
flattened (ws ∷ wss) = ws ++ flattened wss

abbrev pub scope_unit : String → String
scope_unit scope_name = concat scope_name ".scope"

unfoldable pub build_transient_unit_call : ℕ → String → ScopeLimits → List String
build_transient_unit_call pid scope_name limits =
    "busctl"
    ∷ "--user"
    ∷ "call"
    ∷ "org.freedesktop.systemd1"
    ∷ "/org/freedesktop/systemd1"
    ∷ "org.freedesktop.systemd1.Manager"
    ∷ "StartTransientUnit"
    ∷ "ssa(sv)a(sa(sv))"
    ∷ scope_unit scope_name
    ∷ "fail"
    ∷ decimal (length (properties_for pid limits))
    ∷ (flattened (properties_for pid limits) ++ "0" ∷ [])

pub record Round : Type 0 where
  pub clock : ℕ
  pub first : Option Text
  pub second : Option Text

abbrev pub lstrip_slashes : Text → Text
lstrip_slashes [] = []
lstrip_slashes (c ∷ s) = let rest = lstrip_slashes s in if c == 47 then rest else c ∷ s

-- `CGROUP_ROOT / relative.lstrip("/")`, and the root itself where nothing is left.
unfoldable pub below_cgroup_root : Text → Text
below_cgroup_root relative = elim (lstrip_slashes relative) [
  | [] ↦ codes "/sys/fs/cgroup"
  | ◌∷◌ c s ↦ codes "/sys/fs/cgroup/" ++ (c ∷ s)
]

-- The directory is below CGROUP_ROOT, and is given by the text that is joined to that.
pub data Placement : Type 0 where
  placed : Text → Placement
  failed : PlacementError → Placement
  still_waiting : Placement

unfoldable pub placed_by : Result PlacementError Text → Placement
placed_by (raise e) = failed e
placed_by (ok cgroup) = placed (lstrip_slashes cgroup)

-- What follows the loop: only an OSError of the last reading is taken.
unfoldable pub not_confirmed : ℕ → Result PlacementError Text → Placement
not_confirmed returncode (ok observed) = failed (placement_not_confirmed returncode (some observed))
not_confirmed returncode (raise os_error) = failed (placement_not_confirmed returncode none)
not_confirmed returncode (raise e) = failed e

-- The loop over the rounds that the environment makes; a round at or after the deadline ends it, and
-- its first reading is the one of the message.
unfoldable pub poll_until : Text → ℕ → ℕ → List Round → Placement
unfolding placed_by not_confirmed
poll_until scope_name returncode deadline [] = still_waiting
poll_until scope_name returncode deadline (r ∷ rounds) =
    let later_rounds = poll_until scope_name returncode deadline rounds in
    if ltb r.clock deadline
    then (if has_process_landed_in_scope scope_name r.first
        then placed_by (read_process_cgroup r.second)
        else later_rounds)
    else not_confirmed returncode (read_process_cgroup r.first)

-- `place_process_in_scope`: the call is made, whatever it returns, and the loop waits.
unfoldable pub place_process_in_scope :
    (List String → ℕ) → ℕ → String → ScopeLimits → ℕ → ℕ → List Round → Placement
place_process_in_scope busctl pid scope_name limits now confirmation_deadline rounds =
    let returncode = busctl (build_transient_unit_call pid scope_name limits) in
    poll_until (codes scope_name) returncode (now + confirmation_deadline) rounds

-- `read` is the text of a file of the directory, none for an OSError.
unfoldable pub read_scope_limits_in_effect :
    (String → Option Text) → List String → List (String × Text)
read_scope_limits_in_effect read [] = []
read_scope_limits_in_effect read (filename ∷ rest) =
    (filename, elim (read filename) [ none ↦ codes "unreadable" | some raw ↦ strip raw ])
    ∷ read_scope_limits_in_effect read rest
