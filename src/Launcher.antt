-- ===== src/Launcher.antt =====
-- runtime/forkserver_launcher.py: the thread caps, the kernel's count of threads, and the refusal to
-- fork. The environment is a dictionary; what stands in /proc/<pid>/stat is a text, or the error of
-- reading it. `int_of` is Python's `int` of a text, none for its ValueError.
pub mod Caps
pub mod Threads
mod Tests
use ajit_segment_bots.Dict
use ajit_segment_bots.Dict.{Dict, get, put}
use ajit_segment_bots.Prelude.{
  ℕ, ◌==◌, Bool, List, Option, Result, String, Text, [], if◌then◌else◌, is_none, leb, ltb, none, ok,
  raise, some, suc, words, zero, ◌>>=◌, ◌∷◌,
}

abbrev pub blas_thread_cap_variables : List String
blas_thread_cap_variables =
    "OPENBLAS_NUM_THREADS" ∷ "OMP_NUM_THREADS" ∷ "MKL_NUM_THREADS" ∷ "VECLIB_MAXIMUM_THREADS"
    ∷ "NUMEXPR_NUM_THREADS" ∷ []

abbrev pub single_thread : String
single_thread = "1"

abbrev pub value_or_single : Option String → String
value_or_single none = single_thread
value_or_single (some v) = v

-- The loop over the names, with the environment and what was applied so far.
unfoldable pub apply_caps : List String → Dict String → Dict String → Dict String × Dict String
apply_caps [] target applied = (target, applied)
apply_caps (name ∷ names) target applied =
    let target' =
      if is_none (Dict.get target name) then Dict.put target name single_thread else target in
    apply_caps names target' (Dict.put applied name (value_or_single (Dict.get target name)))

-- The environment that is left, and what is returned.
unfoldable pub apply_blas_thread_caps : Dict String → Dict String × Dict String
unfolding apply_caps
apply_blas_thread_caps environment = apply_caps blas_thread_cap_variables environment []

abbrev pub num_threads_index_after_comm : ℕ
num_threads_index_after_comm = 17

pub data StatError : Type 0 where
  unreadable_stat no_parenthesis too_few_fields not_a_number : StatError

pub data LaunchError : Type 0 where
  stat_error : StatError → LaunchError
  fork_refused : ℕ → ℕ → LaunchError

-- `raw.rsplit(")", 1)[1]`
unfoldable pub after_last : ℕ → Text → Option Text
after_last c [] = none
after_last c (x ∷ s) = elim (after_last c s) [
  | none ↦ if x == c then some s else none
  | some rest ↦ some rest
]

unfoldable pub field_at : ℕ → List Text → Option Text
field_at n [] = none
field_at zero (w ∷ ws) = some w
field_at (suc n) (w ∷ ws) = field_at n ws

module _ (int_of : Text → Option ℕ) where
  unfoldable pub number_of : Option Text → Result StatError ℕ
  number_of none = raise too_few_fields
  number_of (some w) = elim (int_of w) [ none ↦ raise not_a_number | some n ↦ ok n ]

  count_in : Option Text → Result StatError ℕ
  unfolding number_of
  count_in none = raise no_parenthesis
  count_in (some rest) = number_of (field_at num_threads_index_after_comm (words rest))

  unfoldable pub read_kernel_thread_count : Option Text → Result StatError ℕ
  unfolding count_in
  read_kernel_thread_count none = raise unreadable_stat
  read_kernel_thread_count (some raw) = count_in (after_last b')' raw)

  unfoldable pub is_safe_to_fork : ℕ → Option Text → Result StatError Bool
  is_safe_to_fork thread_ceiling stat = do
    count ← read_kernel_thread_count stat
    ok (leb count thread_ceiling)

  -- The processes that were started, the last one first; `entry_point` names the target.
  abbrev pub Started : Type 0
  Started = List String

  unfoldable pub spawn_part : String → ℕ → Option Text → Started → Result LaunchError Started
  spawn_part entry_point thread_ceiling stat started = elim (read_kernel_thread_count stat) [
    | raise e ↦ raise (stat_error e)
    | ok observed ↦
        if ltb thread_ceiling observed
        then raise (fork_refused observed thread_ceiling)
        else ok (entry_point ∷ started)
  ]

-- `start_forkserver`: the environment in which the server imports the modules of its preload.
pub record ForkServer : Type 0 where
  pub environment : Dict String
  pub preload : List String

unfoldable pub start_forkserver : Dict String → List String → ForkServer
start_forkserver environment preload_modules = record {
  environment = (apply_blas_thread_caps environment).0;
  preload = preload_modules;
}
