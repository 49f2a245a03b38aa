-- ===== src/Writer/Tests.antt =====
-- The writer at small inputs.
use ajit_segment_bots.Placer.{read_process_cgroup}
use mathlib.Core.List.{flatten}
use ajit_segment_bots.Writer.{
  Writer, append, append_all, first_number, read_own_cgroup_memory_peak_bytes, closed_file,
}
use ajit_segment_bots.Writer.Bounds.{IsValid, append_all_bounded}
use ajit_segment_bots.Writer.Covering.{IsCovered, append_all-IsCovered}
use ajit_segment_bots.Prelude.{
  ℕ, ◌+◌, ◌++◌, ◌<◌, List, [], arith, false, length, refl, ◌∷◌, ◌≡◌, Option, Text, codes,
  if◌then◌else◌, none, partition, some, starts_with, strip, text_eq, ok, raise,
}

abbrev fresh : Writer
fresh = record {
  path = "/data/log";
  interval = 4;
  contents = [];
  synced = 0;
  advised = [];
  closed = false;
  bytes_written = 0;
  released_to = 0;
}

abbrev blocks : List (List ℕ)
blocks = (1 ∷ 2 ∷ 3 ∷ []) ∷ (4 ∷ 5 ∷ []) ∷ (6 ∷ []) ∷ []

append_all_runs : append_all fresh blocks ≡ record fresh {
  contents = 1 ∷ 2 ∷ 3 ∷ 4 ∷ 5 ∷ 6 ∷ [];
  synced = 5;
  advised = (0, 5) ∷ [];
  bytes_written = 6;
  released_to = 5;
}
unfolding append_all append
append_all_runs = refl

fresh-IsValid : IsValid fresh
fresh-IsValid = omega arith

append_all_bounded_example :
    ((append_all fresh blocks).contents ≡ (if false then [] else [] ++ flatten blocks))
    × (length (append_all fresh blocks).contents < (append_all fresh blocks).synced + 4)
    × ((append fresh (7 ∷ [])).1 ≡ (if false then raise closed_file else ok (0 + 1)))
append_all_bounded_example = append_all_bounded fresh blocks (7 ∷ []) fresh-IsValid

append_all-IsCovered_example : IsCovered (append_all fresh blocks)
append_all-IsCovered_example = append_all-IsCovered fresh blocks (refl, omega arith)

-- The peak is not there, and the current number is read.
abbrev files_of_group : Text → Option Text
files_of_group path =
    if text_eq path (codes "/sys/fs/cgroup/part.scope/memory.current") then some [] else none

peak_absent :
    read_own_cgroup_memory_peak_bytes
      (λ word. some 7)
      files_of_group
      (some (codes "0::/part.scope"))
    ≡ some 7
unfolding read_own_cgroup_memory_peak_bytes first_number read_process_cgroup partition starts_with
    strip text_eq
peak_absent = refl
