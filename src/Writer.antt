-- ===== src/Writer.antt =====
-- runtime/page_cache_discipline.py: `CacheReleasingWriter`. A file's contents are the bytes that
-- the handle took; `synced` is how many of them the last fsync covered, and `advised` the ranges
-- that were handed back to the kernel, the last one first.
pub mod Bounds
pub mod Covering
mod Tests
use ajit_segment_bots.Placer.{read_process_cgroup}
use ajit_segment_bots.Prelude.{
  Text, codes, strip, Option, none, some, ℕ, String, Bool, ◌+◌, ◌++◌, ◌-◌, ◌==◌, List, Result, [],
  false, if◌then◌else◌, leb, length, ltb, ok, raise, true, ◌∷◌,
}

pub data WriterError : Type 0 where
  volatile_storage_refused : String → WriterError
  nonpositive_interval : WriterError
  closed_file : WriterError

pub record Writer : Type 0 where
  pub path : String
  pub interval : ℕ
  pub contents : List ℕ
  pub synced : ℕ
  pub advised : List (ℕ × ℕ)
  pub closed : Bool
  pub bytes_written : ℕ
  pub released_to : ℕ

-- `__init__`: `durable` is the answer of `require_durable_directory(path.parent)`. An interval is a
-- number that is not negative, so the refusal is of 0.
unfoldable pub open_writer : String → ℕ → Bool → Result WriterError Writer
open_writer path interval durable =
    if durable
    then (if interval == 0
        then raise nonpositive_interval
        else ok (record {
          path = path;
          interval = interval;
          contents = [];
          synced = 0;
          advised = [];
          closed = false;
          bytes_written = 0;
          released_to = 0;
        }))
    else raise (volatile_storage_refused path)

-- `os.posix_fadvise` of the range that was not handed back yet, if there is one.
release : Writer → Writer
release w =
    let size = w.bytes_written - w.released_to in
    if ltb 0 size
    then record w { advised = (w.released_to, size) ∷ w.advised; released_to = w.bytes_written }
    else w

-- What `force_writeback` does to an open file.
unfoldable pub written_back : Writer → Writer
unfolding release
written_back w = release (record w { synced = length w.contents })

-- What a call leaves, and what it answers: the handle raises a ValueError once it is closed.
unfoldable pub force_writeback : Writer → Writer × Result WriterError (Unit {0})
force_writeback w = if w.closed then (w, raise closed_file) else (written_back w, ok tt)

unfoldable pub append : Writer → List ℕ → Writer × Result WriterError ℕ
unfolding force_writeback written_back
append w block =
    let w₁ = record w {
      contents = w.contents ++ block;
      bytes_written = w.bytes_written + length block;
    } in
    let w₂ =
      if leb w₁.interval (w₁.bytes_written - w₁.released_to) then (force_writeback w₁).0 else w₁ in
    if w.closed then (w, raise closed_file) else (w₂, ok w₂.bytes_written)

unfoldable pub close : Writer → Writer
unfolding force_writeback written_back
close w = if w.closed then w else record (force_writeback w).0 { closed = true }

-- The writer after appends, each of which may have been refused.
unfoldable pub append_all : Writer → List (List ℕ) → Writer
append_all w [] = w
append_all w (block ∷ blocks) = append_all (append w block).0 blocks

-- `read_own_cgroup_memory_peak_bytes`: what stands at a path is a text, or none for an OSError;
-- `int_of` is Python's `int` of a text, none for its ValueError.
module _ (int_of : Text → Option ℕ) (at_path : Text → Option Text) where
  unfoldable pub first_number : Text → List String → Option ℕ
  first_number directory [] = none
  first_number directory (filename ∷ filenames) =
      let later_on = first_number directory filenames in
      elim (at_path (directory ++ (b'/' ∷ codes filename))) [
        | none ↦ later_on
        | some contents ↦ elim (int_of (strip contents)) [ none ↦ later_on | some n ↦ some n ]
      ]

  unfoldable pub read_own_cgroup_memory_peak_bytes : Option Text → Option ℕ
  unfolding first_number
  read_own_cgroup_memory_peak_bytes own = elim (read_process_cgroup own) [
    | raise e ↦ none
    | ok relative ↦
        first_number (codes "/sys/fs/cgroup" ++ relative) ("memory.peak" ∷ "memory.current" ∷ [])
  ]
