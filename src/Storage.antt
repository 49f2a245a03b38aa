-- ===== src/Storage.antt =====
-- runtime/storage_facts.py: which filesystem a path is on, and the refusal of one that is RAM.
-- An absolute path is the list of its components, the last one first, so that its parents are its
-- tails; `exists` and `resolve` are the file system's answers.
pub mod Winner
mod Tests
use mathlib.Core.List.{reverse}
use ajit_segment_bots.Prelude.{
  ℕ, String, Bool, ◌&&◌, ◌-◌, ◌==◌, List, Option, Result, Text, [], codes, false, if◌then◌else◌,
  leb, length, lines, none, ok, partition, raise, some, text_eq, true, words, ◌||◌, ◌∷◌,
}

abbrev pub FilePath : Type 0
FilePath = List Text

-- A mount: its mount point as `mountinfo` spells it, and its filesystem type.
abbrev pub Mount : Type 0
Mount = Text × Text

abbrev pub memory_backed_filesystems : List Text
memory_backed_filesystems = codes "tmpfs" ∷ codes "ramfs" ∷ codes "devtmpfs" ∷ []

pub data StorageError : Type 0 where
  volatile_storage_refused : FilePath → Text → StorageError

unfoldable pub mem_text : Text → List Text → Bool
mem_text t [] = false
mem_text t (s ∷ ss) = text_eq s t || mem_text t ss

-- One line of `mountinfo`: its fifth field and the first one after the separator.
mount_of : List Text → List Text → Option Mount
mount_of (_ ∷ _ ∷ _ ∷ _ ∷ point ∷ _) (kind ∷ _) = some (point, kind)
mount_of _ _ = none

unfoldable pub parse_mount : Text → Option Mount
unfolding mount_of
parse_mount line = elim (partition (codes " - ") line) [
  | none ↦ none
  | some (before, after) ↦ mount_of (words before) (words after)
]

cons_mount : Option Mount → List Mount → List Mount
cons_mount none ms = ms
cons_mount (some m) ms = m ∷ ms

unfoldable pub mounts_of : List Text → List Mount
unfolding cons_mount
mounts_of [] = []
mounts_of (line ∷ rest) = cons_mount (parse_mount line) (mounts_of rest)

abbrev pub point_length : Mount → ℕ
point_length (point, kind) = length point

-- `list.sort` by the length of the mount point, which keeps the order of equal lengths.
unfoldable pub insert_mount : Mount → List Mount → List Mount
insert_mount m [] = m ∷ []
insert_mount m (n ∷ ms) =
    let rest = insert_mount m ms in
    if leb (point_length m) (point_length n) then m ∷ n ∷ ms else n ∷ rest

unfoldable pub sort_mounts : List Mount → List Mount
sort_mounts [] = []
sort_mounts (m ∷ ms) = insert_mount m (sort_mounts ms)

unfoldable pub read_mount_table : Text → List Mount
unfolding mounts_of sort_mounts insert_mount
read_mount_table mountinfo = sort_mounts (mounts_of (lines mountinfo))

-- `pathlib.Path` of an absolute mount point: what stands between slashes, without the empty parts.
push_part : Text → FilePath → FilePath
push_part [] parts = parts
push_part (c ∷ w) parts = reverse (c ∷ w) ∷ parts

parts_from : Text → FilePath → Text → FilePath
unfolding push_part
parts_from w parts [] = push_part w parts
parts_from w parts (c ∷ s) =
    parts_from (if c == b'/' then [] else c ∷ w) (if c == b'/' then push_part w parts else parts) s

unfoldable pub path_of : Text → FilePath
unfolding parts_from
path_of point = parts_from [] [] point

path_eq : FilePath → FilePath → Bool
path_eq [] [] = true
path_eq [] (b ∷ t) = false
path_eq (a ∷ s) [] = false
path_eq (a ∷ s) (b ∷ t) = text_eq a b && path_eq s t

-- `resolved == mount or mount in resolved.parents`
unfoldable pub is_at_or_above : FilePath → FilePath → Bool
unfolding path_eq
is_at_or_above mount [] = path_eq mount []
is_at_or_above mount (part ∷ parent) = path_eq mount (part ∷ parent) || is_at_or_above mount parent

-- `_nearest_existing_ancestor`: the root is its own parent, and ends the loop.
unfoldable pub nearest_existing_ancestor : (FilePath → Bool) → FilePath → FilePath
nearest_existing_ancestor exists [] = []
nearest_existing_ancestor exists (part ∷ parent) =
    let higher = nearest_existing_ancestor exists parent in
    if exists (part ∷ parent) then part ∷ parent else higher

-- The loop over the mount table: the last mount that matches wins.
unfoldable pub winner_among : FilePath → Text → List Mount → Text
winner_among resolved winner [] = winner
winner_among resolved winner ((point, kind) ∷ ms) =
    winner_among resolved (if is_at_or_above (path_of point) resolved then kind else winner) ms

module _ (exists : FilePath → Bool) (resolve : FilePath → FilePath) (mountinfo : Text) where
  unfoldable pub read_filesystem_type : FilePath → Text
  read_filesystem_type path =
      winner_among (resolve (nearest_existing_ancestor exists path)) (codes "unknown")
        (read_mount_table mountinfo)

  unfoldable pub is_memory_backed_filesystem : FilePath → Bool
  unfolding read_filesystem_type mem_text
  is_memory_backed_filesystem path = mem_text (read_filesystem_type path) memory_backed_filesystems

  unfoldable pub require_durable_directory : FilePath → Result StorageError FilePath
  unfolding mem_text
  require_durable_directory path =
      let filesystem_type = read_filesystem_type path in
      if mem_text filesystem_type memory_backed_filesystems
      then raise (volatile_storage_refused path filesystem_type)
      else ok path
