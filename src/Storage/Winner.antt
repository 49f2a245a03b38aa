-- ===== src/Storage/Winner.antt =====
-- The mount that decides: the longest mount point at or above the path.
use native.Mathlib.Nat.{le_trans, le_refl}
use ajit_segment_bots.Storage.{
  FilePath, Mount, insert_mount, is_at_or_above, path_of, point_length, sort_mounts, mounts_of,
  nearest_existing_ancestor, read_filesystem_type, read_mount_table, winner_among,
}
use ajit_segment_bots.Prelude.{
  Bool, Bool-cases, List, Text, [], arith, codes, inl, inr, leb, leb→le, true, ◌∷◌, ◌≡◌, ◌≤◌, ◌⊎◌,
  length, lines, refl, ◌∙◌, All, Any,
}

abbrev pub Matches : FilePath → Mount → Type 0
Matches resolved m = is_at_or_above (path_of m.0) resolved ≡ true

abbrev IsSorted : List Mount → Type 0
IsSorted [] = Unit
IsSorted (m ∷ ms) = All (λ n. point_length m ≤ point_length n) ms × IsSorted ms

All-map : {P Q : Mount → Type 0} (ms : List Mount) → ((m : Mount) → P m → Q m) → All P ms → All Q ms
All-map [] f h = h
All-map (m ∷ ms) f h = (f m h.0, All-map ms f h.1)

All-insert :
    (P : Mount → Type 0) (m : Mount) (ms : List Mount) → P m → All P ms → All P (insert_mount m ms)
unfolding insert_mount
All-insert P m [] h a = (h, tt)
All-insert P m (n ∷ ms) h a = elim (Bool-cases (leb (point_length m) (point_length n))) [
  | inl e ↦ rw e (h, a)
  | inr e ↦ rw e (a.0, All-insert P m ms h a.1)
]

insert-IsSorted : (m : Mount) (ms : List Mount) → IsSorted ms → IsSorted (insert_mount m ms)
unfolding insert_mount
insert-IsSorted m [] s = (tt, tt)
insert-IsSorted m (n ∷ ms) s = elim (Bool-cases (leb (point_length m) (point_length n))) [
  | inl e ↦
      let le : point_length m ≤ point_length n = leb→le (point_length m) (point_length n) e in
      rw e ((le, All-map ms (λ k h. le_trans le h) s.0), s)
  | inr e ↦ rw e (
    All-insert (λ k. point_length n ≤ point_length k) m ms (ground arith) s.0,
    insert-IsSorted m ms s.1,
  )
]

sort-IsSorted : (ms : List Mount) → IsSorted (sort_mounts ms)
unfolding sort_mounts
sort-IsSorted [] = tt
sort-IsSorted (m ∷ ms) = insert-IsSorted m (sort_mounts ms) (sort-IsSorted ms)

-- A kind is the answer if nothing matches and it is the default, or if a mount of that kind matches
-- and no mount that matches has a longer mount point.
abbrev pub IsLongest : FilePath → List Mount → Mount → Type 0
IsLongest resolved ms m =
    Matches resolved m × All (λ n. Matches resolved n → point_length n ≤ point_length m) ms

pub record Decides (resolved : FilePath) (ms : List Mount) (answer : Text) : Type 0 where
  pub by :
      ((answer ≡ codes "unknown") × All (λ n. ¬ Matches resolved n) ms)
      ⊎ Any (λ m. (answer ≡ m.1) × IsLongest resolved ms m) ms

Any-sorted :
    {P Q R : Mount → Type 0} (ms : List Mount)
    → ((m : Mount) → P m → Q m → R m)
    → All P ms
    → Any Q ms
    → Any R ms
Any-sorted [] f a h = h
Any-sorted (m ∷ ms) f a (inl h) = inl (f m a.0 h)
Any-sorted (m ∷ ms) f a (inr h) = inr (Any-sorted ms f a.1 h)

-- What the loop returns is the default if nothing matches, and else the kind of a mount that matches
-- after which none matches.
winner_among-Decides :
    (resolved : FilePath) (winner : Text) (ms : List Mount)
    → IsSorted ms
    → ((winner_among resolved winner ms ≡ winner) × All (λ n. ¬ Matches resolved n) ms)
      ⊎ Any (λ m. (winner_among resolved winner ms ≡ m.1) × IsLongest resolved ms m) ms
unfolding winner_among
winner_among-Decides resolved winner [] s = inl (refl, tt)
winner_among-Decides resolved winner ((point, kind) ∷ ms) s =
    elim (Bool-cases (is_at_or_above (path_of point) resolved)) [
      | inl e ↦
          let step : winner_among resolved winner ((point, kind) ∷ ms)
              ≡ winner_among resolved kind ms =
            rw (e, winner_among) in
          elim (winner_among-Decides resolved kind ms s.1) [
            | inl (same, absent) ↦ inr (
                inl (
                  step ∙ same,
                  (
                    e,
                    (
                      λ _. le_refl (length point),
                      All-map ms (λ n no_match h. absurd (no_match h)) absent,
                    ),
                  ),
                ))
            | inr later_mount ↦ inr (inr (Any-longer kind step later_mount))
          ]
      | inr e ↦
          let step : winner_among resolved winner ((point, kind) ∷ ms)
              ≡ winner_among resolved winner ms =
            rw (e, winner_among) in
          elim (winner_among-Decides resolved winner ms s.1) [
            | inl (same, absent) ↦ inl (step ∙ same, ((λ h. cc (e, h)), absent))
            | inr later_mount ↦ inr (inr (Any-longer winner step later_mount))
          ]
    ]
  where
    answer : Text
    answer = winner_among resolved winner ((point, kind) ∷ ms)

    longer :
        (w : Text)
        → answer ≡ winner_among resolved w ms
        → (m : Mount) → length point ≤ point_length m
        → (winner_among resolved w ms ≡ m.1) × IsLongest resolved ms m
        → (answer ≡ m.1) × IsLongest resolved ((point, kind) ∷ ms) m
    longer w step m le h = (step ∙ h.0, (h.1.0, ((λ _. le), h.1.1)))

    Any-longer :
        (w : Text)
        → answer ≡ winner_among resolved w ms
        → Any (λ m. (winner_among resolved w ms ≡ m.1) × IsLongest resolved ms m) ms
        → Any (λ m. (answer ≡ m.1) × IsLongest resolved ((point, kind) ∷ ms) m) ms
    Any-longer w step h = Any-sorted ms (λ m. longer w step m) s.0 h

-- The filesystem type of a path is `unknown` where no mount point is at or above the resolved
-- path, and else the type of one that is, with no longer one in the table that is.
pub read_filesystem_type-Decides :
    (exists : FilePath → Bool) (resolve : FilePath → FilePath) (mountinfo : Text) (path : FilePath)
    → Decides
        (resolve (nearest_existing_ancestor exists path))
        (read_mount_table mountinfo)
        (read_filesystem_type exists resolve mountinfo path)
unfolding read_filesystem_type read_mount_table
read_filesystem_type-Decides exists resolve mountinfo path = record {
  by =
      winner_among-Decides (resolve (nearest_existing_ancestor exists path)) (codes "unknown")
        (read_mount_table mountinfo) (sort-IsSorted (mounts_of (lines mountinfo)));
}
