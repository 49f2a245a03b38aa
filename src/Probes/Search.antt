-- ===== src/Probes/Search.antt =====
-- Where the search for the pinned version finds it.
use ajit_segment_bots.Prelude.{
  ◌≡◌, refl, ◌*◌, ◌+◌, ◌++◌, ℕ, List, [], ◌∷◌, Option, none, some, Text, All, map, ap,
}
use ajit_segment_bots.Probes.Pinned.{digits_from, number_at, version_at, search_version}

module _ (digit_of : ℕ → Option ℕ) where
  -- Characters with the values that they have as digits, as many as there are.
  abbrev pub AreDigits : List (ℕ × ℕ) → Type 0
  AreDigits = All (λ (d : ℕ × ℕ). digit_of d.0 ≡ some d.1)

  abbrev pub spelled : List (ℕ × ℕ) → Text
  spelled = map (λ d. d.0)

  -- The number that they spell after `n`, the most significant digit first.
  abbrev pub value_after : ℕ → List (ℕ × ℕ) → ℕ
  value_after n [] = n
  value_after n (d ∷ ds) = value_after (n * 10 + d.1) ds

  -- No digit stands at the front of a text.
  abbrev pub IsStopped : Text → Type 0
  IsStopped [] = Unit
  IsStopped (c ∷ s) = digit_of c ≡ none

  digits_from-spelled :
      (n : ℕ) (ds : List (ℕ × ℕ)) (rest : Text)
      → AreDigits ds
      → IsStopped rest
      → digits_from digit_of n (spelled ds ++ rest) ≡ (value_after n ds, rest)
  unfolding digits_from
  digits_from-spelled n [] [] h stop = refl
  digits_from-spelled n [] (c ∷ rest) h stop = rw stop refl
  digits_from-spelled n (d ∷ ds) rest h stop =
      rw h.0 (digits_from-spelled (n * 10 + d.1) ds rest h.1 stop)

  number_at-spelled :
      (d : ℕ × ℕ) (ds : List (ℕ × ℕ)) (rest : Text)
      → AreDigits (d ∷ ds)
      → IsStopped rest
      → number_at digit_of (spelled (d ∷ ds) ++ rest) ≡ some (value_after d.1 ds, rest)
  unfolding number_at
  number_at-spelled d ds rest h stop = rw h.0 (ap some (digits_from-spelled d.1 ds rest h.1 stop))

  number_at-stopped : (c : ℕ) (s : Text) → digit_of c ≡ none → version_at digit_of (c ∷ s) ≡ none
  unfolding version_at number_at
  number_at-stopped c s stop = rw (version_at, number_at, stop) refl

  version_at-spelled :
      (a b : ℕ × ℕ) (major_rest minor_rest : List (ℕ × ℕ)) (rest : Text)
      → digit_of b'.' ≡ none
      → AreDigits (a ∷ major_rest)
      → AreDigits (b ∷ minor_rest)
      → IsStopped rest
      → version_at digit_of (spelled (a ∷ major_rest) ++ b'.' ∷ (spelled (b ∷ minor_rest) ++ rest))
        ≡ some (value_after a.1 major_rest, value_after b.1 minor_rest)
  unfolding version_at
  version_at-spelled a b major_rest minor_rest rest point major minor stop =
      rw
        (
          version_at,
          number_at-spelled a major_rest (b'.' ∷ (spelled (b ∷ minor_rest) ++ rest)) major point,
          number_at-spelled b minor_rest rest minor stop,
        )
        refl

  -- If no digit stands in what comes first, a point is no digit, and two numbers with a point between
  -- them follow, the second not followed by a further digit, then the search finds just these numbers,
  -- each with all its digits.
  pub search_version_lem :
      (front : Text) (a b : ℕ × ℕ) (major_rest minor_rest : List (ℕ × ℕ)) (rest : Text)
      → All (λ c. digit_of c ≡ none) front
      → digit_of b'.' ≡ none
      → AreDigits (a ∷ major_rest)
      → AreDigits (b ∷ minor_rest)
      → IsStopped rest
      → search_version digit_of
          (front ++ (spelled (a ∷ major_rest) ++ b'.' ∷ (spelled (b ∷ minor_rest) ++ rest)))
        ≡ some (value_after a.1 major_rest, value_after b.1 minor_rest)
  unfolding search_version
  search_version_lem [] a b major_rest minor_rest rest none_in point major minor stop =
      rw (search_version, version_at-spelled a b major_rest minor_rest rest point major minor stop)
        refl
  search_version_lem (c ∷ front) a b major_rest minor_rest rest none_in point major minor stop =
      rw (search_version, number_at-stopped c _ none_in.0)
        (search_version_lem front a b major_rest minor_rest rest none_in.1 point major minor stop)
