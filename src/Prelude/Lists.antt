-- ===== src/Prelude/Lists.antt =====
-- Lists measured by native numbers, tests on every element, and lists of texts as Python sets.
use Prim.Native.Nat.{ℕ, zero, suc, ◌+◌}
use Prim.Native.String.{String}
use mathlib.Core.Path.{◌≡◌, refl, ap}
use mathlib.Core.Logic.{◌⊎◌}
use mathlib.Core.Bool.{Bool, true, false, ◌&&◌, ◌||◌}
use mathlib.Core.List.{List, [], ◌∷◌, ◌++◌}
use native.Mathlib.Omega.{arith}
use text.Mathlib.TextEquality.{eq_iff}
use ajit_segment_bots.Prelude.Tests.{str_eq, if◌then◌else◌}

module _ {ℓ} {A : Type ℓ} where
  abbrev pub length : List A → ℕ
  length [] = 0
  length (x ∷ xs) = suc (length xs)

  pub length-append : (xs ys : List A) → length (xs ++ ys) ≡ length xs + length ys
  length-append [] ys = omega arith
  length-append (x ∷ xs) ys = omega (arith, length-append xs ys)

  abbrev pub take : ℕ → List A → List A
  take zero xs = []
  take (suc n) [] = []
  take (suc n) (x ∷ xs) = x ∷ take n xs

  abbrev pub drop : ℕ → List A → List A
  drop zero xs = xs
  drop (suc n) [] = []
  drop (suc n) (x ∷ xs) = drop n xs

  pub take-exact : (xs ys : List A) → take (length xs) (xs ++ ys) ≡ xs
  take-exact [] ys = refl
  take-exact (x ∷ xs) ys = ap (◌∷◌ x) (take-exact xs ys)

  pub drop-exact : (xs ys : List A) → drop (length xs) (xs ++ ys) ≡ ys
  drop-exact [] ys = refl
  drop-exact (x ∷ xs) ys = drop-exact xs ys

  -- The elements that pass a test (a list comprehension's `if`).
  unfoldable pub keep_if : (A → Bool) → List A → List A
  keep_if p [] = []
  keep_if p (x ∷ xs) = let rest = keep_if p xs in if p x then x ∷ rest else rest

  -- Python's `all(... for ...)`.
  unfoldable pub all_of : (A → Bool) → List A → Bool
  all_of p [] = true
  all_of p (x ∷ xs) = p x && all_of p xs

-- Every element has a property.
abbrev pub All {ℓ κ} : {A : Type ℓ} → (A → Type κ) → List A → Type κ
All P [] = Unit
All P (x ∷ xs) = P x × All P xs

-- Some element has a property.
abbrev pub Any {ℓ} : {A : Type ℓ} → (A → Type 0) → List A → Type 0
Any P [] = ⊥
Any P (x ∷ xs) = P x ⊎ Any P xs

-- Python's `x in xs` over texts.
unfoldable pub contains : List String → String → Bool
contains [] a = false
contains (x ∷ xs) a = str_eq x a || contains xs a

-- `set.add`, `set.discard` and `set.intersection_update` on the list of a set's members.
unfoldable pub add_member : List String → String → List String
add_member s a = if contains s a then s else a ∷ s

unfoldable pub discard_member : List String → String → List String
discard_member s a = keep_if (λ x. if str_eq x a then false else true) s

module _ where
  pub contains-append :
      (xs ys : List String) (a : String) → contains (xs ++ ys) a ≡ (contains xs a || contains ys a)
  unfolding contains
  contains-append [] ys a = refl
  contains-append (x ∷ xs) ys a = ground (arith, contains-append xs ys a)

  pub contains-add_member :
      (s : List String) (a b : String) → contains (add_member s a) b ≡ (str_eq a b || contains s b)
  unfolding add_member contains
  contains-add_member s a b = ground (arith, eq_iff a b)

  pub contains-keep_if :
      (p : String → Bool) (s : List String) (b : String)
      → contains (keep_if p s) b ≡ (p b && contains s b)
  unfolding keep_if contains
  contains-keep_if p [] b = ground arith
  contains-keep_if p (x ∷ xs) b = ground (arith, contains-keep_if p xs b, eq_iff x b)

  pub contains-discard_member :
      (s : List String) (a b : String)
      → contains (discard_member s a) b ≡ (if str_eq b a then false else contains s b)
  unfolding discard_member
  contains-discard_member s a b =
      ground (arith, contains-keep_if (λ x. if str_eq x a then false else true) s b)
