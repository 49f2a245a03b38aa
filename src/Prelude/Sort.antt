-- ===== src/Prelude/Sort.antt =====
-- `sorted(set(xs))` over texts.
use Prim.Native.String.{String, compare}
use mathlib.Core.Path.{◌≡◌, refl}
use mathlib.Core.Bool.{◌||◌}
use mathlib.Core.List.{List, [], ◌∷◌}
use native.Mathlib.Omega.{arith}
use text.Mathlib.Text.{is_lt}
use text.Mathlib.TextEquality.{eq_iff}
use ajit_segment_bots.Prelude.Tests.{str_eq, if◌then◌else◌}
use ajit_segment_bots.Prelude.Lists.{contains}

insert_sorted : String → List String → List String
insert_sorted a [] = a ∷ []
insert_sorted a (x ∷ xs) =
    let rest = insert_sorted a xs in if is_lt (compare a x) then a ∷ x ∷ xs else x ∷ rest

unfoldable pub sorted_set : List String → List String
unfolding insert_sorted
sorted_set [] = []
sorted_set (x ∷ xs) =
    let rest = sorted_set xs in if contains rest x then rest else insert_sorted x rest

contains-insert_sorted :
    (a : String) (xs : List String) (b : String)
    → contains (insert_sorted a xs) b ≡ (str_eq a b || contains xs b)
unfolding insert_sorted contains
contains-insert_sorted a [] b = refl
contains-insert_sorted a (x ∷ xs) b =
    ground (arith, contains-insert_sorted a xs b, is_lt (compare a x))

pub contains-sorted_set :
    (xs : List String) (b : String) → contains (sorted_set xs) b ≡ contains xs b
unfolding sorted_set contains
contains-sorted_set [] b = refl
contains-sorted_set (x ∷ xs) b = ground (
  arith,
  contains-sorted_set xs b,
  contains-sorted_set xs x,
  contains-insert_sorted x (sorted_set xs) b,
  eq_iff x b,
)
