-- ===== src/Numeric/Guard.antt =====
-- The equality of shapes, and the size of a file of zeros.
use ajit_segment_bots.Prelude.{List, [], ap, arith, length, refl, suc, true, zero, ℕ, ◌∷◌, ◌≡◌}
use ajit_segment_bots.Numeric.{zeros, shape_eq}

pub length-zeros : (n : ℕ) → length (zeros n) ≡ n
length-zeros zero = refl
length-zeros (suc n) = ap suc (length-zeros n)

pub shape_eq→eq : (s t : List ℕ) → shape_eq s t ≡ true → s ≡ t
unfolding shape_eq
shape_eq→eq [] [] h = refl
shape_eq→eq [] (b ∷ t) h = absurd (cc h)
shape_eq→eq (a ∷ s) [] h = absurd (cc h)
shape_eq→eq (a ∷ s) (b ∷ t) h = ground (arith, h, shape_eq→eq s t)

pub shape_eq_refl : (s : List ℕ) → shape_eq s s ≡ true
unfolding shape_eq
shape_eq_refl [] = refl
shape_eq_refl (a ∷ s) = ground (arith, shape_eq_refl s)
