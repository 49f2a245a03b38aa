-- ===== src/Journal/Order.antt =====
-- The order of bytes, and that big-endian fields of one width stand in the order of their numbers.
use native.Mathlib.Nat.{mul-suc, mul-le-mul_left, div-add-mod, mod-lt}
use ajit_segment_bots.Prelude.{
  ◌≡◌, ◌&&◌, ◌||◌, ℕ, ◌+◌, ◌*◌, ◌/◌, ◌%◌, ◌==◌, zero, suc, true, false, not, [], ◌∷◌, ◌++◌, ltb,
  arith, length, refl, ◌<◌, ◌≤◌, starts_with, text_eq, Bool-cases, inl, inr, ltb→lt,
}
use ajit_segment_bots.Journal.{Bytes, span, bytes_of, bytes_le}

pub bytes_le_refl : (s : Bytes) → bytes_le s s ≡ true
unfolding bytes_le
bytes_le_refl [] = refl
bytes_le_refl (a ∷ s) = ground (arith, bytes_le_refl s)

pub bytes_le_trans :
    (s t u : Bytes) → bytes_le s t ≡ true → bytes_le t u ≡ true → bytes_le s u ≡ true
unfolding bytes_le
bytes_le_trans [] t u h k = refl
bytes_le_trans (a ∷ s) [] u h k = absurd (cc h)
bytes_le_trans (a ∷ s) (b ∷ t) [] h k = absurd (cc k)
bytes_le_trans (a ∷ s) (b ∷ t) (c ∷ u) h k = ground (arith, h, k, bytes_le_trans s t u)

-- What is before in the part of one length that comes first.
pub bytes_le-append :
    (p q s t : Bytes)
    → length p ≡ length q
    → bytes_le (p ++ s) (q ++ t) ≡ (not (bytes_le q p) || (text_eq p q && bytes_le s t))
unfolding bytes_le text_eq
bytes_le-append [] [] s t same = refl
bytes_le-append [] (b ∷ q) s t same = absurd (omega (arith, same))
bytes_le-append (a ∷ p) [] s t same = absurd (omega (arith, same))
bytes_le-append (a ∷ p) (b ∷ q) s t same =
    ground (arith, bytes_le-append p q s t (omega (arith, same)))

pub text_eq_sym : (p q : Bytes) → text_eq p q ≡ text_eq q p
unfolding text_eq
text_eq_sym [] [] = refl
text_eq_sym [] (b ∷ q) = refl
text_eq_sym (a ∷ p) [] = refl
text_eq_sym (a ∷ p) (b ∷ q) = ground (arith, text_eq_sym p q)

pub text_eq-equal : (p q : Bytes) → text_eq p q ≡ true → p ≡ q
unfolding text_eq
text_eq-equal [] [] h = refl
text_eq-equal [] (b ∷ q) h = absurd (cc h)
text_eq-equal (a ∷ p) [] h = absurd (cc h)
text_eq-equal (a ∷ p) (b ∷ q) h = ground (arith, h, text_eq-equal p q)

pub text_eq_refl : (p : Bytes) → text_eq p p ≡ true
unfolding text_eq
text_eq_refl [] = refl
text_eq_refl (a ∷ p) = ground (arith, text_eq_refl p)

pub bytes_le-total : (p q : Bytes) → bytes_le p q ≡ false → bytes_le q p ≡ true
unfolding bytes_le
bytes_le-total [] q h = absurd (cc h)
bytes_le-total (a ∷ p) [] h = refl
bytes_le-total (a ∷ p) (b ∷ q) h = ground (arith, h, bytes_le-total p q)

pub starts_with-append :
    (p q t : Bytes) → length p ≡ length q → starts_with p (q ++ t) ≡ text_eq p q
unfolding starts_with text_eq
starts_with-append [] [] t same = refl
starts_with-append [] (b ∷ q) t same = absurd (omega (arith, same))
starts_with-append (a ∷ p) [] t same = absurd (omega (arith, same))
starts_with-append (a ∷ p) (b ∷ q) t same =
    ground (arith, starts_with-append p q t (omega (arith, same)))

pub span_pos : (n : ℕ) → 0 < span n
span_pos zero = omega arith
span_pos (suc n) = omega (arith, span_pos n)

step : (b q q' : ℕ) → q < q' → b * q + b ≤ b * q'
step b q q' h =
    omega (arith, mul-le-mul_left {m = suc q} {n = q'} b (omega (arith, h)), mul-suc b q)

-- Numbers in base `b` are compared by their quotients first.
compare_split :
    (b q r q' r' : ℕ)
    → r < b
    → r' < b
    → (ltb (b * q + r) (b * q' + r') ≡ (ltb q q' || (q == q' && ltb r r')))
      × (((b * q + r) == (b * q' + r')) ≡ (q == q' && r == r'))
compare_split b q r q' r' small small' = elim (Bool-cases (ltb q q')) [
  | inl lower ↦
      let far : b * q + b ≤ b * q' = step b q q' (ltb→lt q q' lower) in
      (ground (arith, far, lower, small, small'), ground (arith, far, lower, small, small'))
  | inr not_lower ↦ elim (Bool-cases (ltb q' q)) [
    | inl upper ↦
        let far : b * q' + b ≤ b * q = step b q' q (ltb→lt q' q upper) in
        (ground (arith, far, upper, small, small'), ground (arith, far, upper, small, small'))
    | inr not_upper ↦
        let same : q ≡ q' = ground (arith, not_lower, not_upper) in
        rw same (ground arith, ground arith)
  ]
]

pub bytes_le-bytes_of :
    (n x y : ℕ) (s t : Bytes)
    → x < span n
    → y < span n
    → bytes_le (bytes_of n x ++ s) (bytes_of n y ++ t) ≡ (ltb x y || (x == y && bytes_le s t))
unfolding bytes_le bytes_of
bytes_le-bytes_of zero x y s t hx hy = ground arith
bytes_le-bytes_of (suc n) x y s t hx hy = ground (
  arith,
  bytes_le-bytes_of n (x % span n) (y % span n) s t (mod-lt x (span_pos n)) (mod-lt y (span_pos n)),
  compare_split (span n) (x / span n) (x % span n) (y / span n) (y % span n) (mod-lt x (span_pos n))
      (mod-lt y (span_pos n)),
  div-add-mod x (span n),
  div-add-mod y (span n),
)
