-- ===== src/Journal/Packing.antt =====
-- Fields that are packed and read back, and the ids that a padded key tells apart.
use native.Mathlib.Nat.{add-mul, div-add-mod, mod-lt, mul_assoc, mul_comm}
use ajit_segment_bots.Prelude.{
  ◌≡◌, ℕ, ◌+◌, ◌*◌, ◌/◌, ◌%◌, zero, suc, [], ◌∷◌, ◌++◌, arith, length, refl, ◌<◌, ◌≤◌, ok, take,
  drop, take-exact, drop-exact, ap, ◌∙◌, All, ◌≢◌, sym, ==_iff,
}
use ajit_segment_bots.Journal.{Bytes, span, bytes_of, number_from, pack_field, unpack_field, padded}
use ajit_segment_bots.Journal.Order.{span_pos}

pub length-bytes_of : (n x : ℕ) → length (bytes_of n x) ≡ n
unfolding bytes_of
length-bytes_of zero x = refl
length-bytes_of (suc n) x = ap suc (length-bytes_of n (x % span n))

number_from-bytes_of :
    (n acc x : ℕ) → x < span n → number_from acc (bytes_of n x) ≡ acc * span n + x
unfolding bytes_of number_from
number_from-bytes_of zero acc x h = omega (arith, h)
number_from-bytes_of (suc n) acc x h =
    number_from-bytes_of n (acc * 256 + x / span n) (x % span n) (mod-lt x (span_pos n))
    ∙ regroup acc (x / span n) (span n) (x % span n)
    ∙ ap (λ k. acc * (256 * span n) + k) (div-add-mod x (span n))
  where
    regroup : (a q b r : ℕ) → (a * 256 + q) * b + r ≡ a * (256 * b) + (b * q + r)
    regroup a q b r = omega (arith, add-mul (a * 256) q b, mul_assoc a 256 b, mul_comm q b)

pub pack_field-ok :
    (n x : ℕ) (b : Bytes) → pack_field n x ≡ ok b → (x < span n) × (b ≡ bytes_of n x)
unfolding pack_field
pack_field-ok n x b h = ground (arith, h)

pub unpack_field-pack :
    (n x offset : ℕ) (buffer rest : Bytes)
    → x < span n
    → drop offset buffer ≡ bytes_of n x ++ rest
    → unpack_field n buffer offset ≡ ok x
unfolding unpack_field
unpack_field-pack n x offset buffer rest h at =
    let took : take n (drop offset buffer) ≡ bytes_of n x =
      ap (take n) at
      ∙ ap (λ k. take k (bytes_of n x ++ rest)) (sym (length-bytes_of n x))
      ∙ take-exact (bytes_of n x) rest in
    rw (took, length-bytes_of n x) (ground (arith, ==_iff n n, number_from-bytes_of n 0 x h))

-- Dropping what has a known length from the front.
pub drop-at : (n : ℕ) (front rest : Bytes) → length front ≡ n → drop n (front ++ rest) ≡ rest
drop-at n front rest same = ap (λ k. drop k (front ++ rest)) (sym same) ∙ drop-exact front rest

pub take-at : (n : ℕ) (front rest : Bytes) → length front ≡ n → take n (front ++ rest) ≡ front
take-at n front rest same = ap (λ k. take k (front ++ rest)) (sym same) ∙ take-exact front rest

pub length-padded : (n : ℕ) (s : Bytes) → length (padded n s) ≡ n
unfolding padded
length-padded zero s = refl
length-padded (suc n) [] = ap suc (length-padded n [])
length-padded (suc n) (b ∷ s) = ap suc (length-padded n s)

-- An id that is kept whole: no longer than the width, and without the byte that pads.
abbrev pub Fits : ℕ → Bytes → Type 0
Fits n s = (length s ≤ n) × All (λ (b : ℕ). b ≢ 0) s

pub padded-injective : (n : ℕ) (s t : Bytes) → Fits n s → Fits n t → padded n s ≡ padded n t → s ≡ t
unfolding padded
padded-injective zero [] [] fs ft e = refl
padded-injective zero [] (c ∷ t) fs ft e = absurd (omega (arith, ft.0))
padded-injective zero (b ∷ s) t fs ft e = absurd (omega (arith, fs.0))
padded-injective (suc n) [] [] fs ft e = refl
padded-injective (suc n) [] (c ∷ t) fs ft e = absurd (ft.1.0 (cc e))
padded-injective (suc n) (b ∷ s) [] fs ft e = absurd (fs.1.0 (cc e))
padded-injective (suc n) (b ∷ s) (c ∷ t) fs ft e =
    let same =
      padded-injective n s t (omega (arith, fs.0), fs.1.1) (omega (arith, ft.0), ft.1.1) (cc e) in
    cc (same, e)
