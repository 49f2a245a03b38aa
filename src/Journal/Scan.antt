-- ===== src/Journal/Scan.antt =====
-- The bounds of the range against the keys of the rows.
use mathlib.Core.List.{append-nil}
use ajit_segment_bots.Prelude.{
  ◌≡◌, ◌&&◌, ◌||◌, ℕ, ◌==◌, true, not, [], ◌∷◌, ◌++◌, ltb, leb, arith, length, ◌<◌, ap, sym, ◌∙◌,
  text_eq,
}
use ajit_segment_bots.Journal.{Bytes, span, bytes_of, bytes_le}
use ajit_segment_bots.Journal.Order.{
  bytes_le-append, bytes_le-bytes_of, bytes_le-total, text_eq-equal, bytes_le_refl, text_eq_sym,
}

-- The key of a row with its part's bytes, and the two bounds of the range.
abbrev pub key_of : Bytes → ℕ → ℕ → Bytes
key_of part t s = part ++ (bytes_of 8 t ++ bytes_of 4 s)

abbrev pub start_of : Bytes → ℕ → Bytes
start_of part t0 = part ++ bytes_of 8 t0

abbrev pub end_of : Bytes → ℕ → Bytes
end_of part t1 = part ++ (bytes_of 8 t1 ++ 255 ∷ 255 ∷ 255 ∷ 255 ∷ [])

last_seq : (s : ℕ) → s < span 4 → bytes_le (bytes_of 4 s) (255 ∷ 255 ∷ 255 ∷ 255 ∷ []) ≡ true
unfolding bytes_le bytes_of
last_seq s small =
    bytes_le-bytes_of 4 s 4294967295 [] [] small (ground arith) ∙ at_most_last s small
  where
    at_most_last :
        (s : ℕ) → s < span 4 → (ltb s 4294967295 || (s == 4294967295 && bytes_le [] [])) ≡ true
    at_most_last s small = ground (arith, small)

no_later : (t0 t : ℕ) (s : Bytes) → (ltb t0 t || (t0 == t && bytes_le [] s)) ≡ leb t0 t
unfolding bytes_le
no_later t0 t s = ground arith

no_sooner :
    (t t1 s : ℕ)
    → s < span 4
    → (ltb t t1 || (t == t1 && bytes_le (bytes_of 4 s) (255 ∷ 255 ∷ 255 ∷ 255 ∷ []))) ≡ leb t t1
no_sooner t t1 s small = ground (arith, last_seq s small)

module _ (p r : Bytes) (same_length : length p ≡ length r) where
  start-key :
      (t0 t s : ℕ)
      → t0 < span 8
      → t < span 8
      → bytes_le (start_of p t0) (key_of r t s) ≡ (not (bytes_le r p) || (text_eq p r && leb t0 t))
  start-key t0 t s small0 small =
      bytes_le-append p r (bytes_of 8 t0) (bytes_of 8 t ++ bytes_of 4 s) same_length
      ∙ ap (λ b. not (bytes_le r p) || (text_eq p r && b))
          (ap (λ x. bytes_le x (bytes_of 8 t ++ bytes_of 4 s)) (sym (append-nil (bytes_of 8 t0)))
            ∙ bytes_le-bytes_of 8 t0 t [] (bytes_of 4 s) small0 small
            ∙ no_later t0 t (bytes_of 4 s))

  key-end :
      (t s t1 : ℕ)
      → t < span 8
      → s < span 4
      → t1 < span 8
      → bytes_le (key_of r t s) (end_of p t1) ≡ (not (bytes_le p r) || (text_eq r p && leb t t1))
  key-end t s t1 small small_s small1 =
      bytes_le-append r p (bytes_of 8 t ++ bytes_of 4 s) (bytes_of 8 t1 ++ _) (sym same_length)
      ∙ ap (λ b. not (bytes_le p r) || (text_eq r p && b))
          (bytes_le-bytes_of 8 t t1 (bytes_of 4 s) _ small small1 ∙ no_sooner t t1 s small_s)

  -- A key is within the bounds exactly if it is of the part and of the time.
  pub within :
      (t0 t s t1 : ℕ)
      → t0 < span 8
      → t < span 8
      → s < span 4
      → t1 < span 8
      → (bytes_le (start_of p t0) (key_of r t s) && bytes_le (key_of r t s) (end_of p t1))
        ≡ (text_eq r p && (leb t0 t && leb t t1))
  within t0 t s t1 small0 small small_s small1 =
      rw (start-key t0 t s small0 small, key-end t s t1 small small_s small1)
        (ground (
          arith,
          bytes_le-total p r,
          bytes_le-total r p,
          text_eq-equal r p,
          text_eq_sym p r,
          bytes_le_refl p,
        ))
