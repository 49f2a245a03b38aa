-- ===== src/RenderSpec/Slug.antt =====
-- What an anchor is made of.
use ajit_segment_bots.Prelude.{
  ◌≡◌, ◌≢◌, ◌⊎◌, inl, inr, refl, arith, ap, ◌∙◌, ◌&&◌, ℕ, ◌==◌, true, false, [], ◌∷◌, Text,
  Bool-cases,
}
use ajit_segment_bots.RenderSpec.{
  is_word, dashed, is_nil, strip_dashes_left, strip_dashes_right, strip_dashes, or_section, slugify,
}

abbrev dash : ℕ
dash = b'-'

-- A letter, a digit or a dash.
abbrev pub IsSlugChar : ℕ → Type 0
IsSlugChar c = (is_word c ≡ true) ⊎ (c ≡ b'-')

abbrev pub StartsBare : Text → Type 0
StartsBare [] = Unit
StartsBare (c ∷ s) = c ≢ b'-'

abbrev pub EndsBare : Text → Type 0
EndsBare [] = Unit
EndsBare (c ∷ []) = c ≢ b'-'
EndsBare (c ∷ d ∷ s) = EndsBare (d ∷ s)

-- What follows a dash is none.
abbrev FollowsWell : ℕ → Text → Type 0
FollowsWell c s = c ≡ b'-' → StartsBare s

-- No other characters, and no two dashes together.
abbrev pub IsDashed : Text → Type 0
IsDashed [] = Unit
IsDashed (c ∷ s) = IsSlugChar c × FollowsWell c s × IsDashed s

dash_no_word : is_word b'-' ≡ false
unfolding is_word
dash_no_word = refl

word-bare : (c : ℕ) → is_word c ≡ true → c ≢ b'-'
unfolding is_word
word-bare c h e = ground (arith, h, e)

dashed-IsDashed :
    (s : Text) → IsDashed (dashed false s) × (IsDashed (dashed true s) × StartsBare (dashed true s))
unfolding dashed
dashed-IsDashed [] = (tt, (tt, tt))
dashed-IsDashed (c ∷ s) =
    let (word, (run, bare)) = dashed-IsDashed s in
    elim (Bool-cases (is_word c)) [
      | inl is ↦
          let whole : IsDashed (c ∷ dashed false s) =
            (inl is, (λ e. absurd (word-bare c is e)), word) in
          rw is (whole, (whole, word-bare c is))
      | inr is_not ↦ rw is_not ((inr refl, (λ _. bare), run), (run, bare))
    ]

strip_dashes_left-IsDashed :
    (s : Text) → IsDashed s → IsDashed (strip_dashes_left s) × StartsBare (strip_dashes_left s)
unfolding strip_dashes_left
strip_dashes_left-IsDashed [] h = (tt, tt)
strip_dashes_left-IsDashed (c ∷ s) h = elim (Bool-cases (c == b'-')) [
  | inl is ↦ rw is (strip_dashes_left-IsDashed s h.2)
  | inr is_not ↦ rw is_not (h, (λ e. absurd (ground (arith, is_not, e))))
]

strip_dashes_right-StartsBare : (s : Text) → StartsBare s → StartsBare (strip_dashes_right s)
unfolding strip_dashes_right
strip_dashes_right-StartsBare [] h = tt
strip_dashes_right-StartsBare (c ∷ s) h =
    elim (Bool-cases (c == b'-' && is_nil (strip_dashes_right s))) [
      | inl gone ↦ rw gone tt
      | inr kept ↦ rw kept h
    ]

-- A character before a text that ends bare, which is kept.
EndsBare-cons : (c : ℕ) (s : Text) → EndsBare s → (c == b'-' && is_nil s) ≡ false → EndsBare (c ∷ s)
EndsBare-cons c [] ends kept = λ e. absurd (ground (arith, kept, e))
EndsBare-cons c (d ∷ s) ends kept = ends

strip_dashes_right-IsDashed :
    (s : Text) → IsDashed s → IsDashed (strip_dashes_right s) × EndsBare (strip_dashes_right s)
unfolding strip_dashes_right
strip_dashes_right-IsDashed [] h = (tt, tt)
strip_dashes_right-IsDashed (c ∷ s) h =
    let (rest, ends) = strip_dashes_right-IsDashed s h.2 in
    elim (Bool-cases (c == b'-' && is_nil (strip_dashes_right s))) [
      | inl gone ↦ rw gone (tt, tt)
      | inr kept ↦ rw kept (
        (h.0, (λ e. strip_dashes_right-StartsBare s (h.1 e)), rest),
        EndsBare-cons c (strip_dashes_right s) ends kept,
      )
    ]

dashed-same : (s : Text) → IsDashed s → (dashed false s ≡ s) × (StartsBare s → dashed true s ≡ s)
unfolding dashed
dashed-same [] h = (refl, (λ _. refl))
dashed-same (c ∷ s) (is, follows, rest) =
    let (word, run) = dashed-same s rest in
    elim is [
      | inl is ↦ rw is (ap (◌∷◌ c) word, (λ _. ap (◌∷◌ c) word))
      | inr is_dash ↦
          let no_word : is_word c ≡ false = ap is_word is_dash ∙ dash_no_word in
          rw no_word (ground (arith, is_dash, run (follows is_dash)), (λ h. absurd (h is_dash)))
    ]

strip_dashes_left-same : (s : Text) → StartsBare s → strip_dashes_left s ≡ s
unfolding strip_dashes_left
strip_dashes_left-same [] h = refl
strip_dashes_left-same (c ∷ s) h = ground (arith, h)

strip_dashes_right-same : (s : Text) → EndsBare s → strip_dashes_right s ≡ s
unfolding strip_dashes_right
strip_dashes_right-same [] h = refl
strip_dashes_right-same (c ∷ []) h = ground (arith, h)
strip_dashes_right-same (c ∷ d ∷ s) h = rw (strip_dashes_right-same (d ∷ s) h) (ground arith)

-- An anchor: not empty, of lower-case letters, digits and dashes, with no two dashes together and none
-- at an end.
abbrev pub IsSlug : Text → Type 0
IsSlug t = (t ≢ []) × IsDashed t × StartsBare t × EndsBare t

or_section-IsSlug : (t : Text) → IsDashed t → StartsBare t → EndsBare t → IsSlug (or_section t)
unfolding is_word
or_section-IsSlug [] dashes starts ends = ground arith
or_section-IsSlug (c ∷ s) dashes starts ends = ((λ e. cc e), dashes, starts, ends)

or_section-same : (t : Text) → t ≢ [] → or_section t ≡ t
or_section-same [] h = absurd (h refl)
or_section-same (c ∷ s) h = refl

module _ (lower : Text → Text) where
  -- Whatever a heading holds, its anchor is not empty, has only the letters a to z, digits and dashes,
  -- no two dashes together, and no dash at either end.
  pub slugify-IsSlug : (heading : Text) → IsSlug (slugify lower heading)
  unfolding slugify strip_dashes
  slugify-IsSlug heading =
      let dashes = (dashed-IsDashed (lower heading)).0 in
      let left = strip_dashes_left (dashed false (lower heading)) in
      let (dashes_left, starts) =
        strip_dashes_left-IsDashed (dashed false (lower heading)) dashes in
      let (dashes_both, ends) = strip_dashes_right-IsDashed left dashes_left in
      or_section-IsSlug (strip_dashes_right left) dashes_both
        (strip_dashes_right-StartsBare left starts) ends

  slugify-same : (t : Text) → lower t ≡ t → IsSlug t → slugify lower t ≡ t
  unfolding slugify
  slugify-same t keeps (some_char, dashes, starts, ends) =
      rw
        (
          slugify,
          strip_dashes,
          keeps,
          (dashed-same t dashes).0,
          strip_dashes_left-same t starts,
          strip_dashes_right-same t ends,
        )
        (or_section-same t some_char)

  -- If lowering leaves an anchor as it is, then the anchor of an anchor is itself.
  pub slugify-slugify :
      (heading : Text)
      → lower (slugify lower heading) ≡ slugify lower heading
      → slugify lower (slugify lower heading) ≡ slugify lower heading
  slugify-slugify heading keeps =
      slugify-same (slugify lower heading) keeps (slugify-IsSlug heading)
