-- ===== src/RenderSpec/Anchors.antt =====
-- The headings of a body and their anchors.
use mathlib.Core.List.{append_assoc}
use ajit_segment_bots.Prelude.{
  ◌≡◌, ◌≢◌, refl, arith, ap, sym, ◌∙◌, ℕ, ◌+◌, ◌++◌, zero, [], ◌∷◌, some, none, Text, codes, length,
  length-append, All, partition, starts_with, List, Option-cases, inl, inr,
}
use ajit_segment_bots.RenderSpec.{
  slugify, tag_at, tag_length, without_tags, anchored, heading_at, anchors_from,
  add_heading_anchors,
}

-- The inside of a heading: texts without the start of a tag, and tags.
pub data Piece : Type 0 where
  plain : Text → Piece
  tag : Text → Piece

abbrev pub written : List Piece → Text
written [] = []
written (plain s ∷ pieces) = s ++ written pieces
written (tag s ∷ pieces) = b'<' ∷ (s ++ (b'>' ∷ written pieces))

abbrev pub read_plain : List Piece → Text
read_plain [] = []
read_plain (plain s ∷ pieces) = s ++ read_plain pieces
read_plain (tag s ∷ pieces) = read_plain pieces

abbrev pub IsPiece : Piece → Type 0
IsPiece (plain s) = All (λ c. c ≢ b'<') s
IsPiece (tag s) = (s ≢ []) × All (λ c. c ≢ b'>') s

tag_at-none : (c : ℕ) (s : Text) → c ≢ b'<' → tag_at (c ∷ s) ≡ none
unfolding tag_at
tag_at-none c [] h = refl
tag_at-none c (d ∷ s) h = ground (arith, h)

tag_length-end : (r : Text) → tag_length (b'>' ∷ r) ≡ some 1
unfolding tag_length
tag_length-end r = elim (Option-cases (tag_length r)) [
  | inl nowhere ↦ rw nowhere refl
  | inr (n, found) ↦ rw found refl
]

tag_length-some :
    (s r : Text) → All (λ c. c ≢ b'>') s → tag_length (s ++ (b'>' ∷ r)) ≡ some (length s + 1)
unfolding tag_length
tag_length-some [] r h = tag_length-end r
tag_length-some (c ∷ s) r h = ground (arith, h.0, tag_length-some s r h.1)

without_tags-skip : (x rest : Text) → without_tags (length x) (x ++ rest) ≡ without_tags zero rest
unfolding without_tags
without_tags-skip [] rest = refl
without_tags-skip (c ∷ x) rest = without_tags-skip x rest

without_tags-plain :
    (s rest : Text)
    → All (λ c. c ≢ b'<') s
    → without_tags zero (s ++ rest) ≡ s ++ without_tags zero rest
unfolding without_tags
without_tags-plain [] rest h = refl
without_tags-plain (c ∷ s) rest h =
    rw (without_tags, tag_at-none c (s ++ rest) h.0) (ap (◌∷◌ c) (without_tags-plain s rest h.1))

tag_at-some :
    (s rest : Text) → IsPiece (tag s) → tag_at (b'<' ∷ (s ++ (b'>' ∷ rest))) ≡ some (length s + 1)
unfolding tag_at
tag_at-some [] rest (nonempty, h) = absurd (nonempty refl)
tag_at-some (c ∷ s) rest (nonempty, h) = ground (arith, h.0, tag_length-some (c ∷ s) rest h)

without_tags-tag :
    (s rest : Text)
    → IsPiece (tag s)
    → without_tags zero (b'<' ∷ (s ++ (b'>' ∷ rest))) ≡ without_tags zero rest
unfolding without_tags
without_tags-tag s rest h =
    rw (without_tags, tag_at-some s rest h)
      (ap (λ n. without_tags n (s ++ (b'>' ∷ rest))) (omega (arith, length-append s (b'>' ∷ [])))
        ∙ ap (without_tags (length (s ++ (b'>' ∷ [])))) (sym (append_assoc s (b'>' ∷ []) rest))
        ∙ without_tags-skip (s ++ (b'>' ∷ [])) rest)

-- The tags are gone and the texts are left.
without_tags-written :
    (pieces : List Piece)
    → All IsPiece pieces
    → without_tags zero (written pieces) ≡ read_plain pieces
unfolding without_tags
without_tags-written [] h = refl
without_tags-written (plain s ∷ pieces) h =
    without_tags-plain s (written pieces) h.0 ∙ ap (◌++◌ s) (without_tags-written pieces h.1)
without_tags-written (tag s ∷ pieces) h =
    without_tags-tag s (written pieces) h.0 ∙ without_tags-written pieces h.1

module _ (lower : Text → Text) where
  anchors_from-skip :
      (x rest : Text) → anchors_from lower (length x) (x ++ rest) ≡ anchors_from lower zero rest
  unfolding anchors_from
  anchors_from-skip [] rest = refl
  anchors_from-skip (c ∷ x) rest = anchors_from-skip x rest

  heading_at-none : (c : ℕ) (s : Text) → c ≢ b'<' → heading_at lower (c ∷ s) ≡ none
  unfolding heading_at starts_with
  heading_at-none c s h = ground (arith, h)

  anchors_from-plain :
      (front rest : Text)
      → All (λ c. c ≢ b'<') front
      → anchors_from lower zero (front ++ rest) ≡ front ++ anchors_from lower zero rest
  unfolding anchors_from
  anchors_from-plain [] rest tagless = refl
  anchors_from-plain (c ∷ front) rest tagless =
      rw (anchors_from, heading_at-none c (front ++ rest) tagless.0)
        (ap (◌∷◌ c) (anchors_from-plain front rest tagless.1))

  heading_at-some :
      (inner s rest : Text)
      → partition (codes "</h2>") s ≡ some (inner, rest)
      → heading_at lower (codes "<h2>" ++ s) ≡ some (inner, rest)
  unfolding heading_at starts_with
  heading_at-some inner s rest h = h

  -- What is left of a heading after its first character.
  length-heading :
      (inner : Text) → length (codes "h2>" ++ (inner ++ codes "</h2>")) ≡ length inner + 8
  length-heading inner = omega (arith, length-append inner (codes "</h2>"))

  anchors_from-heading :
      (inner rest : Text)
      → partition (codes "</h2>") (inner ++ (codes "</h2>" ++ rest)) ≡ some (inner, rest)
      → anchors_from lower zero (codes "<h2>" ++ (inner ++ (codes "</h2>" ++ rest)))
        ≡ anchored lower inner ++ anchors_from lower zero rest
  unfolding anchors_from
  anchors_from-heading inner rest first_end =
      rw (anchors_from, heading_at-some inner (inner ++ (codes "</h2>" ++ rest)) rest first_end)
        (ap (◌++◌ (anchored lower inner)) (
          ap (anchors_from lower (length inner + 8))
            (ap (◌++◌ (codes "h2>")) (sym (append_assoc inner (codes "</h2>") rest)))
          ∙ ap (λ n. anchors_from lower n ((codes "h2>" ++ (inner ++ codes "</h2>")) ++ rest))
              (sym (length-heading inner))
          ∙ anchors_from-skip (codes "h2>" ++ (inner ++ codes "</h2>")) rest))

  -- If the first end of a heading after a start is the one written, no tag stands before the start, and
  -- the inside is texts, in which no tag starts, and tags, which are not empty and end at their first
  -- end, then the heading gets as its id the slug of the texts alone, the inside itself is kept, and
  -- the headings that follow are served in the same way.
  pub add_heading_anchors-anchored :
      (front rest : Text) (pieces : List Piece)
      → All (λ c. c ≢ b'<') front
      → All IsPiece pieces
      → partition (codes "</h2>") (written pieces ++ (codes "</h2>" ++ rest))
        ≡ some (written pieces, rest)
      → add_heading_anchors lower
          (front ++ (codes "<h2>" ++ (written pieces ++ (codes "</h2>" ++ rest))))
        ≡ front
          ++ ((codes "<h2 id=\""
                ++ (slugify lower (read_plain pieces)
                    ++ (codes "\">" ++ (written pieces ++ codes "</h2>"))))
              ++ add_heading_anchors lower rest)
  unfolding add_heading_anchors anchored
  add_heading_anchors-anchored front rest pieces no_tag pieced first_end =
      anchors_from-plain front _ no_tag
      ∙ ap (◌++◌ front) (
          anchors_from-heading (written pieces) rest first_end
          ∙ ap
              (λ t.
                (codes "<h2 id=\""
                  ++ (slugify lower t ++ (codes "\">" ++ (written pieces ++ codes "</h2>"))))
                ++ anchors_from lower zero rest)
              (without_tags-written pieces pieced))
