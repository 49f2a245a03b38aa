-- ===== src/RenderSpec/Tests.antt =====
-- A heading with a sign, and a body with one heading.
use ajit_segment_bots.Prelude.{
  ◌≡◌, refl, arith, ◌&&◌, ◌+◌, ◌++◌, ℕ, some, Text, codes, if◌then◌else◌, leb, map, partition, All,
  List, [], starts_with, ◌∷◌,
}
use ajit_segment_bots.RenderSpec.{
  slugify, strip_dashes, dashed, is_word, add_heading_anchors, without_tags,
}
use ajit_segment_bots.RenderSpec.Slug.{IsSlug, slugify-IsSlug}
use ajit_segment_bots.RenderSpec.Anchors.{
  Piece, tag, plain, IsPiece, written, read_plain, add_heading_anchors-anchored,
}

abbrev lower_ascii : ℕ → ℕ
lower_ascii c = if leb b'A' c && leb c b'Z' then c + 32 else c

abbrev lower : Text → Text
lower = map lower_ascii

abbrev sign : Text
sign = codes "4. A & B"

signed : slugify lower sign ≡ codes "4-a-b"
unfolding slugify strip_dashes dashed is_word
signed = refl

-- The same heading as the parser renders it gets another anchor.
escaped : slugify lower (codes "4. A &amp; B") ≡ codes "4-a-amp-b"
unfolding slugify strip_dashes dashed is_word
escaped = refl

slugify-IsSlug_example : IsSlug (slugify lower sign)
slugify-IsSlug_example = slugify-IsSlug lower sign

lowered : lower (slugify lower sign) ≡ slugify lower sign
unfolding slugify strip_dashes dashed is_word
lowered = refl

abbrev plain_text : Text
plain_text = codes "So. "

abbrev pieces : List Piece
pieces = tag (codes "em") ∷ plain (codes "A") ∷ tag (codes "/em") ∷ plain (codes " b") ∷ []

pieces-IsPiece : All IsPiece pieces
pieces-IsPiece = ground arith

first_end :
    partition (codes "</h2>") (written pieces ++ (codes "</h2>" ++ codes "\n"))
    ≡ some (written pieces, codes "\n")
unfolding partition starts_with
first_end = refl

add_heading_anchors-anchored_example :
    add_heading_anchors lower
      (plain_text ++ (codes "<h2>" ++ (written pieces ++ (codes "</h2>" ++ codes "\n"))))
    ≡ plain_text
      ++ ((codes "<h2 id=\""
            ++ (slugify lower (read_plain pieces)
                ++ (codes "\">" ++ (written pieces ++ codes "</h2>"))))
          ++ add_heading_anchors lower (codes "\n"))
add_heading_anchors-anchored_example =
    add_heading_anchors-anchored lower plain_text (codes "\n") pieces (ground arith) pieces-IsPiece
      first_end

untagged : without_tags 0 (written pieces) ≡ codes "A b"
unfolding without_tags
untagged = refl
