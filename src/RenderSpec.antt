-- ===== src/RenderSpec.antt =====
-- dashboard/render_spec.py: the page of a specification, as far as it is made of the text and not by
-- the markdown parser. A text is a list of code points; `lower` is Python's `str.lower`.
pub mod Slug
pub mod Anchors
mod Tests
use ajit_segment_bots.Prelude.{
  ◌&&◌, ◌||◌, ℕ, ◌+◌, ◌==◌, zero, suc, Bool, true, false, not, List, [], ◌∷◌, ◌++◌, Option, none,
  some, String, Text, codes, if◌then◌else◌, leb, length, drop, lines, strip, starts_with, partition,
}

-- `[a-z0-9]`
unfoldable pub is_word : ℕ → Bool
is_word c = (leb b'a' c && leb c b'z') || (leb b'0' c && leb c b'9')

-- `re.sub(r"[^a-z0-9]+", "-", …)`, and whether a run is being left out.
unfoldable pub dashed : Bool → Text → Text
dashed in_run [] = []
dashed in_run (c ∷ s) =
    let word = dashed false s in
    let run = dashed true s in if is_word c then c ∷ word else if in_run then run else b'-' ∷ run

abbrev pub is_nil : Text → Bool
is_nil [] = true
is_nil (c ∷ s) = false

unfoldable pub strip_dashes_left : Text → Text
strip_dashes_left [] = []
strip_dashes_left (c ∷ s) = let rest = strip_dashes_left s in if c == b'-' then rest else c ∷ s

unfoldable pub strip_dashes_right : Text → Text
strip_dashes_right [] = []
strip_dashes_right (c ∷ s) =
    let rest = strip_dashes_right s in if c == b'-' && is_nil rest then [] else c ∷ rest

-- `.strip("-")`
unfoldable pub strip_dashes : Text → Text
unfolding strip_dashes_left strip_dashes_right
strip_dashes s = strip_dashes_right (strip_dashes_left s)

abbrev pub or_section : Text → Text
or_section [] = codes "section"
or_section (c ∷ s) = c ∷ s

-- `extract_title`
unfoldable pub title_among : List Text → Text
title_among [] = codes "Specification"
title_among (line ∷ rest) =
    let later_title = title_among rest in
    if starts_with (codes "# ") line then strip (drop 2 line) else later_title

unfoldable pub extract_title : Text → Text
unfolding title_among
extract_title markdown_text = title_among (lines markdown_text)

-- `re.sub(r"<[^>]+>", "", …)`: the text after the tag that begins here, if one does, and the text
-- without its tags. A tag that has begun is left out up to its end, `inside` counts what is left of it.
unfoldable pub tag_length : Text → Option ℕ
tag_length [] = none
tag_length (c ∷ s) = elim (tag_length s) [
  | none ↦ if c == b'>' then some 1 else none
  | some n ↦ if c == b'>' then some 1 else some (suc n)
]

-- `none` where no tag begins: a tag has one character at least before its end.
unfoldable pub tag_at : Text → Option ℕ
unfolding tag_length
tag_at [] = none
tag_at (c ∷ []) = none
tag_at (c ∷ d ∷ s) = if c == b'<' && not (d == b'>') then tag_length (d ∷ s) else none

unfoldable pub without_tags : ℕ → Text → Text
unfolding tag_at
without_tags inside [] = []
without_tags (suc inside) (c ∷ s) = without_tags inside s
without_tags zero (c ∷ s) = elim (tag_at (c ∷ s)) [
  | none ↦ c ∷ without_tags zero s
  | some n ↦ without_tags n s
]

-- `text.replace(old, new)`, with how much of an occurrence is left.
unfoldable pub replaced : Text → Text → ℕ → Text → Text
replaced old new inside [] = []
replaced old new (suc inside) (c ∷ s) = replaced old new inside s
replaced old new zero (c ∷ s) =
    let rest = replaced old new zero s in
    let after = replaced old new (length (drop 1 old)) s in
    if starts_with old (c ∷ s) then new ++ after else c ∷ rest

unfoldable pub wrap_tables : Text → Text
unfolding replaced
wrap_tables body_html =
    replaced (codes "</table>") (codes "</table></div>") zero
      (replaced (codes "<table>") (codes "<div class=\"table-scroll\"><table>") zero body_html)

module _ (lower : Text → Text) where
  unfoldable pub slugify : Text → Text
  unfolding strip_dashes dashed
  slugify heading = or_section (strip_dashes (dashed false (lower heading)))

  -- `collect_sections`: the anchor and the text of each heading.
  unfoldable pub sections_among : List Text → List (Text × Text)
  sections_among [] = []
  sections_among (line ∷ rest) =
      let sections = sections_among rest in
      let heading = strip (drop 3 line) in
      if starts_with (codes "## ") line then (slugify heading, heading) ∷ sections else sections

  unfoldable pub collect_sections : Text → List (Text × Text)
  unfolding sections_among
  collect_sections markdown_text = sections_among (lines markdown_text)

  -- `anchor`
  unfoldable pub anchored : Text → Text
  anchored inner =
      codes "<h2 id=\""
      ++ (slugify (without_tags zero inner) ++ (codes "\">" ++ (inner ++ codes "</h2>")))

  -- What follows the start of a heading here: its inside and what comes after its end.
  unfoldable pub heading_at : Text → Option (Text × Text)
  heading_at s = if starts_with (codes "<h2>") s then partition (codes "</h2>") (drop 4 s) else none

  -- `re.sub(r"<h2>(.*?)</h2>", anchor, …)`, with how much of a heading is left.
  unfoldable pub anchors_from : ℕ → Text → Text
  unfolding heading_at
  anchors_from inside [] = []
  anchors_from (suc inside) (c ∷ s) = anchors_from inside s
  anchors_from zero (c ∷ s) = elim (heading_at (c ∷ s)) [
    | none ↦ c ∷ anchors_from zero s
    | some (inner, after) ↦ anchored inner ++ anchors_from (length inner + 8) s
  ]

  unfoldable pub add_heading_anchors : Text → Text
  unfolding anchors_from
  add_heading_anchors body_html = anchors_from zero body_html
