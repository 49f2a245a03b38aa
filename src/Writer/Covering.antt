-- ===== src/Writer/Covering.antt =====
-- The ranges that are handed back to the kernel follow one another from the start of the file.
use ajit_segment_bots.Watch.Lifecycle.{start, stop}
use ajit_segment_bots.Writer.{Writer, append, append_all}
use ajit_segment_bots.Prelude.{ℕ, ◌+◌, ◌<◌, List, [], arith, ◌∷◌, ◌≡◌, ◌≤◌}

-- Each range begins where the one before it ends, and the last ends at `stop`.
abbrev pub Covers : List (ℕ × ℕ) → ℕ → Type 0
Covers [] stop = stop ≡ 0
Covers ((start, size) ∷ ranges) stop = (stop ≡ start + size) × (0 < size) × Covers ranges start

abbrev pub IsCovered : Writer → Type 0
IsCovered w = Covers w.advised w.released_to × (w.released_to ≤ w.bytes_written)

-- Opening covers nothing, and an append or a forced writeback extends the ranges without a gap or an
-- overlap.
append-IsCovered : (w : Writer) (block : List ℕ) → IsCovered w → IsCovered (append w block).0
unfolding append
append-IsCovered w block c = ground arith

-- If the ranges handed back to the kernel are not empty, follow one another without gap or overlap
-- from the start of the file, end at `released_to`, and are within what was written, then so it is
-- after whatever is appended.
pub append_all-IsCovered :
    (w : Writer) (blocks : List (List ℕ)) → IsCovered w → IsCovered (append_all w blocks)
unfolding append_all
append_all-IsCovered w [] c = c
append_all-IsCovered w (block ∷ blocks) c =
    append_all-IsCovered (append w block).0 blocks (append-IsCovered w block c)
