-- ===== src/Writer/Bounds.antt =====
-- The invariant of the writer, and the bound on what it leaves dirty.
use mathlib.Core.List.{append-nil, append_assoc, flatten}
use ajit_segment_bots.Writer.{Writer, append, append_all, close, open_writer, closed_file}
use ajit_segment_bots.Prelude.{
  ℕ, String, Bool, ◌+◌, ◌++◌, ◌<◌, List, [], ap, arith, false, length, length-append, ok, refl, sym,
  true, ◌∙◌, ◌∷◌, ◌≡◌, ◌≤◌, Bool-cases, if◌then◌else◌, inl, inr, raise,
}

pub record IsValid (w : Writer) : Type 0 where
  pub positive : 0 < w.interval
  pub counted : w.bytes_written ≡ length w.contents
  pub released : w.released_to ≤ w.synced
  pub bounded_sync : w.synced ≤ w.bytes_written
  pub within : w.bytes_written < w.released_to + w.interval

-- A writer that opens is valid and empty, and was opened on durable storage with an interval that is
-- not 0.
pub open_writer-IsValid :
    (path : String) (interval : ℕ) (durable : Bool) {w : Writer}
    → open_writer path interval durable ≡ ok w
    → IsValid w × (w.contents ≡ []) × (durable ≡ true) × (0 < interval)
unfolding open_writer
open_writer-IsValid path interval durable h = ground arith

pub append-IsValid : (w : Writer) (block : List ℕ) → IsValid w → IsValid (append w block).0
unfolding append
append-IsValid w block v = ground (arith, length-append w.contents block)

pub append_all-IsValid :
    (w : Writer) (blocks : List (List ℕ)) → IsValid w → IsValid (append_all w blocks)
unfolding append_all
append_all-IsValid w [] v = v
append_all-IsValid w (block ∷ blocks) v =
    append_all-IsValid (append w block).0 blocks (append-IsValid w block v)

append-contents :
    (w : Writer) (block : List ℕ)
    → w.closed ≡ false
    → ((append w block).0.contents ≡ w.contents ++ block) × ((append w block).0.closed ≡ false)
unfolding append
append-contents w block open_still = ground arith

pub append_all-contents :
    (w : Writer) (blocks : List (List ℕ))
    → w.closed ≡ false
    → (append_all w blocks).contents ≡ w.contents ++ flatten blocks
unfolding append_all flatten
append_all-contents w [] open_still = sym (append-nil w.contents)
append_all-contents w (block ∷ blocks) open_still =
    let (grown, kept_open) = append-contents w block open_still in
    append_all-contents (append w block).0 blocks kept_open
    ∙ ap (λ c. c ++ flatten blocks) grown
    ∙ append_assoc w.contents block (flatten blocks)

-- A closed writer takes nothing.
append-closed : (w : Writer) (block : List ℕ) → w.closed ≡ true → (append w block).0 ≡ w
unfolding append
append-closed w block shut = ground arith

append_all-closed :
    (w : Writer) (blocks : List (List ℕ)) → w.closed ≡ true → append_all w blocks ≡ w
unfolding append_all
append_all-closed w [] shut = refl
append_all-closed w (block ∷ blocks) shut =
    ap (λ v. append_all v blocks) (append-closed w block shut) ∙ append_all-closed w blocks shut

-- Whether a writer takes a block, and what it answers.
append-answer :
    (w : Writer) (block : List ℕ)
    → (append w block).1
      ≡ (if w.closed then raise closed_file else ok (w.bytes_written + length block))
unfolding append
append-answer w block = ground arith

append-interval : (w : Writer) (block : List ℕ) → (append w block).0.interval ≡ w.interval
unfolding append
append-interval w block = ground arith

append_all-interval :
    (w : Writer) (blocks : List (List ℕ)) → (append_all w blocks).interval ≡ w.interval
unfolding append_all
append_all-interval w [] = refl
append_all-interval w (block ∷ blocks) =
    append_all-interval (append w block).0 blocks ∙ append-interval w block

-- From a valid writer, after any blocks are offered, the file holds the earlier bytes and then the
-- blocks in order if the writer is open, and the earlier bytes alone if it is closed; either way fewer
-- bytes than one interval are not synced to the disk. And one block appended to the writer is answered
-- with how many bytes the file then has, or with the exception of a closed file.
pub append_all_bounded :
    (w : Writer) (blocks : List (List ℕ)) (block : List ℕ)
    → IsValid w
    → ((append_all w blocks).contents
        ≡ (if w.closed then w.contents else w.contents ++ flatten blocks))
      × (length (append_all w blocks).contents < (append_all w blocks).synced + w.interval)
      × ((append w block).1
          ≡ (if w.closed then raise closed_file else ok (length w.contents + length block)))
append_all_bounded w blocks block v = (
  elim (Bool-cases w.closed) [
    | inl shut ↦ rw (append_all-closed w blocks shut, shut) refl
    | inr open_still ↦ ground (arith, append_all-contents w blocks open_still, open_still)
  ],
  (let u = append_all-IsValid w blocks v in
      omega (arith, u.counted, u.released, u.within, append_all-interval w blocks)),
  append-answer w block
      ∙ ap (λ n. if w.closed then raise closed_file else ok (n + length block)) v.counted,
)

-- Closing an open valid writer syncs and hands back every byte, keeps the contents, and closing
-- again changes nothing.
pub close_lem :
    (w : Writer)
    → IsValid w
    → w.closed ≡ false
    → ((close w).contents ≡ w.contents)
      × ((close w).synced ≡ length w.contents)
      × ((close w).released_to ≡ length w.contents)
      × ((close w).closed ≡ true)
      × (close (close w) ≡ close w)
unfolding close
close_lem w v open_still = (ground arith, ground arith, ground arith, ground arith, ground arith)
