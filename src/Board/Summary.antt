-- ===== src/Board/Summary.antt =====
-- The label of a block against its parts.
use ajit_segment_bots.Prelude.{
  All, Any, List, [], all_of, true, ◌↔◌, ◌≡◌, ◌≢◌, Bool-cases, arith, false, inl, inr, refl, ◌∷◌,
}
use ajit_segment_bots.Board.{
  Rung, at_rung, running, failing, summarise_block_state, any_of, is_failing, is_running,
}

is_failing_iff : (r : Rung) → (is_failing r ≡ true) ↔ (r ≡ failing)
is_failing_iff r = ground arith

is_running_iff : (r : Rung) → (is_running r ≡ true) ↔ (r ≡ running)
is_running_iff r = ground arith

any_of-Any : (rs : List Rung) → (any_of is_failing rs ≡ true) ↔ Any (λ r. r ≡ failing) rs
unfolding any_of
any_of-Any [] = ((λ e. cc e), (λ a. absurd a))
any_of-Any (r ∷ rs) =
    let here = is_failing_iff r in
    let there = any_of-Any rs in
    (
      λ e. elim (Bool-cases (is_failing r)) [
        | inl fails ↦ inl (here.0 fails)
        | inr fine ↦ inr (there.0 (ground (arith, e, fine)))
      ],
      λ a. elim a [ inl e ↦ ground (arith, here.1 e) | inr rest ↦ ground (arith, there.1 rest) ],
    )

all_of-All : (rs : List Rung) → (all_of is_running rs ≡ true) ↔ All (λ r. r ≡ running) rs
unfolding all_of
all_of-All [] = ((λ e. tt), (λ a. refl))
all_of-All (r ∷ rs) =
    let here = is_running_iff r in
    let there = all_of-All rs in
    (
      λ e. (here.0 (ground (arith, e)), there.0 (ground (arith, e))),
      λ a. ground (arith, here.1 a.0, there.1 a.1),
    )

not_both : (rs : List Rung) → rs ≢ [] → all_of is_running rs ≡ true → any_of is_failing rs ≡ false
unfolding any_of all_of
not_both [] n h = absurd (n refl)
not_both (r ∷ []) n h = ground (arith, h)
not_both (r ∷ s ∷ rs) n h = ground (arith, h, not_both (s ∷ rs) (λ e. cc e) (ground (arith, h)))

by_tests :
    (rs : List Rung)
    → ((summarise_block_state rs ≡ at_rung running) ↔ ((rs ≢ []) × (all_of is_running rs ≡ true)))
      × ((summarise_block_state rs ≡ at_rung failing) ↔ (any_of is_failing rs ≡ true))
unfolding summarise_block_state any_of
by_tests [] = (((λ e. cc e), (λ h. absurd (h.0 refl))), ground arith)
by_tests (r ∷ rs) = (
  ((λ e. ((λ k. cc k), ground (arith, e))), (λ h. ground (arith, h.1, not_both (r ∷ rs) h.0 h.1))),
  ground arith,
)

-- A block reads as running exactly if it has a part and every part is running, and as failing exactly
-- if some part is failing.
pub summarise_block_state_lem :
    (rs : List Rung)
    → ((summarise_block_state rs ≡ at_rung running) ↔ ((rs ≢ []) × All (λ r. r ≡ running) rs))
      × ((summarise_block_state rs ≡ at_rung failing) ↔ Any (λ r. r ≡ failing) rs)
summarise_block_state_lem rs =
    let tests = by_tests rs in
    (
      (
        λ e. ((tests.0.0 e).0, (all_of-All rs).0 (tests.0.0 e).1),
        λ h. tests.0.1 (h.0, (all_of-All rs).1 h.1),
      ),
      (λ e. (any_of-Any rs).0 (tests.1.0 e), λ h. tests.1.1 ((any_of-Any rs).1 h)),
    )
