-- ===== src/Board/Counts.antt =====
-- The counts of the payload.
use mathlib.Core.Path.{subst}
use ajit_segment_bots.Contracts.Check.{find_contract_violations}
use ajit_segment_bots.Contracts.Rules.{Violation}
use ajit_segment_bots.Contracts.Edges.{RegistryError}
use ajit_segment_bots.Contracts.{FeatureRegistry, Feature, get_or}
use ajit_segment_bots.Prelude.{
  ◌+◌, List, String, [], arith, keep_if, length, ok, ◌∷◌, ◌≡◌, Option-cases, Result, ap, inl, inr,
  raise, refl, some, suc, ℕ, ◌>>=◌, ◌∙◌,
}
use ajit_segment_bots.Board.{
  BoardPart, BoardPayload, count_at, count_built, declared_only, implemented, tested, running,
  failing, unmeasured, build_board_payload, Rung, board_parts, payload_from,
}

counted :
    (ps : List BoardPart)
    → (length ps
        ≡ count_at declared_only ps
          + count_at implemented ps
          + count_at tested ps
          + count_at running ps
          + count_at failing ps
          + count_at unmeasured ps)
      × (count_built ps ≡ count_at implemented ps + count_at tested ps + count_at running ps)
unfolding count_at count_built keep_if
counted [] = (omega arith, omega arith)
counted (p ∷ ps) = (ground (arith, counted ps), ground (arith, counted ps))

board_parts-length :
    (rung_by_id : String → Rung) (fs : List Feature) (ps : List BoardPart)
    → board_parts rung_by_id fs ≡ ok ps
    → length ps ≡ length fs
unfolding board_parts
board_parts-length rung_by_id [] ps h =
    let same : [] ≡ ps = cc h in subst (λ q. length q ≡ 0) same refl
board_parts-length rung_by_id (f ∷ fs) ps h = elim (Option-cases f.id) [
  | inl nameless ↦ absurd (ground (arith, h, nameless))
  | inr (i, has_id) ↦
      rest_of i has_id (board_parts rung_by_id fs) refl
        (λ qs k. board_parts-length rung_by_id fs qs k)
]
  where
    rest_of :
        (i : String)
        → f.id ≡ some i
        → (m : Result RegistryError (List BoardPart)) → board_parts rung_by_id fs ≡ m
        → ((qs : List BoardPart) → board_parts rung_by_id fs ≡ ok qs → length qs ≡ length fs)
        → length ps ≡ suc (length fs)
    rest_of i has_id (raise e) k len = absurd (ground (arith, h, has_id, k))
    rest_of i has_id (ok qs) k len =
        let grown : ps
            ≡ record { part_id = i; block = get_or f.category ""; rung = rung_by_id i } ∷ qs =
          ground (arith, h, has_id, k) in
        ap length grown ∙ ap suc (len qs k)

-- The six counts make up the parts, of which there is one for each feature, and three of them make
-- up the built ones.
abbrev pub AddsUp : ℕ → BoardPayload → Type 0
AddsUp n b =
    (b.total_parts
      ≡ b.counts declared_only
        + b.counts implemented
        + b.counts tested
        + b.counts running
        + b.counts failing
        + b.counts unmeasured)
    × (b.total_built ≡ b.counts implemented + b.counts tested + b.counts running)
    × (b.total_parts ≡ n)

payload_of :
    (registry : FeatureRegistry) (b : BoardPayload) (v : Result RegistryError (List Violation))
    (m : Result RegistryError (List BoardPart))
    → ((ps : List BoardPart) → m ≡ ok ps → length ps ≡ length registry.features)
    → (do violations ← v; parts ← m; ok (payload_from registry violations parts)) ≡ ok b
    → AddsUp (length registry.features) b
unfolding payload_from
payload_of registry b (raise e) m len h = absurd (cc h)
payload_of registry b (ok vs) (raise e) len h = absurd (cc h)
payload_of registry b (ok vs) (ok parts) len h =
    let same : payload_from registry vs parts ≡ b = cc h in
    subst (AddsUp (length registry.features)) same
      ((counted parts).0, (counted parts).1, len parts refl)

-- In a payload that is built, the counts of the six rungs add up to the number of parts, the built
-- parts are the implemented, the tested and the running ones, and there is one part for each feature
-- of the registry.
pub build_board_payload_lem :
    (rung_by_id : String → Rung) (registry : FeatureRegistry) (b : BoardPayload)
    → build_board_payload rung_by_id registry ≡ ok b
    → AddsUp (length registry.features) b
unfolding build_board_payload
build_board_payload_lem rung_by_id registry b h =
    payload_of registry b (find_contract_violations registry)
      (board_parts rung_by_id registry.features) (board_parts-length rung_by_id registry.features) h
