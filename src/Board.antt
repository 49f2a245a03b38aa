-- ===== src/Board.antt =====
-- dashboard/build_part_monitor.py and dashboard/part_health_api.py: how far each part is, and what the
-- board says of a block. A source file is its stem, its name, its directory and its path from the
-- repository's root; the texts of the payload that are only handed on are not
-- kept.
pub mod Summary
pub mod Counts
pub mod Monitor
pub mod Routes
pub mod Named
pub mod Served
mod Requests
mod Tests
use ajit_segment_bots.Contracts.Rules.{has_part, is_empty, Violation}
use ajit_segment_bots.Contracts.Check.{find_contract_violations}
use ajit_segment_bots.Contracts.Edges.{RegistryError, key_error}
use ajit_segment_bots.Contracts.{Category, Feature, FeatureRegistry, get_or}
use ajit_segment_bots.Prelude.{
  ℕ, ◌&&◌, ◌+◌, ◌==◌, Bool, List, Option, Result, String, Text, [], all_of, codes, false,
  if◌then◌else◌, keep_if, leb, length, map, none, not, ok, raise, some, str_eq, true, ◌||◌, ◌>>=◌,
  ◌∷◌,
}

pub data Rung : Type 0 where
  declared_only implemented tested running failing unmeasured : Rung

pub record Source : Type 0 where
  pub stem : Text
  pub filename : Text
  pub directory : Text
  pub relative : String

-- What a rung is shown with.
pub data Proof : Type 0 where
  no_source : Proof
  only_tests : Source → Proof
  with_test : Source → Source → Proof
  no_test : Source → Proof
  violated : String → Proof

lower_of : ℕ → ℕ
lower_of c = if leb b'A' c && leb c b'Z' then c + 32 else c

-- `"test" in text.lower()`: no character outside ASCII has one of its letters for lower case.
unfoldable pub mentions_test : Text → Bool
unfolding lower_of
mentions_test s = has_part (codes "test") (map lower_of s)

unfoldable pub is_test : Source → Bool
is_test p = mentions_test p.filename || mentions_test p.directory

unfoldable pub names_variant : List Text → Source → Bool
names_variant [] p = false
names_variant (v ∷ vs) p = has_part v p.stem || names_variant vs p

-- The answer, from the tests and the implementations among the hits.
unfoldable pub rung_of : List Source → List Source → Rung × Proof
rung_of [] [] = (declared_only, no_source)
rung_of (t ∷ tests) [] = (declared_only, only_tests t)
rung_of [] (p ∷ impls) = (implemented, no_test p)
rung_of (t ∷ tests) (p ∷ impls) = (tested, with_test p t)

-- `variants` are the spellings that `name_variants` gives.
unfoldable pub probe_part_rung : List Text → List Source → Rung × Proof
probe_part_rung variants sources =
    let hits = keep_if (names_variant variants) sources in
    rung_of (keep_if is_test hits) (keep_if (λ p. not (is_test p)) hits)

-- A part with the violation that the checker reports of it, if there is one.
unfoldable pub measured_rung : Option String → Rung × Proof → Rung × Proof
measured_rung none probed = probed
measured_rung (some violation) probed = (failing, violated violation)

-- The state of a block, its label where it is of none of the rungs.
pub data BlockState : Type 0 where
  at_rung : Rung → BlockState
  partial_block : BlockState

abbrev pub is_failing : Rung → Bool
is_failing failing = true
is_failing _ = false

abbrev pub is_running : Rung → Bool
is_running running = true
is_running _ = false

abbrev pub is_declared_only : Rung → Bool
is_declared_only declared_only = true
is_declared_only _ = false

unfoldable pub any_of : (Rung → Bool) → List Rung → Bool
any_of test [] = false
any_of test (r ∷ rs) = test r || any_of test rs

abbrev is_no_rung : List Rung → Bool
is_no_rung [] = true
is_no_rung (r ∷ rs) = false

unfoldable pub summarise_block_state : List Rung → BlockState
summarise_block_state rungs =
    if is_no_rung rungs
    then at_rung unmeasured
    else if any_of is_failing rungs
    then at_rung failing
    else if all_of is_running rungs
    then at_rung running
    else if all_of is_declared_only rungs
    then at_rung declared_only
    else partial_block

-- A part of the payload, with what its counts read.
pub record BoardPart : Type 0 where
  pub part_id : String
  pub block : String
  pub rung : Rung

pub record Block : Type 0 where
  pub block_id : String
  pub part_ids : List String
  pub state : BlockState
  pub n_parts : ℕ
  pub n_built : ℕ

abbrev pub is_built : Rung → Bool
is_built implemented = true
is_built tested = true
is_built running = true
is_built _ = false

abbrev pub rung_number : Rung → ℕ
rung_number declared_only = 0
rung_number implemented = 1
rung_number tested = 2
rung_number running = 3
rung_number failing = 4
rung_number unmeasured = 5

unfoldable pub count_built : List BoardPart → ℕ
count_built ps = length (keep_if (λ (p : BoardPart). is_built p.rung) ps)

unfoldable pub count_at : Rung → List BoardPart → ℕ
count_at r ps = length (keep_if (λ (p : BoardPart). rung_number p.rung == rung_number r) ps)

unfoldable pub owned_by : String → List BoardPart → List BoardPart
owned_by category ps = keep_if (λ (p : BoardPart). str_eq p.block category) ps

unfoldable pub block_of : List BoardPart → Category → Block
block_of parts category =
    let owned = owned_by category.category_id parts in
    record {
      block_id = category.category_id;
      part_ids = map (λ (p : BoardPart). p.part_id) owned;
      state = summarise_block_state (map (λ (p : BoardPart). p.rung) owned);
      n_parts = length owned;
      n_built = count_built owned;
    }

pub record BoardPayload : Type 0 where
  pub contract_ok : Bool
  pub blocks : List Block
  pub parts : List BoardPart
  pub counts : Rung → ℕ
  pub total_blocks : ℕ
  pub total_parts : ℕ
  pub total_built : ℕ
  pub total_data_types : ℕ

-- `feature["id"]` and `feature.get("category", "")`, with the rung that was measured under the id.
unfoldable pub board_parts : (String → Rung) → List Feature → Result RegistryError (List BoardPart)
board_parts rung_by_id [] = ok []
board_parts rung_by_id (f ∷ fs) = elim f.id [
  | none ↦ raise key_error
  | some i ↦ (do
    rest ← board_parts rung_by_id fs
    ok (record { part_id = i; block = get_or f.category ""; rung = rung_by_id i } ∷ rest))
]

unfoldable pub payload_from : FeatureRegistry → List Violation → List BoardPart → BoardPayload
payload_from registry violations parts = record {
  contract_ok = is_empty violations;
  blocks = map (block_of parts) registry.categories;
  parts = parts;
  counts = λ r. count_at r parts;
  total_blocks = length (map (block_of parts) registry.categories);
  total_parts = length parts;
  total_built = count_built parts;
  total_data_types = length registry.data_types;
}

-- `build_board_payload`
unfoldable pub build_board_payload :
    (String → Rung) → FeatureRegistry → Result RegistryError BoardPayload
build_board_payload rung_by_id registry = do
  violations ← find_contract_violations registry
  parts ← board_parts rung_by_id registry.features
  ok (payload_from registry violations parts)
