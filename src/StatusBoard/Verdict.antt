-- ===== src/StatusBoard/Verdict.antt =====
-- What the tally and the headline of a run say, and how its tiles fall into two groups.
use ajit_segment_bots.Prelude.{
  ◌≡◌, ◌≢◌, ◌↔◌, refl, arith, ap, sym, ◌∙◌, ℕ, ◌+◌, String, List, [], ◌∷◌, Bool, true,
  if◌then◌else◌, Option, some, none, ok, length, keep_if, take, drop, map, take-exact, drop-exact,
  length-append, suc, Text,
}
use ajit_segment_bots.Contracts.{FeatureRegistry, is_nonempty}
use ajit_segment_bots.Contracts.Edges.{Edge, derive_edges, count_data_edges, count_health_edges}
use ajit_segment_bots.Probes.{
  ProbeState, state_ok, state_not_built, state_failing, state_not_measured,
}
use ajit_segment_bots.StatusBoard.{ProbeResult, Server}
use ajit_segment_bots.StatusBoard.Circuit.{
  registry_of, judge_blueprint, blueprint_tile, probe_architecture_blueprint, drawn,
}
use ajit_segment_bots.StatusBoard.Host.{probe_goal_definition, judge_goal}
use ajit_segment_bots.StatusBoard.Board.{
  state_eq, run_one, probes, run_all_probes, collect_substrate_results, count_state, tally,
  find_state, blueprint_exists, stage_of, base_results, substrate_results,
}

abbrev pub chip_count : List (String × ℕ × ProbeState) → ℕ
chip_count [] = 0
chip_count ((modifier, count, state) ∷ chips) = count + chip_count chips

count_state-cons :
    (s : ProbeState) (r : ProbeResult) (results : List ProbeResult)
    → count_state s (r ∷ results)
      ≡ (if state_eq r.state s then suc (count_state s results) else count_state s results)
unfolding count_state keep_if
count_state-cons s r results = ground arith

chip_count_once :
    (s : ProbeState) (a b c d : ℕ)
    → (if state_eq s state_ok then suc a else a)
        + ((if state_eq s state_not_built then suc b else b)
            + ((if state_eq s state_failing then suc c else c)
                + ((if state_eq s state_not_measured then suc d else d) + 0)))
      ≡ suc (a + (b + (c + (d + 0))))
chip_count_once state_ok a b c d = omega arith
chip_count_once state_not_built a b c d = omega arith
chip_count_once state_failing a b c d = omega arith
chip_count_once state_not_measured a b c d = omega arith

tally_counts : (results : List ProbeResult) → chip_count (tally results) ≡ length results
unfolding tally count_state keep_if
tally_counts [] = refl
tally_counts (r ∷ results) =
    rw
      (
        count_state-cons state_ok r results,
        count_state-cons state_not_built r results,
        count_state-cons state_failing r results,
        count_state-cons state_not_measured r results,
      )
      (chip_count_once r.state _ _ _ _ ∙ ap suc (tally_counts results))

length-map {ℓ} : {A B : Type ℓ} (f : A → B) (xs : List A) → length (map f xs) ≡ length xs
length-map f [] = refl
length-map f (x ∷ xs) = ap suc (length-map f xs)

-- The tiles of a run.
own_tiles : Server → List ProbeResult
own_tiles server = map (λ p. run_one p.0 p.1) (probes server)

find_state-first :
    (goal : ProbeResult) (results : List ProbeResult)
    → goal.label ≡ "Goal"
    → find_state (goal ∷ results) "Goal" ≡ goal.state
unfolding find_state
find_state-first goal results named = rw (find_state, named) refl

find_state-second :
    (goal blueprint : ProbeResult) (results : List ProbeResult)
    → goal.label ≡ "Goal"
    → blueprint.label ≡ "Architecture blueprint"
    → find_state (goal ∷ blueprint ∷ results) "Architecture blueprint" ≡ blueprint.state
unfolding find_state
find_state-second goal blueprint results named named' = rw (find_state, named, named') refl

stage_of-first :
    (goal blueprint : ProbeResult) (results : List ProbeResult)
    → goal.label ≡ "Goal"
    → blueprint.label ≡ "Architecture blueprint"
    → (stage_of (goal ∷ blueprint ∷ results) ≡ blueprint_exists)
      ↔ ((goal.state ≡ state_ok) × (blueprint.state ≡ state_ok))
unfolding stage_of
stage_of-first goal blueprint results named named' = ground (
  arith,
  find_state-first goal (blueprint ∷ results) named,
  find_state-second goal blueprint results named named',
)

judge_goal_lem :
    (goal : Option Text) (proof : String)
    → ((judge_goal goal proof).label ≡ "Goal")
      × (((judge_goal goal proof).state ≡ state_ok) ↔ (goal ≢ none))
unfolding judge_goal
judge_goal_lem none proof = (refl, ((λ h. absurd (cc h)), (λ h. absurd (h refl))))
judge_goal_lem (some body) proof = (refl, ((λ _ e. cc e), (λ _. refl)))

judge_blueprint_lem :
    (is_file : Bool) (registry : FeatureRegistry) (edges : List Edge)
    → derive_edges registry ≡ ok edges
    → ((run_one "probe_architecture_blueprint" (judge_blueprint is_file registry)).label
        ≡ "Architecture blueprint")
      × (((run_one "probe_architecture_blueprint" (judge_blueprint is_file registry)).state
            ≡ state_ok)
          ↔ ((is_file ≡ true)
              × (is_nonempty registry.categories ≡ true)
              × (is_nonempty registry.features ≡ true)))
unfolding judge_blueprint drawn count_data_edges count_health_edges run_one blueprint_tile
judge_blueprint_lem is_file registry edges derives =
    (ground (arith, derives), ground (arith, derives))

length-own_tiles : (server : Server) → length (own_tiles server) ≡ 14
unfolding own_tiles probes
length-own_tiles server = refl

module _ (server : Server) where
  -- The chips of the tally of a run count each tile once: their counts add up to fourteen and the
  -- number of the substrate's tiles.
  pub tally-run_all_probes :
      chip_count (tally (run_all_probes server))
      ≡ 14 + length (collect_substrate_results server.substrate)
  unfolding run_all_probes own_tiles
  tally-run_all_probes =
      tally_counts (run_all_probes server)
      ∙ length-append (own_tiles server) (collect_substrate_results server.substrate)
      ∙ ap (λ n. n + length (collect_substrate_results server.substrate)) (length-own_tiles server)

  -- The board's two groups are the tiles of its own fourteen probes, in their order, and the
  -- substrate's, whatever either of them says.
  pub render_board-groups :
      (base_results server (run_all_probes server) ≡ map (λ p. run_one p.0 p.1) (probes server))
      × (substrate_results server (run_all_probes server)
          ≡ collect_substrate_results server.substrate)
  unfolding base_results substrate_results run_all_probes own_tiles
  render_board-groups =
      let whole = length-map (λ p. run_one p.0 p.1) (probes server) in
      (
        ap (λ n. take n (run_all_probes server)) (sym whole)
            ∙ take-exact (own_tiles server) (collect_substrate_results server.substrate),
        ap (λ n. drop n (run_all_probes server)) (sym whole)
            ∙ drop-exact (own_tiles server) (collect_substrate_results server.substrate),
      )

  -- If the ids that the edges need are declared, then the headline of a run says that the blueprint
  -- exists exactly if the goal is recorded, the registry's file is there, and it has blocks and parts.
  pub stage_of-run_all_probes :
      (edges : List Edge)
      → derive_edges (registry_of server) ≡ ok edges
      → (stage_of (run_all_probes server) ≡ blueprint_exists) ↔ (
          (server.goal ≢ none)
          × (server.registry_is_file ≡ true)
          × (is_nonempty (registry_of server).categories ≡ true)
          × (is_nonempty (registry_of server).features ≡ true))
  unfolding run_all_probes probes run_one probe_goal_definition probe_architecture_blueprint
  stage_of-run_all_probes edges derives =
      let (named, goal_iff) = judge_goal_lem server.goal _ in
      let (named', blueprint_iff) =
        judge_blueprint_lem server.registry_is_file (registry_of server) edges derives in
      let staged = stage_of-first _ _ _ named named' in
      (
        (λ h.
            let (g, b) = staged.0 h in
            let (f, c, p) = blueprint_iff.0 b in (goal_iff.0 g, f, c, p)),
        (λ (g, f, c, p). staged.1 (goal_iff.1 g, blueprint_iff.1 (f, c, p))),
      )
