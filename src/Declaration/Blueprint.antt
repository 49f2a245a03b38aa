-- ===== src/Declaration/Blueprint.antt =====
-- A registry that the contract checker accepts can be loaded part by part.
use ajit_segment_bots.Probes.Readings.{differs}
use ajit_segment_bots.Contracts.Whole.{find_contract_violations-nil_iff}
use ajit_segment_bots.Contracts.Check.{context, find_contract_violations}
use ajit_segment_bots.Declaration.{
  PartDeclaration, RateRisk, ResourceClass, SkippedTickEffect, bandwidth_bound, changes_the_answer,
  compute_bound, corrupts, declaration_of, delays, io_bound, latency_only,
  load_declaration_from_blueprint, parse_rate_risk, parse_resource_class, parse_skipped_tick_effect,
}
use ajit_segment_bots.Contracts.Lawful.{IsLawfulFeature}
use ajit_segment_bots.Contracts.{Feature, FeatureRegistry}
use ajit_segment_bots.Contracts.Rules.{
  Context, is_feature, is_known, known_rate_risks, known_resource_classes,
  known_skipped_tick_effects,
}
use ajit_segment_bots.Prelude.{
  String, All, Bool-cases, List, Option, [], arith, contains, inl, inr, is_some, map, none, ok,
  refl, some, str_eq, true, ◌∷◌, ◌≡◌,
}

parse_known_class :
    (s : String)
    → contains known_resource_classes s ≡ true
    → (c : ResourceClass) × (parse_resource_class s ≡ ok c)
unfolding parse_resource_class contains
parse_known_class s h = elim (Bool-cases (str_eq "io-bound" s)) [
  | inl a ↦ (io_bound, rw a)
  | inr a ↦ elim (Bool-cases (str_eq "compute-bound" s)) [
    | inl b ↦ (compute_bound, rw a (rw b))
    | inr b ↦ elim (Bool-cases (str_eq "bandwidth-bound" s)) [
      | inl c ↦ (bandwidth_bound, rw a (rw b (rw c)))
      | inr c ↦ absurd (ground (arith, a, b, c, h))
    ]
  ]
]

parse_known_risk :
    (s : String) → contains known_rate_risks s ≡ true → (c : RateRisk) × (parse_rate_risk s ≡ ok c)
unfolding parse_rate_risk contains
parse_known_risk s h = elim (Bool-cases (str_eq "latency-only" s)) [
  | inl a ↦ (latency_only, rw a)
  | inr a ↦ elim (Bool-cases (str_eq "changes-the-answer" s)) [
    | inl b ↦ (changes_the_answer, rw a (rw b))
    | inr b ↦ absurd (ground (arith, a, b, h))
  ]
]

parse_known_effect :
    (s : String)
    → contains known_skipped_tick_effects s ≡ true
    → (c : SkippedTickEffect) × (parse_skipped_tick_effect s ≡ ok c)
unfolding parse_skipped_tick_effect contains
parse_known_effect s h = elim (Bool-cases (str_eq "delays" s)) [
  | inl a ↦ (delays, rw a)
  | inr a ↦ elim (Bool-cases (str_eq "corrupts" s)) [
    | inl b ↦ (corrupts, rw a (rw b))
    | inr b ↦ absurd (ground (arith, a, b, h))
  ]
]

require_known :
    (key : String) (names : List String) (o : Option String)
    → is_known names o ≡ true
    → (s : String) × (o ≡ some s) × (contains names s ≡ true)
require_known key names none h = absurd (cc h)
require_known key names (some s) h = (s, refl, h)

some_of {ℓ} : {A : Type ℓ} (o : Option A) → is_some o ≡ true → (a : A) × (o ≡ some a)
some_of none h = absurd (cc h)
some_of (some a) h = (a, refl)

declaration_of-lawful :
    (ctx : Context) (f : Feature) (i : String)
    → IsLawfulFeature ctx f
    → (d : PartDeclaration) × (declaration_of i f ≡ ok d)
      × (d.part_id ≡ i)
      × (f.consumes ≡ some d.consumes)
      × (f.produces ≡ some d.produces)
unfolding declaration_of
declaration_of-lawful ctx f i l =
    let (reads_of, c) = some_of f.consumes l.has_consumes in
    let (writes_of, p) = some_of f.produces l.has_produces in
    let (class_text, a, a') =
      require_known "resource_class" known_resource_classes f.resource_class l.class_known in
    let (risk_text, b, b') = require_known "rate_risk" known_rate_risks f.rate_risk l.risk_known in
    let (effect_text, e, e') =
      require_known "skipped_tick_effect" known_skipped_tick_effects f.skipped_tick_effect
        l.effect_known in
    let (resource_class, x) = parse_known_class class_text a' in
    let (rate_risk, y) = parse_known_risk risk_text b' in
    let (effect, z) = parse_known_effect effect_text e' in
    (
      record {
        part_id = i;
        consumes = reads_of;
        produces = writes_of;
        resource_class = resource_class;
        rate_risk = rate_risk;
        skipped_tick_effect = effect;
      },
      ground (arith, c, p, a, b, e, x, y, z),
      refl,
      c,
      p,
    )

load_from :
    (ctx : Context) (fs : List Feature) (i : String)
    → All (IsLawfulFeature ctx) fs
    → is_feature (map (λ f. f.id) fs) i ≡ true
    → (d : PartDeclaration) × (load_declaration_from_blueprint fs i ≡ ok d) × (d.part_id ≡ i)
unfolding load_declaration_from_blueprint is_feature
load_from ctx [] i l h = absurd (cc h)
load_from ctx (f ∷ fs) i l h =
    let (own, e) = some_of f.id l.0.has_id in
    elim (Bool-cases (str_eq own i)) [
      | inl same ↦
          let (d, loaded, named, _, _) = declaration_of-lawful ctx f i l.0 in
          (d, ground (arith, e, same, loaded), named)
      | inr differs ↦
          let (d, loaded, named) = load_from ctx fs i l.1 (ground (arith, e, differs, h)) in
          (d, ground (arith, e, differs, loaded), named)
    ]

-- In a registry that breaks no contract rule, the declaration of every part that the registry names
-- loads, under its id.
pub load_declaration-lawful :
    (registry : FeatureRegistry) (i : String)
    → find_contract_violations registry ≡ ok []
    → is_feature (map (λ f. f.id) registry.features) i ≡ true
    → (d : PartDeclaration) × (load_declaration_from_blueprint registry.features i ≡ ok d)
      × (d.part_id ≡ i)
load_declaration-lawful registry i h =
    load_from (context registry) registry.features i
      ((find_contract_violations-nil_iff registry).0 h).features
