-- ===== src/Contracts/Lawful.antt =====
-- The contract rules stated one by one, and their equivalence with an empty report.
use ajit_segment_bots.Contracts.Reports.{
  Each, append-eq-nil_iff, nil-report_each, report_each-nil, nil-report_wires, report_wires-nil,
}
use ajit_segment_bots.Contracts.{Feature, get_or, reads, writes}
use ajit_segment_bots.Contracts.Rules.{
  Context, Violation, is_feature, is_known, known_rate_risks, known_resource_classes,
  known_skipped_tick_effects, missing_field, names_two, report_each, report_if,
  required_feature_fields, feature_violations, dangling_input, is_empty, isolated, names_part,
  no_states, not_throttleable, orphan_output, two_responsibilities, undeclared_input,
  undeclared_output, unknown_resource_class, unknown_state, declares_control, holds_resources,
  homeless, is_false_or_absent, not_switchable,
}
use ajit_segment_bots.Prelude.{
  String, Bool, ◌++◌, List, [], arith, contains, false, is_some, not, refl, some, true, ◌↔◌, ◌≡◌,
  ◌≢◌, Option, none, ◌&&◌, ◌||◌,
}

-- A feature that breaks no rule on single features, rule by rule.
pub record IsLawfulFeature (ctx : Context) (f : Feature) : Type 0 where
  pub has_id : is_some f.id ≡ true
  pub has_name : is_some f.name ≡ true
  pub has_role : is_some f.role ≡ true
  pub has_category : is_some f.category ≡ true
  pub has_consumes : is_some f.consumes ≡ true
  pub has_produces : is_some f.produces ≡ true
  pub has_states : is_some f.states ≡ true
  pub switchable : f.switchable ≡ some true
  pub releases : f.off_releases_resources ≡ some true
  pub controls_nothing : f.controls ≢ some true
  pub at_home : contains ctx.known_categories (get_or f.category "") ≡ true
  pub names_no_part : Each (λ t. is_feature ctx.known_features t ≡ false) (reads f ++ writes f)
  pub has_some_state : get_or f.states [] ≢ []
  pub states_known : Each (λ s. contains ctx.vocabulary s ≡ true) (get_or f.states [])
  pub class_known : is_known known_resource_classes f.resource_class ≡ true
  pub risk_known : is_known known_rate_risks f.rate_risk ≡ true
  pub effect_known : is_known known_skipped_tick_effects f.skipped_tick_effect ≡ true
  pub one_responsibility : names_two (get_or f.role "") ≡ false
  pub connected : ¬ ((reads f ≡ []) × (writes f ≡ []))
  pub inputs_supplied :
      Each (λ t. (contains ctx.known_types t ≡ true) × (contains ctx.produced t ≡ true)) (reads f)
  pub outputs_used :
      Each (λ t. (contains ctx.known_types t ≡ true) × (contains ctx.consumed t ≡ true)) (writes f)

Each-map :
    {P Q : String → Type 0} (xs : List String) → ((x : String) → P x → Q x) → Each P xs → Each Q xs
Each-map xs f h x c = f x (h x c)

-- The report on the required fields is empty exactly if all are there.
required_report-nil :
    (name : String) (f : Feature)
    → (report_each
          (λ (r : String × Bool). not r.1)
          (λ r. missing_field name r.0)
          (required_feature_fields f)
        ≡ [])
      ↔ ((is_some f.id ≡ true)
          × (is_some f.name ≡ true)
          × (is_some f.role ≡ true)
          × (is_some f.category ≡ true)
          × (is_some f.consumes ≡ true)
          × (is_some f.produces ≡ true)
          × (is_some f.switchable ≡ true)
          × (is_some f.off_releases_resources ≡ true)
          × (is_some f.states ≡ true)
          × (is_some f.resource_class ≡ true)
          × (is_some f.rate_risk ≡ true)
          × (is_some f.skipped_tick_effect ≡ true))
unfolding report_each required_feature_fields
required_report-nil name f = ground arith

known_some : (names : List String) (o : Option String) → is_known names o ≡ true → is_some o ≡ true
known_some names none h = absurd (cc h)
known_some names (some s) h = refl

-- No violation is reported of a feature exactly if it breaks none of the rules.
pub feature_violations-nil :
    (ctx : Context) (f : Feature) → feature_violations ctx f ≡ [] → IsLawfulFeature ctx f
unfolding feature_violations
feature_violations-nil ctx f h =
    let name = get_or f.name (get_or f.id "?") in
    let s₀ = (append-eq-nil_iff _ _).0 h in
    let s₁ =
      (append-eq-nil_iff (report_if (is_false_or_absent f.switchable) (not_switchable name)) _).0
        s₀.1 in
    let s₂ =
      (append-eq-nil_iff (report_if (get_or f.controls false) (declares_control name)) _).0 s₁.1 in
    let s₃ =
      (append-eq-nil_iff
          (report_if (is_false_or_absent f.off_releases_resources) (holds_resources name)) _).0
        s₂.1 in
    let s₄ =
      (append-eq-nil_iff
          (report_if (not (contains ctx.known_categories (get_or f.category ""))) (homeless name))
          _).0
        s₃.1 in
    let s₅ = (append-eq-nil_iff _ _).0 s₄.1 in
    let s₆ =
      (append-eq-nil_iff
          (report_if (is_empty (get_or f.states [])) (no_states (get_or f.name (get_or f.id "?"))))
          _).0
        s₅.1 in
    let s₇ = (append-eq-nil_iff _ _).0 s₆.1 in
    let s₈ =
      (append-eq-nil_iff
          (report_if (not (is_known known_resource_classes f.resource_class))
            (unknown_resource_class name f.resource_class))
          _).0
        s₇.1 in
    let s₉ =
      (append-eq-nil_iff
          (report_if
            (not (is_known known_rate_risks f.rate_risk)
              || not (is_known known_skipped_tick_effects f.skipped_tick_effect))
            (not_throttleable name f.rate_risk f.skipped_tick_effect))
          _).0
        s₈.1 in
    let t₀ =
      (append-eq-nil_iff (report_if (names_two (get_or f.role "")) (two_responsibilities name)) _).0
        s₉.1 in
    let t₁ =
      (append-eq-nil_iff (report_if (is_empty (reads f) && is_empty (writes f)) (isolated name))
          _).0
        t₀.1 in
    let t₂ = (append-eq-nil_iff _ _).0 t₁.1 in
    let required = (required_report-nil (get_or f.name (get_or f.id "?")) f).0 s₀.0 in
    record {
      has_id = required.0;
      has_name = required.1;
      has_role = required.2;
      has_category = required.3;
      has_consumes = required.4;
      has_produces = required.5;
      has_states = required.8;
      switchable = ground (arith, s₁.0);
      releases = ground (arith, s₃.0);
      controls_nothing = ground (arith, s₂.0);
      at_home = ground (arith, s₄.0);
      names_no_part =
          report_each-nil (is_feature ctx.known_features) (names_part name) (reads f ++ writes f)
            s₅.0;
      has_some_state = ground (arith, s₆.0);
      states_known =
          Each-map (get_or f.states []) (λ s e. ground (arith, e))
            (report_each-nil (λ s. not (contains ctx.vocabulary s)) (unknown_state name)
              (get_or f.states []) s₇.0);
      class_known = ground (arith, s₈.0);
      risk_known = ground (arith, s₉.0);
      effect_known = ground (arith, s₉.0);
      one_responsibility = ground (arith, t₀.0);
      connected = λ e. ground (arith, t₁.0, e.0, e.1);
      inputs_supplied =
          report_wires-nil ctx.known_types ctx.produced (undeclared_input name)
            (dangling_input name) (reads f) t₂.0;
      outputs_used =
          report_wires-nil ctx.known_types ctx.consumed (undeclared_output name)
            (orphan_output name) (writes f) t₂.1;
    }

nil-append : {xs ys : List Violation} → xs ≡ [] → ys ≡ [] → xs ++ ys ≡ []
nil-append {xs} {ys} a b = (append-eq-nil_iff xs ys).1 (a, b)

pub nil-feature_violations :
    (ctx : Context) (f : Feature) → IsLawfulFeature ctx f → feature_violations ctx f ≡ []
unfolding feature_violations
nil-feature_violations ctx f l =
    let name = get_or f.name (get_or f.id "?") in
    let known_class = is_known known_resource_classes f.resource_class in
    let risk = is_known known_rate_risks f.rate_risk in
    let effect = is_known known_skipped_tick_effects f.skipped_tick_effect in
    nil-append
      ((required_report-nil name f).1 (
        l.has_id,
        l.has_name,
        l.has_role,
        l.has_category,
        l.has_consumes,
        l.has_produces,
        ground (arith, l.switchable),
        ground (arith, l.releases),
        l.has_states,
        known_some known_resource_classes f.resource_class l.class_known,
        known_some known_rate_risks f.rate_risk l.risk_known,
        known_some known_skipped_tick_effects f.skipped_tick_effect l.effect_known,
      ))
      (nil-append {xs = report_if (is_false_or_absent f.switchable) (not_switchable name)}
        (ground (arith, l.switchable))
        (nil-append {xs = report_if (get_or f.controls false) (declares_control name)}
          (ground (arith, l.controls_nothing))
          (nil-append
            {xs = report_if (is_false_or_absent f.off_releases_resources) (holds_resources name)}
            (ground (arith, l.releases))
            (nil-append
              {xs = report_if (not (contains ctx.known_categories (get_or f.category "")))
                (homeless name)}
              (ground (arith, l.at_home))
              (nil-append
                (nil-report_each (is_feature ctx.known_features) (names_part name)
                  (reads f ++ writes f) l.names_no_part)
                (nil-append {xs = report_if (is_empty (get_or f.states [])) (no_states name)}
                  (ground (arith, l.has_some_state))
                  (nil-append
                    (nil-report_each (λ s. not (contains ctx.vocabulary s)) (unknown_state name)
                      (get_or f.states [])
                      (Each-map (get_or f.states []) (λ s e. rw e) l.states_known))
                    (nil-append
                      {xs = report_if (not known_class)
                        (unknown_resource_class name f.resource_class)}
                      (ground (arith, l.class_known))
                      (nil-append
                        {xs = report_if (not risk || not effect)
                          (not_throttleable name f.rate_risk f.skipped_tick_effect)}
                        (ground (arith, l.risk_known, l.effect_known))
                        (nil-append
                          {xs = report_if (names_two (get_or f.role ""))
                            (two_responsibilities name)}
                          (ground (arith, l.one_responsibility))
                          (nil-append
                            {xs = report_if (is_empty (reads f) && is_empty (writes f))
                              (isolated name)}
                            (ground (arith, l.connected))
                            (nil-append
                              (nil-report_wires ctx.known_types ctx.produced (undeclared_input name)
                                (dangling_input name) (reads f) l.inputs_supplied)
                              (nil-report_wires ctx.known_types ctx.consumed
                                (undeclared_output name) (orphan_output name) (writes f)
                                l.outputs_used)))))))))))))
