-- ===== src/Contracts/Rules.antt =====
-- `find_contract_violations`: the rules that concern one feature. A violation carries what its
-- message names.
use ajit_segment_bots.Contracts.{Feature, get_or, reads, writes}
use ajit_segment_bots.Prelude.{
  ℕ, String, Bool, ◌&&◌, ◌+◌, ◌++◌, List, Option, Text, [], codes, contains, false, if◌then◌else◌,
  is_some, leb, map, none, not, some, starts_with, str_eq, true, ◌||◌, ◌∷◌,
}

pub data Violation : Type 0 where
  missing_field : String → String → Violation
  not_switchable : String → Violation
  declares_control : String → Violation
  holds_resources : String → Violation
  homeless : String → Violation
  names_part : String → String → Violation
  no_states : String → Violation
  unknown_state : String → String → Violation
  unknown_resource_class : String → Option String → Violation
  not_throttleable : String → Option String → Option String → Violation
  two_responsibilities : String → Violation
  isolated : String → Violation
  undeclared_input : String → String → Violation
  dangling_input : String → String → Violation
  undeclared_output : String → String → Violation
  orphan_output : String → String → Violation
  peer_wire : String → String → String → Violation

abbrev pub known_resource_classes : List String
known_resource_classes = "io-bound" ∷ "compute-bound" ∷ "bandwidth-bound" ∷ []

abbrev pub known_rate_risks : List String
known_rate_risks = "latency-only" ∷ "changes-the-answer" ∷ []

abbrev pub known_skipped_tick_effects : List String
known_skipped_tick_effects = "delays" ∷ "corrupts" ∷ []

-- `REQUIRED_FEATURE_FIELDS`, each with whether the feature has it.
unfoldable pub required_feature_fields : Feature → List (String × Bool)
required_feature_fields f =
    ("id", is_some f.id)
    ∷ ("name", is_some f.name)
    ∷ ("role", is_some f.role)
    ∷ ("category", is_some f.category)
    ∷ ("consumes", is_some f.consumes)
    ∷ ("produces", is_some f.produces)
    ∷ ("switchable", is_some f.switchable)
    ∷ ("off_releases_resources", is_some f.off_releases_resources)
    ∷ ("states", is_some f.states)
    ∷ ("resource_class", is_some f.resource_class)
    ∷ ("rate_risk", is_some f.rate_risk)
    ∷ ("skipped_tick_effect", is_some f.skipped_tick_effect)
    ∷ []

-- A loop that appends a violation for each element that fails a test.
module _ {ℓ} {A : Type ℓ} where
  unfoldable pub report_each : (A → Bool) → (A → Violation) → List A → List Violation
  report_each fails violation [] = []
  report_each fails violation (x ∷ xs) =
      let rest = report_each fails violation xs in if fails x then violation x ∷ rest else rest

abbrev pub report_if : Bool → Violation → List Violation
report_if true v = v ∷ []
report_if false v = []

abbrev pub is_known : List String → Option String → Bool
is_known names none = false
is_known names (some s) = contains names s

to_lower : ℕ → ℕ
to_lower c = if leb b'A' c && leb c b'Z' then c + 32 else c

-- `part in text`
unfoldable pub has_part : Text → Text → Bool
unfolding starts_with
has_part part [] = starts_with part []
has_part part (c ∷ s) = starts_with part (c ∷ s) || has_part part s

-- `" and " in role.lower()`: no character outside ASCII has one of its letters for lower case.
unfoldable pub names_two : String → Bool
unfolding to_lower has_part
names_two role = has_part (codes " and ") (map to_lower (codes role))

-- What the function computes of the registry before its loop.
pub record Context : Type 0 where
  pub known_types : List String
  pub known_categories : List String
  pub known_features : List (Option String)
  pub vocabulary : List String
  pub produced : List String
  pub consumed : List String

unfoldable pub is_feature : List (Option String) → String → Bool
is_feature [] t = false
is_feature (none ∷ ids) t = is_feature ids t
is_feature (some i ∷ ids) t = str_eq i t || is_feature ids t

abbrev pub is_false_or_absent : Option Bool → Bool
is_false_or_absent (some true) = false
is_false_or_absent (some false) = true
is_false_or_absent none = true

abbrev pub is_empty {ℓ} : {A : Type ℓ} → List A → Bool
is_empty [] = true
is_empty (x ∷ xs) = false

-- The two arms of the loop over a feature's inputs, and over its outputs.
module _ (known supplied : List String) (undeclared loose : String → Violation) where
  unfoldable pub report_wires : List String → List Violation
  report_wires [] = []
  report_wires (t ∷ ts) =
      let rest = report_wires ts in
      if not (contains known t)
      then undeclared t ∷ rest
      else if not (contains supplied t)
      then loose t ∷ rest
      else rest

module _ (ctx : Context) where
  unfoldable pub feature_violations : Feature → List Violation
  feature_violations f =
      let name = get_or f.name (get_or f.id "?") in
      report_each (λ (r : String × Bool). not r.1) (λ r. missing_field name r.0)
        (required_feature_fields f)
      ++ (report_if (is_false_or_absent f.switchable) (not_switchable name)
          ++ (report_if (get_or f.controls false) (declares_control name)
              ++ (report_if (is_false_or_absent f.off_releases_resources) (holds_resources name)
                  ++ (report_if (not (contains ctx.known_categories (get_or f.category "")))
                        (homeless name)
                      ++ (report_each (is_feature ctx.known_features) (names_part name)
                            (reads f ++ writes f)
                          ++ (report_if (is_empty (get_or f.states [])) (no_states name)
                              ++ (report_each (λ s. not (contains ctx.vocabulary s))
                                    (unknown_state name) (get_or f.states [])
                                  ++ (report_if
                                        (not (is_known known_resource_classes f.resource_class))
                                        (unknown_resource_class name f.resource_class)
                                      ++ (report_if
                                            (not (is_known known_rate_risks f.rate_risk)
                                              || not (
                                                  is_known known_skipped_tick_effects
                                                    f.skipped_tick_effect))
                                            (not_throttleable name f.rate_risk
                                              f.skipped_tick_effect)
                                          ++ (report_if (names_two (get_or f.role ""))
                                                (two_responsibilities name)
                                              ++ (report_if
                                                    (is_empty (reads f) && is_empty (writes f))
                                                    (isolated name)
                                                  ++ (report_wires ctx.known_types ctx.produced
                                                        (undeclared_input name)
                                                        (dangling_input name) (reads f)
                                                      ++ report_wires ctx.known_types ctx.consumed
                                                          (undeclared_output name)
                                                          (orphan_output name)
                                                          (writes f)))))))))))))

  unfoldable pub features_violations : List Feature → List Violation
  features_violations [] = []
  features_violations (f ∷ fs) = feature_violations f ++ features_violations fs
