-- ===== src/Declaration.antt =====
-- runtime/part_declaration.py: what a part declares about itself, read from the registry.
pub mod Blueprint
mod Tests
use ajit_segment_bots.Contracts.{Feature}
use ajit_segment_bots.Prelude.{
  ℕ, String, Bool, ◌&&◌, List, Option, Result, [], false, if◌then◌else◌, none, ok, raise, some,
  str_eq, true, ◌>>=◌, ◌∷◌,
}

pub data ResourceClass : Type 0 where
  io_bound compute_bound bandwidth_bound : ResourceClass

pub data RateRisk : Type 0 where
  latency_only changes_the_answer : RateRisk

pub data SkippedTickEffect : Type 0 where
  delays corrupts : SkippedTickEffect

pub record PartDeclaration : Type 0 where
  pub part_id : String
  pub consumes : List String
  pub produces : List String
  pub resource_class : ResourceClass
  pub rate_risk : RateRisk
  pub skipped_tick_effect : SkippedTickEffect

abbrev pub is_latency_only : RateRisk → Bool
is_latency_only latency_only = true
is_latency_only changes_the_answer = false

abbrev pub is_delays : SkippedTickEffect → Bool
is_delays delays = true
is_delays corrupts = false

unfoldable pub may_enter_rate_ladder : PartDeclaration → Bool
may_enter_rate_ladder d = is_latency_only d.rate_risk && is_delays d.skipped_tick_effect

-- A feature without a key, a value outside an enumeration, and an id that no feature has.
pub data DeclarationError : Type 0 where
  missing_key : String → DeclarationError
  value_error : String → DeclarationError
  not_in_blueprint : String → DeclarationError

-- `ResourceClass(text)`, `RateRisk(text)` and `SkippedTickEffect(text)`.
unfoldable pub parse_resource_class : String → Result DeclarationError ResourceClass
parse_resource_class s =
    if str_eq "io-bound" s
    then ok io_bound
    else if str_eq "compute-bound" s
    then ok compute_bound
    else if str_eq "bandwidth-bound" s
    then ok bandwidth_bound
    else raise (value_error s)

unfoldable pub parse_rate_risk : String → Result DeclarationError RateRisk
parse_rate_risk s =
    if str_eq "latency-only" s
    then ok latency_only
    else if str_eq "changes-the-answer" s
    then ok changes_the_answer
    else raise (value_error s)

unfoldable pub parse_skipped_tick_effect : String → Result DeclarationError SkippedTickEffect
parse_skipped_tick_effect s =
    if str_eq "delays" s
    then ok delays
    else if str_eq "corrupts" s
    then ok corrupts
    else raise (value_error s)

-- `feature[key]`
abbrev pub require_key : {A : Type 0} → String → Option A → Result DeclarationError A
require_key key none = raise (missing_key key)
require_key key (some a) = ok a

unfoldable pub declaration_of : String → Feature → Result DeclarationError PartDeclaration
declaration_of part_id f = do
  consumes ← require_key "consumes" f.consumes
  produces ← require_key "produces" f.produces
  class_text ← require_key "resource_class" f.resource_class
  resource_class ← parse_resource_class class_text
  risk_text ← require_key "rate_risk" f.rate_risk
  rate_risk ← parse_rate_risk risk_text
  effect_text ← require_key "skipped_tick_effect" f.skipped_tick_effect
  effect ← parse_skipped_tick_effect effect_text
  ok (record {
    part_id = part_id;
    consumes = consumes;
    produces = produces;
    resource_class = resource_class;
    rate_risk = rate_risk;
    skipped_tick_effect = effect;
  })

abbrev find_by :
    String
    → Option String
    → Result DeclarationError PartDeclaration
    → Result DeclarationError PartDeclaration
    → Result DeclarationError PartDeclaration
find_by part_id none here later_on = raise (missing_key "id")
find_by part_id (some i) here later_on = if str_eq i part_id then here else later_on

unfoldable pub load_declaration_from_blueprint :
    List Feature → String → Result DeclarationError PartDeclaration
load_declaration_from_blueprint [] part_id = raise (not_in_blueprint part_id)
load_declaration_from_blueprint (f ∷ fs) part_id =
    let later_on = load_declaration_from_blueprint fs part_id in
    find_by part_id f.id (declaration_of part_id f) later_on
