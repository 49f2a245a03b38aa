-- ===== src/Contracts.antt =====
-- dashboard/render_blueprint.py: the feature registry. A feature is read through `dict.get`, so each
-- key may be absent; where the program tests a value for being `True`, or for being truthy, the
-- field is that test's answer. A data type is its id, and a category carries an id.
pub mod Edges
pub mod Rules
pub mod Check
pub mod Reports
pub mod Peers
pub mod Lawful
pub mod Whole
pub mod Flow
pub mod Sample
mod Tests
use ajit_segment_bots.Prelude.{
  ℕ, String, Bool, List, Option, [], false, none, some, str_eq, true, ◌&&◌, ◌||◌, ◌∷◌,
}

pub record Feature : Type 0 where
  pub id : Option String
  pub name : Option String
  pub role : Option String
  pub category : Option String
  pub consumes : Option (List String)
  pub produces : Option (List String)
  pub switchable : Option Bool
  pub off_releases_resources : Option Bool
  pub states : Option (List String)
  pub resource_class : Option String
  pub rate_risk : Option String
  pub skipped_tick_effect : Option String
  pub controls : Option Bool

pub record Category : Type 0 where
  pub category_id : String
  pub category_name : Option String
  pub origin : Option String
  pub flow_origin : Option String
  pub peer_group : Option String
  pub consumes : Option (List String)
  pub produces : Option (List String)

pub record FeatureRegistry : Type 0 where
  pub categories : List Category
  pub data_types : List String
  pub features : List Feature
  pub state_vocabulary : List String

-- `feature.get(key, [])` and the like.
abbrev pub get_or {ℓ} : {A : Type ℓ} → Option A → A → A
get_or none d = d
get_or (some a) d = a

abbrev pub reads : Feature → List String
reads f = get_or f.consumes []

abbrev pub writes : Feature → List String
writes f = get_or f.produces []

-- `dict.get` of the text that a key has, `None` for no text.
abbrev pub equal_option : Option String → Option String → Bool
equal_option none none = true
equal_option none (some b) = false
equal_option (some a) none = false
equal_option (some a) (some b) = str_eq a b

-- `load_feature_registry`: whether the file is there, and what `json.loads` gives of it, none for the
-- JSONDecodeError.
abbrev pub empty_registry : FeatureRegistry
empty_registry = record { categories = []; data_types = []; features = []; state_vocabulary = [] }

unfoldable pub load_feature_registry : Bool → Option FeatureRegistry → FeatureRegistry
load_feature_registry false raw = empty_registry
load_feature_registry true none = empty_registry
load_feature_registry true (some registry) = registry

abbrev pub is_nonempty {ℓ} : {A : Type ℓ} → List A → Bool
is_nonempty [] = false
is_nonempty (x ∷ xs) = true

unfoldable pub any_produces : List Category → Bool
any_produces [] = false
any_produces (c ∷ cs) = is_nonempty (get_or c.produces []) || any_produces cs

unfoldable pub has_declared_flow : FeatureRegistry → Bool
has_declared_flow registry = is_nonempty registry.data_types && any_produces registry.categories
