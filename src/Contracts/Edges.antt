-- ===== src/Contracts/Edges.antt =====
-- `derive_edges`: the connections that follow from what the features declare.
use ajit_segment_bots.Contracts.{Feature, FeatureRegistry, reads, writes}
use ajit_segment_bots.Prelude.{
  ℕ, String, Bool, ◌++◌, ◌==◌, List, Option, Result, [], contains, if◌then◌else◌, keep_if, length,
  none, not, ok, raise, some, str_eq, suc, ◌>>=◌, ◌∷◌,
}

-- `feature["id"]` of a feature that has none.
pub data RegistryError : Type 0 where
  key_error : RegistryError

pub record Edge : Type 0 where
  pub producer_id : String
  pub consumer_id : String
  pub type_id : String

require_id : Option String → Result RegistryError String
require_id none = raise key_error
require_id (some s) = ok s

-- The inner loop, over the features with their positions; `i` is the producer's.
unfoldable pub edges_to :
    ℕ → Option String → String → ℕ → List Feature → Result RegistryError (List Edge)
unfolding require_id
edges_to i from t j [] = ok []
edges_to i from t j (consumer ∷ rest) =
    let tail = edges_to i from t (suc j) rest in
    if i == j
    then tail
    else if contains (reads consumer) t
    then (do
      p ← require_id from
      c ← require_id consumer.id
      es ← tail
      ok (record { producer_id = p; consumer_id = c; type_id = t } ∷ es))
    else tail

append_edges :
    Result RegistryError (List Edge)
    → Result RegistryError (List Edge)
    → Result RegistryError (List Edge)
append_edges a b = do es ← a; fs ← b; ok (es ++ fs)

module _ (features : List Feature) where
  unfoldable pub edges_of_types : ℕ → Option String → List String → Result RegistryError (List Edge)
  unfolding append_edges
  edges_of_types i from [] = ok []
  edges_of_types i from (t ∷ ts) =
      append_edges (edges_to i from t 0 features) (edges_of_types i from ts)

  unfoldable pub edges_from : ℕ → List Feature → Result RegistryError (List Edge)
  unfolding append_edges
  edges_from i [] = ok []
  edges_from i (producer ∷ rest) =
      append_edges (edges_of_types i producer.id (writes producer)) (edges_from (suc i) rest)

unfoldable pub derive_edges : FeatureRegistry → Result RegistryError (List Edge)
unfolding edges_from
derive_edges registry = edges_from registry.features 0 registry.features

abbrev pub health_type : String
health_type = "part-health"

abbrev pub is_health : Edge → Bool
is_health e = str_eq e.type_id health_type

abbrev pub is_data : Edge → Bool
is_data e = not (str_eq e.type_id health_type)

unfoldable pub count_derived_edges : FeatureRegistry → Result RegistryError ℕ
unfolding derive_edges
count_derived_edges registry = do es ← derive_edges registry; ok (length es)

unfoldable pub count_data_edges : FeatureRegistry → Result RegistryError ℕ
unfolding derive_edges
count_data_edges registry = do es ← derive_edges registry; ok (length (keep_if is_data es))

unfoldable pub count_health_edges : FeatureRegistry → Result RegistryError ℕ
unfolding derive_edges
count_health_edges registry = do es ← derive_edges registry; ok (length (keep_if is_health es))
