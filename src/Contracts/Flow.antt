-- ===== src/Contracts/Flow.antt =====
-- `derive_category_edges` and `find_flow_gaps`: the flow between the blocks, and where it does not
-- close up. A gap carries what its message names.
use ajit_segment_bots.Contracts.Rules.{is_known}
use ajit_segment_bots.Contracts.Reports.{Each, Each-cons, Each-head, Each-tail}
use ajit_segment_bots.Prelude.{
  ◌++◌, ◌==◌, All, Bool, Bool-cases, List, String, [], arith, contains, if◌then◌else◌, inl, inr,
  not, refl, suc, true, ℕ, ◌↔◌, ◌∷◌, ◌≡◌,
}
use ajit_segment_bots.Contracts.{Category, FeatureRegistry, get_or}
use ajit_segment_bots.Contracts.Edges.{Edge}
use ajit_segment_bots.Contracts.Check.{gather}

abbrev pub described_flow_origins : List String
described_flow_origins = "proposed" ∷ "agreed-provisional" ∷ []

unfoldable pub is_described : Category → Bool
is_described c = is_known described_flow_origins c.flow_origin

-- The inner loop, over the categories with their positions; `i` is the producer's.
unfoldable pub category_edges_to : ℕ → String → String → ℕ → List Category → List Edge
category_edges_to i from t j [] = []
category_edges_to i from t j (consumer ∷ rest) =
    let tail = category_edges_to i from t (suc j) rest in
    if i == j
    then tail
    else if contains (get_or consumer.consumes []) t
    then record { producer_id = from; consumer_id = consumer.category_id; type_id = t } ∷ tail
    else tail

unfoldable pub category_edges_of : List Category → ℕ → String → List String → List Edge
category_edges_of categories i from [] = []
category_edges_of categories i from (t ∷ ts) =
    category_edges_to i from t 0 categories ++ category_edges_of categories i from ts

unfoldable pub category_edges_from : List Category → ℕ → List Category → List Edge
category_edges_from categories i [] = []
category_edges_from categories i (producer ∷ rest) =
    category_edges_of categories i producer.category_id (get_or producer.produces [])
    ++ category_edges_from categories (suc i) rest

unfoldable pub derive_category_edges : FeatureRegistry → List Edge
derive_category_edges registry = category_edges_from registry.categories 0 registry.categories

pub data FlowGap : Type 0 where
  not_described : String → FlowGap
  nothing_produces : String → String → FlowGap
  nothing_consumes : String → String → FlowGap

unfoldable pub gaps_among : (String → FlowGap) → List String → List String → List FlowGap
gaps_among gap supplied [] = []
gaps_among gap supplied (t ∷ ts) =
    let rest = gaps_among gap supplied ts in
    if not (contains supplied t) then gap t ∷ rest else rest

module _ (produced consumed : List String) where
  unfoldable pub category_gaps : Category → List FlowGap
  category_gaps c =
      let name = get_or c.category_name c.category_id in
      if not (is_described c)
      then not_described name ∷ []
      else gaps_among (nothing_produces name) produced (get_or c.consumes [])
        ++ gaps_among (nothing_consumes name) consumed (get_or c.produces [])

  unfoldable pub gaps_of_all : List Category → List FlowGap
  gaps_of_all [] = []
  gaps_of_all (c ∷ cs) = category_gaps c ++ gaps_of_all cs

unfoldable pub find_flow_gaps : FeatureRegistry → List FlowGap
find_flow_gaps registry =
    gaps_of_all (gather (λ (c : Category). c.produces) registry.categories)
      (gather (λ (c : Category). c.consumes) registry.categories) registry.categories

-- The flow of one block closes up.
pub record IsClosed (produced consumed : List String) (c : Category) : Type 0 where
  pub described : is_described c ≡ true
  pub supplied : Each (λ t. contains produced t ≡ true) (get_or c.consumes [])
  pub used : Each (λ t. contains consumed t ≡ true) (get_or c.produces [])

gaps_among-nil :
    (gap : String → FlowGap) (supplied ts : List String)
    → (gaps_among gap supplied ts ≡ []) ↔ Each (λ t. contains supplied t ≡ true) ts
unfolding gaps_among contains
gaps_among-nil gap supplied [] = ((λ e y k. absurd (cc k)), (λ h. refl))
gaps_among-nil gap supplied (t ∷ ts) =
    let rest = gaps_among-nil gap supplied ts in
    (
      λ e.
          Each-cons (λ t. contains supplied t ≡ true) t ts (ground (arith, e))
            (rest.0 (ground (arith, e))),
      λ h. ground (
        arith,
        Each-head (λ t. contains supplied t ≡ true) t ts h,
        rest.1 (Each-tail (λ t. contains supplied t ≡ true) t ts h),
      ),
    )

append-nil_iff : (xs ys : List FlowGap) → (xs ++ ys ≡ []) ↔ ((xs ≡ []) × (ys ≡ []))
append-nil_iff [] ys = ((λ e. (refl, e)), (λ h. h.1))
append-nil_iff (x ∷ xs) ys = ((λ e. absurd (cc e)), (λ h. absurd (cc h.0)))

module _ (produced consumed : List String) where
  category_gaps-nil :
      (c : Category) → (category_gaps produced consumed c ≡ []) ↔ IsClosed produced consumed c
  unfolding category_gaps
  category_gaps-nil c =
      let name = get_or c.category_name c.category_id in
      let ins = gaps_among-nil (nothing_produces name) produced (get_or c.consumes []) in
      let outs = gaps_among-nil (nothing_consumes name) consumed (get_or c.produces []) in
      let both =
        append-nil_iff (gaps_among (nothing_produces name) produced (get_or c.consumes []))
          (gaps_among (nothing_consumes name) consumed (get_or c.produces [])) in
      elim (Bool-cases (is_described c)) [
        | inl spoken ↦ rw spoken (
          (λ e. record {
            described = spoken;
            supplied = ins.0 (both.0 e).0;
            used = outs.0 (both.0 e).1;
          }),
          (λ h. both.1 (ins.1 h.supplied, outs.1 h.used)),
        )
        | inr silent ↦ rw silent ((λ e. absurd (cc e)), (λ h. absurd (cc (h.described, silent))))
      ]

  gaps_of_all-nil :
      (cs : List Category)
      → (gaps_of_all produced consumed cs ≡ []) ↔ All (IsClosed produced consumed) cs
  unfolding gaps_of_all
  gaps_of_all-nil [] = ((λ e. tt), (λ h. refl))
  gaps_of_all-nil (c ∷ cs) =
      let both =
        append-nil_iff (category_gaps produced consumed c) (gaps_of_all produced consumed cs) in
      (
        (λ e. ((category_gaps-nil c).0 (both.0 e).0, (gaps_of_all-nil cs).0 (both.0 e).1)),
        (λ h. both.1 ((category_gaps-nil c).1 h.0, (gaps_of_all-nil cs).1 h.1)),
      )

-- No gap is found exactly if every category is described, everything that a category consumes some
-- category produces, and everything that one produces some category consumes.
pub find_flow_gaps-nil_iff :
    (registry : FeatureRegistry)
    → (find_flow_gaps registry ≡ [])
      ↔ All
          (IsClosed
            (gather (λ (c : Category). c.produces) registry.categories)
            (gather (λ (c : Category). c.consumes) registry.categories))
          registry.categories
unfolding find_flow_gaps
find_flow_gaps-nil_iff registry =
    gaps_of_all-nil (gather (λ (c : Category). c.produces) registry.categories)
      (gather (λ (c : Category). c.consumes) registry.categories) registry.categories
