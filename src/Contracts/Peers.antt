-- ===== src/Contracts/Peers.antt =====
-- The rule on peer blocks, stated by the declarations that it reads: the last feature and the last
-- category of an id.
use ajit_segment_bots.Prelude.{
  ◌≡◌, ◌≢◌, ◌↔◌, ◌⊎◌, refl, ap, arith, inl, inr, eq_iff, true, false, Bool-cases, Option, none,
  some, List, [], ◌∷◌, String, All, map, ◌&&◌, Bool, contains, not, str_eq, str_eq_ne, str_eq_refl,
  sym, ◌∙◌,
}
use ajit_segment_bots.Contracts.{Feature, Category, FeatureRegistry, equal_option}
use ajit_segment_bots.Contracts.Edges.{Edge, is_health}
use ajit_segment_bots.Contracts.Rules.{is_feature}
use ajit_segment_bots.Contracts.Check.{category_of, crosses_peers, is_truthy, peer_group_of}

-- The last feature of this id is of this category.
abbrev pub HasCategory : List Feature → String → String → Type 0
HasCategory [] part_id category = ⊥
HasCategory (f ∷ fs) part_id category =
    HasCategory fs part_id category
    ⊎ (All (λ (g : Feature). g.id ≢ some part_id) fs
        × (f.id ≡ some part_id)
        × (f.category ≡ some category))

-- The last category of this id is in this peer group.
abbrev pub HasGroup : List Category → String → String → Type 0
HasGroup [] category group = ⊥
HasGroup (c ∷ cs) category group =
    HasGroup cs category group
    ⊎ (All (λ (d : Category). d.category_id ≢ category) cs
        × (c.category_id ≡ category)
        × (c.peer_group ≡ some group))

-- An edge that does not carry health and goes from one block to another block of the same peer group.
abbrev pub JoinsPeers : FeatureRegistry → Edge → Type 0
JoinsPeers registry e =
    (e.type_id ≢ "part-health")
    × ((from to group : String) × HasCategory registry.features e.producer_id from
        × HasCategory registry.features e.consumer_id to
        × (from ≢ to)
        × (group ≢ "")
        × HasGroup registry.categories from group
        × HasGroup registry.categories to group)

equal_option_iff :
    (o : Option String) (k : String) → (equal_option o (some k) ≡ true) ↔ (o ≡ some k)
equal_option_iff none k = ((λ e. cc e), (λ e. cc e))
equal_option_iff (some a) k =
    ((λ e. ap some ((eq_iff a k).0 e)), (λ e. let same : a ≡ k = cc e in (eq_iff a k).1 same))

unseen :
    (fs : List Feature) (k : String)
    → (is_feature (map (λ (f : Feature). f.id) fs) k ≡ false)
      ↔ All (λ (f : Feature). f.id ≢ some k) fs
unfolding is_feature
unseen [] k = ((λ e. tt), (λ u. refl))
unseen (f ∷ fs) k = (
  (λ e. (
    (λ same. ground (arith, e, (equal_option_iff f.id k).1 same)),
    (unseen fs k).0 (ground (arith, e)),
  )),
  (λ all. elim (Bool-cases (equal_option f.id (some k))) [
    | inl same ↦ absurd (all.0 ((equal_option_iff f.id k).0 same))
    | inr other ↦ ground (arith, other, (unseen fs k).1 all.1)
  ]),
)

HasCategory-seen :
    (fs : List Feature) (k a : String)
    → HasCategory fs k a
    → is_feature (map (λ (f : Feature). f.id) fs) k ≡ true
unfolding is_feature
HasCategory-seen [] k a never = absurd never
HasCategory-seen (f ∷ fs) k a (inl later_on) = ground (arith, HasCategory-seen fs k a later_on)
HasCategory-seen (f ∷ fs) k a (inr (unseen_after, named, of)) =
    ground (arith, (equal_option_iff f.id k).1 named)

category_of_iff :
    (fs : List Feature) (k a : String) → (category_of fs k ≡ some a) ↔ HasCategory fs k a
unfolding category_of
category_of_iff [] k a = ((λ e. cc e), (λ never. absurd never))
category_of_iff (f ∷ fs) k a = (
  (λ e. elim (Bool-cases (is_feature (map (λ (g : Feature). g.id) fs) k)) [
    | inl seen ↦ inl ((category_of_iff fs k a).0 (rw seen at e))
    | inr last ↦ elim (Bool-cases (equal_option f.id (some k))) [
      | inl named ↦
          inr ((unseen fs k).0 last, (equal_option_iff f.id k).0 named, rw (last, named) at e)
      | inr other ↦ absurd (cc (rw (last, other) at e))
    ]
  ]),
  (λ h. elim h [
    | inl later_on ↦ rw (HasCategory-seen fs k a later_on) ((category_of_iff fs k a).1 later_on)
    | inr (unseen_after, named, of) ↦
        ground (arith, (unseen fs k).1 unseen_after, (equal_option_iff f.id k).1 named, of)
  ]),
)

unlisted :
    (cs : List Category) (k : String)
    → (contains (map (λ (c : Category). c.category_id) cs) k ≡ false)
      ↔ All (λ (c : Category). c.category_id ≢ k) cs
unfolding contains
unlisted [] k = ((λ e. tt), (λ u. refl))
unlisted (c ∷ cs) k = (
  (λ e. (
    (λ same. ground (arith, e, (eq_iff c.category_id k).1 same)),
    (unlisted cs k).0 (ground (arith, e)),
  )),
  (λ all. elim (Bool-cases (str_eq c.category_id k)) [
    | inl same ↦ absurd (all.0 ((eq_iff c.category_id k).0 same))
    | inr other ↦ ground (arith, other, (unlisted cs k).1 all.1)
  ]),
)

HasGroup-listed :
    (cs : List Category) (k g : String)
    → HasGroup cs k g
    → contains (map (λ (c : Category). c.category_id) cs) k ≡ true
unfolding contains
HasGroup-listed [] k g never = absurd never
HasGroup-listed (c ∷ cs) k g (inl later_on) = ground (arith, HasGroup-listed cs k g later_on)
HasGroup-listed (c ∷ cs) k g (inr (unlisted_after, named, of)) =
    ground (arith, (eq_iff c.category_id k).1 named)

peer_group_of_iff :
    (cs : List Category) (k g : String) → (peer_group_of cs (some k) ≡ some g) ↔ HasGroup cs k g
unfolding peer_group_of
peer_group_of_iff [] k g = ((λ e. cc e), (λ never. absurd never))
peer_group_of_iff (c ∷ cs) k g = (
  (λ e. elim (Bool-cases (contains (map (λ (d : Category). d.category_id) cs) k)) [
    | inl seen ↦ inl ((peer_group_of_iff cs k g).0 (rw seen at e))
    | inr last ↦ elim (Bool-cases (str_eq c.category_id k)) [
      | inl named ↦
          inr ((unlisted cs k).0 last, (eq_iff c.category_id k).0 named, rw (last, named) at e)
      | inr other ↦ absurd (cc (rw (last, other) at e))
    ]
  ]),
  (λ h. elim h [
    | inl later_on ↦ rw (HasGroup-listed cs k g later_on) ((peer_group_of_iff cs k g).1 later_on)
    | inr (unlisted_after, named, of) ↦
        ground (arith, (unlisted cs k).1 unlisted_after, (eq_iff c.category_id k).1 named, of)
  ]),
)

peer_group_of-none : (cs : List Category) → peer_group_of cs none ≡ none
unfolding peer_group_of
peer_group_of-none [] = refl
peer_group_of-none (c ∷ cs) = refl

-- The test of the checker, on what it looked up.
crosses : Bool → Option String → Option String → Option String → Option String → Bool
crosses carries_health from to group group' =
    not carries_health
    && (not (equal_option from to) && (is_truthy group && equal_option group group'))

is_truthy_iff : (g : String) → (is_truthy (some g) ≡ true) ↔ (g ≢ "")
is_truthy_iff g =
    ((λ t same. ground (arith, t, (eq_iff g "").1 same)), (λ apart. rw (str_eq_ne g "" apart) refl))

module _ (registry : FeatureRegistry) (e : Edge) where
  joins_peers :
      (from to : Option String)
      → category_of registry.features e.producer_id ≡ from
      → category_of registry.features e.consumer_id ≡ to
      → (group group' : Option String) → peer_group_of registry.categories from ≡ group
      → peer_group_of registry.categories to ≡ group'
      → crosses (is_health e) from to group group' ≡ true
      → JoinsPeers registry e
  unfolding crosses
  joins_peers none to p c group group' pg cg h =
      let absent : group ≡ none = sym pg ∙ peer_group_of-none registry.categories in
      absurd (ground (arith, h, absent))
  joins_peers (some from) none p c group group' pg cg h =
      let absent : group' ≡ none = sym cg ∙ peer_group_of-none registry.categories in
      absurd (ground (arith, h, absent))
  joins_peers (some from) (some to) p c none group' pg cg h = absurd (ground (arith, h))
  joins_peers (some from) (some to) p c (some group) none pg cg h = absurd (ground (arith, h))
  joins_peers (some from) (some to) p c (some group) (some group') pg cg h =
      let same : group ≡ group' = ground (arith, h, eq_iff group group') in
      (
        (λ health. ground (arith, h, (eq_iff e.type_id "part-health").1 health)),
        (
          from,
          to,
          group,
          (category_of_iff registry.features e.producer_id from).0 p,
          (category_of_iff registry.features e.consumer_id to).0 c,
          (λ one. ground (arith, h, (eq_iff from to).1 one)),
          (is_truthy_iff group).0 (ground (arith, h)),
          (peer_group_of_iff registry.categories from group).0 pg,
          (peer_group_of_iff registry.categories to group).0 (cg ∙ ap some (sym same)),
        ),
      )

  -- The checker's test is the rule.
  pub crosses_peers_iff : (crosses_peers registry e ≡ true) ↔ JoinsPeers registry e
  unfolding crosses_peers crosses
  crosses_peers_iff = (
    (λ h.
        joins_peers (category_of registry.features e.producer_id)
          (category_of registry.features e.consumer_id) refl refl
          (peer_group_of registry.categories (category_of registry.features e.producer_id))
          (peer_group_of registry.categories (category_of registry.features e.consumer_id)) refl
          refl h),
    (λ (carries, (from, to, group, has_from, has_to, apart, named, from_group, to_group)).
        rw
          (
            (category_of_iff registry.features e.producer_id from).1 has_from,
            (category_of_iff registry.features e.consumer_id to).1 has_to,
            (peer_group_of_iff registry.categories from group).1 from_group,
            (peer_group_of_iff registry.categories to group).1 to_group,
            str_eq_ne e.type_id "part-health" carries,
            str_eq_ne from to apart,
            (is_truthy_iff group).1 named,
            str_eq_refl group,
          )
          refl),
  )

  pub crosses_peers-Apart : (crosses_peers registry e ≡ false) ↔ ¬ JoinsPeers registry e
  crosses_peers-Apart = (
    (λ h joins. cc (h, crosses_peers_iff.1 joins)),
    (λ apart. elim (Bool-cases (crosses_peers registry e)) [
      | inl crosses_them ↦ absurd (apart (crosses_peers_iff.0 crosses_them))
      | inr none_crossed ↦ none_crossed
    ]),
  )

pub none_joins :
    (registry : FeatureRegistry) (es : List Edge)
    → All (λ e. crosses_peers registry e ≡ false) es ↔ All (λ e. ¬ JoinsPeers registry e) es
none_joins registry [] = ((λ all. all), (λ all. all))
none_joins registry (e ∷ es) = (
  (λ all. ((crosses_peers-Apart registry e).0 all.0, (none_joins registry es).0 all.1)),
  (λ all. ((crosses_peers-Apart registry e).1 all.0, (none_joins registry es).1 all.1)),
)
