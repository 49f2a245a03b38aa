-- ===== src/Board/Named.antt =====
-- The state of a part against the checker's messages, and the spellings of its name.
use mathlib.Core.Path.{subst}
use ajit_segment_bots.Prelude.{
  ◌≡◌, ◌≢◌, ◌↔◌, refl, arith, eq_iff, ap, sym, ◌∙◌, ◌&&◌, ◌||◌, ℕ, ◌==◌, Bool, true, false, List,
  [], ◌∷◌, Option, none, some, String, Text, Result, ok, raise, if◌then◌else◌, All, inl, inr,
  is_some, str_eq, map, Bool-cases, split_on, join_with, cons_first,
}
use ajit_segment_bots.Dict
use ajit_segment_bots.Dict.{Dict, get, put, has_key, get-put}
use ajit_segment_bots.Contracts.{Feature, get_or}
use ajit_segment_bots.Contracts.Edges.{RegistryError}
use ajit_segment_bots.Board.{Rung, Proof, Source, failing, rung_of, probe_part_rung}
use ajit_segment_bots.Board.Monitor.{
  PartState, by_name_from, names_part, set_default, mark_named, mark_all, parts_in_violation,
  rung_with, measure_features, measure_parts, add_state,
}

-- Whether a message names a part with this id, and whether one of several does.
abbrev pub names_id : Text → Dict String → String → Bool
names_id violation [] i = false
names_id violation ((name, part_id) ∷ rest) i =
    (names_part violation name && str_eq part_id i) || names_id violation rest i

abbrev pub is_named : List Text → Dict String → String → Bool
is_named [] by_name i = false
is_named (violation ∷ violations) by_name i =
    names_id violation by_name i || is_named violations by_name i

has_key-set_default :
    (broken : Dict Text) (k : String) (v : Text) (i : String)
    → Dict.has_key (set_default broken k v) i ≡ (Dict.has_key broken i || str_eq k i)
unfolding set_default
has_key-set_default broken k v i = ground (arith, get-put broken k v i, eq_iff k i)

has_key-mark_named :
    (violation : Text) (by_name : Dict String) (broken : Dict Text) (i : String)
    → Dict.has_key (mark_named violation by_name broken) i
      ≡ (Dict.has_key broken i || names_id violation by_name i)
unfolding mark_named
has_key-mark_named violation [] broken i = ground arith
has_key-mark_named violation ((name, part_id) ∷ rest) broken i =
    elim (Bool-cases (names_part violation name)) [
      | inl named ↦ rw named (
          has_key-mark_named violation rest (set_default broken part_id violation) i
          ∙ ground (arith, has_key-set_default broken part_id violation i))
      | inr unnamed ↦ rw unnamed (has_key-mark_named violation rest broken i)
    ]

has_key-mark_all :
    (violations : List Text) (by_name : Dict String) (broken : Dict Text) (i : String)
    → Dict.has_key (mark_all violations by_name broken) i
      ≡ (Dict.has_key broken i || is_named violations by_name i)
unfolding mark_all
has_key-mark_all [] by_name broken i = ground arith
has_key-mark_all (violation ∷ violations) by_name broken i =
    has_key-mark_all violations by_name (mark_named violation by_name broken) i
    ∙ ground (arith, has_key-mark_named violation by_name broken i)

rung_of-failing : (tests impls : List Source) → (rung_of tests impls).0 ≢ failing
unfolding rung_of
rung_of-failing [] [] e = cc e
rung_of-failing (t ∷ tests) [] e = cc e
rung_of-failing [] (p ∷ impls) e = cc e
rung_of-failing (t ∷ tests) (p ∷ impls) e = cc e

probe_part_rung-failing :
    (variants : List Text) (sources : List Source) → (probe_part_rung variants sources).0 ≢ failing
unfolding probe_part_rung
probe_part_rung-failing variants sources = rung_of-failing _ _

rung_with_lem :
    (o : Option Text) (probed : Rung × Proof)
    → probed.0 ≢ failing
    → (rung_with o probed ≡ failing) ↔ (is_some o ≡ true)
unfolding rung_with
rung_with_lem none probed h = ((λ e. absurd (h e)), (λ e. absurd (cc e)))
rung_with_lem (some v) probed h = ((λ _. refl), (λ _. refl))

module _ (variants : String → List Text) (sources : List Source) where
  -- The rungs say FAILING exactly of the parts that stand in a dictionary.
  abbrev IsMarked : Dict Text → PartState → Type 0
  IsMarked broken s = (s.rung ≡ failing) ↔ (Dict.has_key broken s.part_id ≡ true)

  abbrev state_of : Dict Text → Feature → String → PartState
  state_of broken f i = record {
    part_id = i;
    name = get_or f.name i;
    role = get_or f.role "";
    category = get_or f.category "";
    rung = rung_with (Dict.get broken i) (probe_part_rung (variants i) sources);
  }

  add_state-IsMarked :
      (broken : Dict Text) (f : Feature) (o : Option String)
      (rest : Result RegistryError (List PartState)) (states : List PartState)
      → ((following : List PartState) → rest ≡ ok following → All (IsMarked broken) following)
      → add_state variants sources broken f o rest ≡ ok states
      → All (IsMarked broken) states
  unfolding add_state
  add_state-IsMarked broken f none rest states marked h = absurd (cc h)
  add_state-IsMarked broken f (some i) (raise e) states marked h = absurd (cc h)
  add_state-IsMarked broken f (some i) (ok following) states marked h =
      subst (All (IsMarked broken)) {x = state_of broken f i ∷ following} {y = states} (cc h) (
        rung_with_lem (Dict.get broken i) (probe_part_rung (variants i) sources)
            (probe_part_rung-failing (variants i) sources),
        marked following refl,
      )

  measure_features-IsMarked :
      (broken : Dict Text) (features : List Feature) (states : List PartState)
      → measure_features variants sources broken features ≡ ok states
      → All (IsMarked broken) states
  unfolding measure_features
  measure_features-IsMarked broken [] states h =
      let same : [] ≡ states = cc h in subst (All (IsMarked broken)) same tt
  measure_features-IsMarked broken (f ∷ fs) states h =
      add_state-IsMarked broken f f.id (measure_features variants sources broken fs) states
        (measure_features-IsMarked broken fs) h

  -- A part's state is FAILING exactly if a message names it.
  abbrev pub IsHonest : List Text → Dict String → PartState → Type 0
  IsHonest violations by_name s =
      (s.rung ≡ failing) ↔ (is_named violations by_name s.part_id ≡ true)

  IsMarked-IsHonest :
      (violations : List Text) (by_name : Dict String) (states : List PartState)
      → All (IsMarked (mark_all violations by_name [])) states
      → All (IsHonest violations by_name) states
  unfolding get
  IsMarked-IsHonest violations by_name [] h = tt
  IsMarked-IsHonest violations by_name (s ∷ states) h =
      let same = has_key-mark_all violations by_name [] s.part_id in
      (
        ((λ e. sym same ∙ h.0.0 e), (λ e. h.0.1 (same ∙ e))),
        IsMarked-IsHonest violations by_name states h.1,
      )

  -- If the parts are measured, with the names that the features give to ids, then each part is FAILING
  -- exactly if one of the checker's messages begins with its tag and a name of the part: no file on
  -- disk lifts it from there, and no file puts it there.
  pub measure_parts-IsHonest :
      (features : List Feature) (violations : List Text) (by_name : Dict String)
      (states : List PartState)
      → by_name_from [] features ≡ ok by_name
      → measure_parts variants sources features violations ≡ ok states
      → All (IsHonest violations by_name) states
  unfolding measure_parts parts_in_violation
  measure_parts-IsHonest features violations by_name states names h =
      IsMarked-IsHonest violations by_name states (
        measure_features-IsMarked (mark_all violations by_name []) features states
          (ground (arith, h, names)))

split_on-nonempty : (sep : ℕ) (s : Text) → split_on sep s ≢ []
unfolding split_on
split_on-nonempty sep [] e = cc e
split_on-nonempty sep (c ∷ s) e = elim (Bool-cases (c == sep)) [
  | inl is ↦ cc (rw is at e)
  | inr is_not ↦ cons_first-nonempty c (split_on sep s) (rw is_not at e)
]
  where
    cons_first-nonempty : (c : ℕ) (ws : List Text) → cons_first c ws ≢ []
    cons_first-nonempty c [] e = cc e
    cons_first-nonempty c (w ∷ ws) e = cc e

join_with-nil :
    (new : ℕ) (ws : List Text) → ws ≢ [] → join_with new ([] ∷ ws) ≡ new ∷ join_with new ws
unfolding join_with
join_with-nil new [] h = absurd (h refl)
join_with-nil new (w ∷ ws) h = refl

join_with-cons_first :
    (new c : ℕ) (ws : List Text) → ws ≢ [] → join_with new (cons_first c ws) ≡ c ∷ join_with new ws
unfolding join_with
join_with-cons_first new c [] h = absurd (h refl)
join_with-cons_first new c (w ∷ []) h = refl
join_with-cons_first new c (w ∷ v ∷ ws) h = refl

-- Splitting at a character and joining with another writes the other in place of each.
pub join_with-split_on :
    (sep new : ℕ) (s : Text)
    → join_with new (split_on sep s) ≡ map (λ c. if c == sep then new else c) s
unfolding split_on join_with
join_with-split_on sep new [] = refl
join_with-split_on sep new (c ∷ s) =
    let rest = join_with-split_on sep new s in
    let some_word = split_on-nonempty sep s in
    elim (Bool-cases (c == sep)) [
      | inl is ↦ rw is (join_with-nil new (split_on sep s) some_word ∙ ap (◌∷◌ new) rest)
      | inr is_not ↦
          rw is_not (join_with-cons_first new c (split_on sep s) some_word ∙ ap (◌∷◌ c) rest)
    ]
