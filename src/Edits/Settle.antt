-- ===== src/Edits/Settle.antt =====
-- The loop that fills in defaults, on a registry that it wrote itself and that was corrected since.
use ajit_segment_bots.Watch.Recheck.{present}
use mathlib.Core.Path.{subst}
use ajit_segment_bots.Prelude.{
  ◌≡◌, refl, sym, ap, ◌∙◌, arith, false, List, [], ◌∷◌, Option, none, some, String, Result, ok,
  raise, All, length, map, inl, inr, Bool-cases,
}
use ajit_segment_bots.Edits.Kept.{next_id-ok}
use ajit_segment_bots.Contracts.{Feature, get_or}
use ajit_segment_bots.Contracts.Edges.{RegistryError}
use ajit_segment_bots.Edits.Defaults.{
  Triple, Declared, default_for, is_absent, or_default, fill, lacks_some, add_feature,
  apply_defaults, declare_next,
}
use ajit_segment_bots.Edits.Corrections.{
  Correction, overwrite, is_declared, update_at, feature_of, correct_from, holds_in, has_id, ids_of,
}

-- The labels of the classes that the parts fall into.
abbrev pub labels_of : List Feature → List String
labels_of fs = map (λ (f : Feature). (default_for (get_or f.id "")).label) fs

-- A run that changes nothing, and counts no part as touched.
abbrev pub unchanged : List Feature → Declared
unchanged fs = record { features = fs; touched = 0; left_alone = length fs; matched = labels_of fs }

-- A feature with an id and all three facts.
abbrev pub IsComplete : Feature → Type 0
IsComplete f = (is_absent f.id ≡ false) × (lacks_some f ≡ false)

or_default-present : (o : Option String) (d : String) → is_absent o ≡ false → or_default o d ≡ o
or_default-present none d present = cc present
or_default-present (some s) d present = refl

is_absent-or_default : (o : Option String) (d : String) → is_absent (or_default o d) ≡ false
is_absent-or_default none d = refl
is_absent-or_default (some s) d = refl

lacks_some-fill : (t : Triple) (f : Feature) → lacks_some (fill t f) ≡ false
unfolding lacks_some fill
lacks_some-fill t f =
    rw
      (
        is_absent-or_default f.resource_class t.class_text,
        is_absent-or_default f.rate_risk t.risk_text,
        is_absent-or_default f.skipped_tick_effect t.effect_text,
      )
      refl

fill_complete : (t : Triple) (f : Feature) → lacks_some f ≡ false → fill t f ≡ f
unfolding lacks_some fill
fill_complete t f complete =
    let a : is_absent f.resource_class ≡ false = ground arith in
    let b : is_absent f.rate_risk ≡ false = ground arith in
    let c : is_absent f.skipped_tick_effect ≡ false = ground arith in
    rw
      (
        or_default-present f.resource_class t.class_text a,
        or_default-present f.rate_risk t.risk_text b,
        or_default-present f.skipped_tick_effect t.effect_text c,
      )
      refl

add_feature_complete :
    (i : String) (f : Feature) (fs : List Feature)
    → f.id ≡ some i
    → lacks_some f ≡ false
    → add_feature i f (unchanged fs) ≡ unchanged (f ∷ fs)
unfolding add_feature
add_feature_complete i f fs named complete =
    rw (fill_complete (default_for i).triple f complete, complete)
      (ap
        (λ (o : Option String). record {
          features = f ∷ fs;
          touched = 0;
          left_alone = length (f ∷ fs);
          matched = (default_for (get_or o "")).label ∷ labels_of fs;
        })
        (sym named))

given_id : (o : Option String) → is_absent o ≡ false → (i : String) × (o ≡ some i)
given_id none given = cc given
given_id (some i) given = (i, refl)

declare_next-some :
    (f : Feature) (i : String) (o : Option String) (d : Declared)
    (r : Result RegistryError Declared)
    → o ≡ some i
    → r ≡ ok d
    → declare_next o f r ≡ ok (add_feature i f d)
declare_next-some f i o d r given ran = rw (given, ran) refl

apply_defaults_complete :
    (fs : List Feature) → All IsComplete fs → apply_defaults fs ≡ ok (unchanged fs)
unfolding apply_defaults
apply_defaults_complete [] all = refl
apply_defaults_complete (f ∷ fs) ((named, complete), all) =
    let (i, given) = given_id f.id named in
    declare_next-some f i f.id (unchanged fs) (apply_defaults fs) given
      (apply_defaults_complete fs all)
    ∙ ap ok (add_feature_complete i f fs given complete)

-- What a step of the loop is that returns.
returned :
    (f : Feature) (d : Declared) (o : Option String) (r : Result RegistryError Declared)
    → declare_next o f r ≡ ok d
    → (i : String) × (rest : Declared) × (o ≡ some i) × (r ≡ ok rest) × (add_feature i f rest ≡ d)
returned f d none r ran = cc ran
returned f d (some i) (raise e) ran = cc ran
returned f d (some i) (ok rest) ran = (i, rest, refl, refl, cc ran)

IsComplete-fill : (t : Triple) (f : Feature) (i : String) → f.id ≡ some i → IsComplete (fill t f)
unfolding fill
IsComplete-fill t f i given = (rw given refl, lacks_some-fill t f)

-- What the loop returns is complete.
IsComplete-apply_defaults :
    (fs : List Feature) (d : Declared) → apply_defaults fs ≡ ok d → All IsComplete d.features
unfolding apply_defaults add_feature
IsComplete-apply_defaults [] d ran =
    let made : record { features = []; touched = 0; left_alone = 0; matched = [] } ≡ d = cc ran in
    subst (λ (w : Declared). All IsComplete w.features) made tt
IsComplete-apply_defaults (f ∷ fs) d ran =
    let (i, rest, given, before, made) = returned f d f.id (apply_defaults fs) ran in
    subst (λ (w : Declared). All IsComplete w.features) made
      (IsComplete-fill (default_for i).triple f i given, IsComplete-apply_defaults fs rest before)

-- Corrections keep a feature complete.
IsComplete-overwrite : (c : Correction) (f : Feature) → IsComplete f → IsComplete (overwrite c f)
unfolding lacks_some
IsComplete-overwrite c f (named, complete) = (named, ground arith)

IsComplete-update_at :
    (c : Correction) (i : String) (fs : List Feature)
    → All IsComplete fs
    → All IsComplete (update_at (overwrite c) i fs)
unfolding update_at
IsComplete-update_at c i [] all = all
IsComplete-update_at c i (f ∷ fs) (here, all) = elim (Bool-cases (is_declared i fs)) [
  | inl later_on ↦ rw later_on (here, IsComplete-update_at c i fs all)
  | inr last ↦ rw last (elim (Bool-cases (has_id i f)) [
    | inl named ↦ rw named (IsComplete-overwrite c f here, all)
    | inr other ↦ rw other (here, all)
  ])
]

IsComplete-correct_from :
    (cs : List Correction) (fs : List Feature)
    → All IsComplete fs
    → All IsComplete (correct_from cs fs).features
unfolding correct_from
IsComplete-correct_from [] fs all = all
IsComplete-correct_from (c ∷ cs) fs all = elim (Bool-cases (holds_in c (feature_of c.part_id fs))) [
  | inl held ↦ rw held (IsComplete-correct_from cs fs all)
  | inr new ↦ rw new (
      IsComplete-correct_from cs (update_at (overwrite c) c.part_id fs)
        (IsComplete-update_at c c.part_id fs all))
]

apply_defaults-ok :
    (fs : List Feature) (ids : List String)
    → ids_of fs ≡ ok ids
    → (d : Declared) × (apply_defaults fs ≡ ok d)
unfolding apply_defaults ids_of
apply_defaults-ok [] ids listed = (unchanged [], refl)
apply_defaults-ok (f ∷ fs) ids listed =
    let (i, rest, given, before, made) = next_id-ok f.id (ids_of fs) ids listed in
    let (d, ran) = apply_defaults-ok fs rest before in
    (add_feature i f d, declare_next-some f i f.id d (apply_defaults fs) given ran)

-- If every feature has an id, the edit succeeds; and a run over what it wrote, whatever list of
-- corrections has been made since, the empty one included, touches no part, leaves each alone, and
-- writes what it read.
pub apply_defaults_settles :
    (fs : List Feature) (ids : List String) (cs : List Correction)
    → ids_of fs ≡ ok ids
    → (d : Declared) × (apply_defaults fs ≡ ok d)
      × (apply_defaults (correct_from cs d.features).features
          ≡ ok (unchanged (correct_from cs d.features).features))
apply_defaults_settles fs ids cs listed =
    let (d, ran) = apply_defaults-ok fs ids listed in
    (
      d,
      ran,
      apply_defaults_complete (correct_from cs d.features).features
          (IsComplete-correct_from cs d.features (IsComplete-apply_defaults fs d ran)),
    )
