-- ===== src/Edits/Kept.antt =====
-- What the corrections do to the parts they name, and a second run of them.
use mathlib.Core.Path.{subst}
use ajit_segment_bots.Prelude.{
  ◌≡◌, refl, ap, ◌∙◌, arith, true, false, List, [], ◌∷◌, Option, none, some, String, Result, ok,
  raise, All, inl, inr, Bool-cases, contains, str_eq, keep_if, not, eq_iff, str_eq_refl,
}
use ajit_segment_bots.Contracts.{Feature, equal_option}
use ajit_segment_bots.Edits.Corrections.{
  Correction, Corrected, EditError, corrections, part_ids, overwrite, holds, holds_in, has_id,
  is_declared, update_at, feature_of, correct_from, next_id, ids_of, missing_ids, apply_corrections,
}

has_id-overwrite :
    (c : Correction) (j : String) (f : Feature) → has_id j (overwrite c f) ≡ has_id j f
has_id-overwrite c j f = refl

is_declared-update_at :
    (c : Correction) (i j : String) (fs : List Feature)
    → is_declared j (update_at (overwrite c) i fs) ≡ is_declared j fs
unfolding is_declared update_at
is_declared-update_at c i j [] = refl
is_declared-update_at c i j (f ∷ fs) = elim (Bool-cases (is_declared i fs)) [
  | inl later_on ↦ rw (later_on, is_declared-update_at c i j fs) refl
  | inr last ↦
      rw last
        (elim (Bool-cases (has_id i f)) [ inl named ↦ rw named refl | inr other ↦ rw other refl ])
]

-- The part that a correction names is as the correction says.
holds-overwrite : (c : Correction) (f : Feature) → holds c (overwrite c f) ≡ true
holds-overwrite c f = rw (str_eq_refl c.rate_risk, str_eq_refl c.skipped_tick_effect) refl

holds_in-update_at :
    (c : Correction) (i : String) (fs : List Feature)
    → is_declared i fs ≡ true
    → holds_in c (feature_of i (update_at (overwrite c) i fs)) ≡ true
unfolding is_declared update_at feature_of
holds_in-update_at c i [] known = cc known
holds_in-update_at c i (f ∷ fs) known = elim (Bool-cases (is_declared i fs)) [
  | inl later_on ↦
      rw (later_on, is_declared-update_at c i i fs, later_on) (holds_in-update_at c i fs later_on)
  | inr last ↦
      let named : has_id i f ≡ true = ground arith in
      rw (last, named, last, named) (holds-overwrite c f)
]

-- A part of another id is as it was.
equal_option-apart :
    (o : Option String) (i j : String)
    → equal_option o (some i) ≡ true
    → str_eq i j ≡ false
    → equal_option o (some j) ≡ false
equal_option-apart none i j named apart = refl
equal_option-apart (some k) i j named apart = rw ((eq_iff k i).0 named) apart

feature_of-update_at :
    (c : Correction) (i j : String) (fs : List Feature)
    → str_eq i j ≡ false
    → feature_of j (update_at (overwrite c) i fs) ≡ feature_of j fs
unfolding update_at feature_of
feature_of-update_at c i j [] apart = refl
feature_of-update_at c i j (f ∷ fs) apart = elim (Bool-cases (is_declared i fs)) [
  | inl later_on ↦
      rw (later_on, is_declared-update_at c i j fs, feature_of-update_at c i j fs apart) refl
  | inr last ↦ rw last (elim (Bool-cases (has_id i f)) [
    | inl named ↦ rw (named, equal_option-apart f.id i j named apart) refl
    | inr other ↦ rw other refl
  ])
]

-- The corrections after the first one's are of other parts.
abbrev AreApart : List Correction → Type 0
AreApart [] = Unit
AreApart (c ∷ cs) = (contains (part_ids cs) c.part_id ≡ false) × AreApart cs

feature_of-correct_from :
    (cs : List Correction) (j : String) (fs : List Feature)
    → contains (part_ids cs) j ≡ false
    → feature_of j (correct_from cs fs).features ≡ feature_of j fs
unfolding correct_from contains
feature_of-correct_from [] j fs apart = refl
feature_of-correct_from (c ∷ cs) j fs apart =
    let other : str_eq c.part_id j ≡ false = ground arith in
    let others : contains (part_ids cs) j ≡ false = ground arith in
    elim (Bool-cases (holds_in c (feature_of c.part_id fs))) [
      | inl held ↦ rw held (feature_of-correct_from cs j fs others)
      | inr new ↦ rw new (
          feature_of-correct_from cs j (update_at (overwrite c) c.part_id fs) others
          ∙ feature_of-update_at c c.part_id j fs other)
    ]

abbrev pub HoldsIn : List Feature → Correction → Type 0
HoldsIn fs c = holds_in c (feature_of c.part_id fs) ≡ true

abbrev IsDeclaredIn : List Feature → Correction → Type 0
IsDeclaredIn fs c = is_declared c.part_id fs ≡ true

IsDeclaredIn-update_at :
    (c : Correction) (i : String) (cs : List Correction) (fs : List Feature)
    → All (IsDeclaredIn fs) cs
    → All (IsDeclaredIn (update_at (overwrite c) i fs)) cs
IsDeclaredIn-update_at c i [] fs all = all
IsDeclaredIn-update_at c i (k ∷ cs) fs (here, all) =
    (is_declared-update_at c i k.part_id fs ∙ here, IsDeclaredIn-update_at c i cs fs all)

correct_from-held :
    (c : Correction) (cs : List Correction) (fs : List Feature)
    → HoldsIn fs c
    → (correct_from cs fs).features ≡ (correct_from (c ∷ cs) fs).features
unfolding correct_from
correct_from-held c cs fs held = rw held refl

correct_from-new :
    (c : Correction) (cs : List Correction) (fs : List Feature)
    → holds_in c (feature_of c.part_id fs) ≡ false
    → (correct_from cs (update_at (overwrite c) c.part_id fs)).features
      ≡ (correct_from (c ∷ cs) fs).features
unfolding correct_from
correct_from-new c cs fs new = rw new refl

correct_from-HoldsIn :
    (cs : List Correction) (fs : List Feature)
    → AreApart cs
    → All (IsDeclaredIn fs) cs
    → All (HoldsIn (correct_from cs fs).features) cs
correct_from-HoldsIn [] fs apart all = tt
correct_from-HoldsIn (c ∷ cs) fs (other, apart) (here, all) =
    let revised = update_at (overwrite c) c.part_id fs in
    elim (Bool-cases (holds_in c (feature_of c.part_id fs))) [
      | inl held ↦
          subst (λ (w : List Feature). All (HoldsIn w) (c ∷ cs)) (correct_from-held c cs fs held)
            (
              ap (holds_in c) (feature_of-correct_from cs c.part_id fs other) ∙ held,
              correct_from-HoldsIn cs fs apart all,
            )
      | inr new ↦
          subst (λ (w : List Feature). All (HoldsIn w) (c ∷ cs)) (correct_from-new c cs fs new)
            (
              ap (holds_in c) (feature_of-correct_from cs c.part_id revised other)
                  ∙ holds_in-update_at c c.part_id fs here,
              correct_from-HoldsIn cs revised apart (IsDeclaredIn-update_at c c.part_id cs fs all),
            )
    ]

-- A second run.
abbrev pub kept_as_is : List Correction → List Feature → Corrected
kept_as_is cs fs = record { features = fs; changed = []; left_alone = part_ids cs }

correct_from-again :
    (cs : List Correction) (fs : List Feature)
    → All (HoldsIn fs) cs
    → correct_from cs fs ≡ kept_as_is cs fs
unfolding correct_from
correct_from-again [] fs all = refl
correct_from-again (c ∷ cs) fs (held, all) = rw (held, correct_from-again cs fs all) refl

-- The ids that are read, and what is missing from them.
ids_of-update_at :
    (c : Correction) (i : String) (fs : List Feature)
    → ids_of (update_at (overwrite c) i fs) ≡ ids_of fs
unfolding ids_of update_at
ids_of-update_at c i [] = refl
ids_of-update_at c i (f ∷ fs) = elim (Bool-cases (is_declared i fs)) [
  | inl later_on ↦ rw later_on (ap (next_id f.id) (ids_of-update_at c i fs))
  | inr last ↦
      rw last
        (elim (Bool-cases (has_id i f)) [ inl named ↦ rw named refl | inr other ↦ rw other refl ])
]

ids_of-correct_from :
    (cs : List Correction) (fs : List Feature) → ids_of (correct_from cs fs).features ≡ ids_of fs
unfolding correct_from
ids_of-correct_from [] fs = refl
ids_of-correct_from (c ∷ cs) fs = elim (Bool-cases (holds_in c (feature_of c.part_id fs))) [
  | inl held ↦ rw held (ids_of-correct_from cs fs)
  | inr new ↦ rw new (
      ids_of-correct_from cs (update_at (overwrite c) c.part_id fs)
      ∙ ids_of-update_at c c.part_id fs)
]

pub next_id-ok :
    (o : Option String) (r : Result EditError (List String)) (ids : List String)
    → next_id o r ≡ ok ids
    → (i : String) × (rest : List String) × (o ≡ some i) × (r ≡ ok rest) × ((i ∷ rest) ≡ ids)
next_id-ok none r ids listed = cc listed
next_id-ok (some i) (raise e) ids listed = cc listed
next_id-ok (some i) (ok rest) ids listed = (i, rest, refl, refl, cc listed)

has_id-some : (i k : String) (f : Feature) → f.id ≡ some k → has_id i f ≡ str_eq k i
has_id-some i k f given = rw given refl

is_declared-ids_of :
    (i : String) (fs : List Feature) (ids : List String)
    → ids_of fs ≡ ok ids
    → is_declared i fs ≡ contains ids i
unfolding ids_of is_declared contains
is_declared-ids_of i [] ids listed =
    let made : [] ≡ ids = cc listed in ap (λ (w : List String). contains w i) made
is_declared-ids_of i (f ∷ fs) ids listed =
    let (k, rest, given, before, made) = next_id-ok f.id (ids_of fs) ids listed in
    ground (arith, has_id-some i k f given, is_declared-ids_of i fs rest before)
    ∙ ap (λ (w : List String). contains w i) made

-- The parts are declared that no id is missing of.
contains-IsDeclaredIn :
    (cs : List Correction) (fs : List Feature) (ids : List String)
    → ids_of fs ≡ ok ids
    → All (λ (c : Correction). contains ids c.part_id ≡ true) cs
    → All (IsDeclaredIn fs) cs
contains-IsDeclaredIn [] fs ids listed all = tt
contains-IsDeclaredIn (c ∷ cs) fs ids listed (here, all) =
    (is_declared-ids_of c.part_id fs ids listed ∙ here, contains-IsDeclaredIn cs fs ids listed all)

keep_if-none :
    (cs : List Correction) (ids : List String)
    → All (λ (c : Correction). contains ids c.part_id ≡ true) cs
    → keep_if (λ (i : String). not (contains ids i)) (part_ids cs) ≡ []
unfolding keep_if
keep_if-none [] ids all = refl
keep_if-none (c ∷ cs) ids (here, all) = rw here (keep_if-none cs ids all)

apply_corrections-correct_from :
    (fs : List Feature) (ids : List String)
    → ids_of fs ≡ ok ids
    → All (λ (c : Correction). contains ids c.part_id ≡ true) corrections
    → apply_corrections fs ≡ ok (correct_from corrections fs)
unfolding apply_corrections missing_ids
apply_corrections-correct_from fs ids listed all =
    rw (listed, keep_if-none corrections ids all) refl

corrections-AreApart : AreApart corrections
unfolding contains
corrections-AreApart = (refl, (refl, (refl, tt)))

-- If every feature has an id and the three parts are among them, the edit succeeds: afterwards each of
-- the three carries its corrected facts, any other part is as it was, and a second run changes
-- nothing and leaves all three alone.
pub apply_corrections_lem :
    (fs : List Feature) (ids : List String) (j : String)
    → ids_of fs ≡ ok ids
    → All (λ (c : Correction). contains ids c.part_id ≡ true) corrections
    → contains (part_ids corrections) j ≡ false
    → (d : Corrected) × (apply_corrections fs ≡ ok d)
      × All (HoldsIn d.features) corrections
      × (feature_of j d.features ≡ feature_of j fs)
      × (apply_corrections d.features ≡ ok (kept_as_is corrections d.features))
apply_corrections_lem fs ids j listed all other =
    let d = correct_from corrections fs in
    let held =
      correct_from-HoldsIn corrections fs corrections-AreApart
        (contains-IsDeclaredIn corrections fs ids listed all) in
    (
      d,
      apply_corrections-correct_from fs ids listed all,
      held,
      feature_of-correct_from corrections j fs other,
      apply_corrections-correct_from d.features ids (ids_of-correct_from corrections fs ∙ listed)
            all
          ∙ ap ok (correct_from-again corrections d.features held),
    )
