-- ===== src/Watch/Retold.antt =====
-- Calls of `on_change` that returned, as a log has them, and what they say of each field; and what is
-- remembered as delivered of a path against the calls that a log has gained.
use mathlib.Core.List.{append_assoc}
use ajit_segment_bots.Prelude.{String, ◌≡◌, sym, ap, ◌∙◌, true, false, ◌⊎◌, inl, inr, [], ◌∷◌, ◌++◌}
use ajit_segment_bots.Dict
use ajit_segment_bots.Dict.{get, Dict}
use ajit_segment_bots.Watch.{Watch, Log, on_change, on_rejection, on_overflow}
use ajit_segment_bots.Watch.Diff.{patched}
use ajit_segment_bots.Watch.Settled.{told}

-- Some of the calls of `on_change` that returned, in their order, take what one function says of each
-- field to what the other says. The last call stands earlier_one.
abbrev pub Retold : Log → (String → String) → (String → String) → Type 0
Retold [] f g = (name : String) → f name ≡ g name
Retold ((on_change changes, true) ∷ calls) f g =
    Retold calls f g
    ⊎ ((h : String → String) × Retold calls f h
        × ((name : String) → patched changes name (h name) ≡ g name))
Retold ((on_change changes, false) ∷ calls) f g = Retold calls f g
Retold ((on_rejection rejection, good) ∷ calls) f g = Retold calls f g
Retold ((on_overflow, good) ∷ calls) f g = Retold calls f g

Retold-same :
    (calls : Log) (f g k : String → String)
    → Retold calls f g
    → ((name : String) → g name ≡ k name)
    → Retold calls f k
Retold-same [] f g k heard same = λ name. heard name ∙ same name
Retold-same ((on_change changes, true) ∷ calls) f g k (inl heard) same =
    inl (Retold-same calls f g k heard same)
Retold-same ((on_change changes, true) ∷ calls) f g k (inr (h, heard, patches)) same =
    inr (h, heard, λ name. patches name ∙ same name)
Retold-same ((on_change changes, false) ∷ calls) f g k heard same =
    Retold-same calls f g k heard same
Retold-same ((on_rejection rejection, good) ∷ calls) f g k heard same =
    Retold-same calls f g k heard same
Retold-same ((on_overflow, good) ∷ calls) f g k heard same = Retold-same calls f g k heard same

pub Retold-skip :
    (calls : Log) (f g : String → String) → ((name : String) → f name ≡ g name) → Retold calls f g
Retold-skip [] f g same = same
Retold-skip ((on_change changes, true) ∷ calls) f g same = inl (Retold-skip calls f g same)
Retold-skip ((on_change changes, false) ∷ calls) f g same = Retold-skip calls f g same
Retold-skip ((on_rejection rejection, good) ∷ calls) f g same = Retold-skip calls f g same
Retold-skip ((on_overflow, good) ∷ calls) f g same = Retold-skip calls f g same

Retold-append :
    (more calls : Log) (f g k : String → String)
    → Retold calls f g
    → Retold more g k
    → Retold (more ++ calls) f k
Retold-append [] calls f g k earlier_one later_one = Retold-same calls f g k earlier_one later_one
Retold-append ((on_change changes, true) ∷ more) calls f g k earlier_one (inl later_one) =
    inl (Retold-append more calls f g k earlier_one later_one)
Retold-append ((on_change changes, true) ∷ more) calls f g k earlier_one
      (inr (h, later_one, patches)) =
    inr (h, Retold-append more calls f g h earlier_one later_one, patches)
Retold-append ((on_change changes, false) ∷ more) calls f g k earlier_one later_one =
    Retold-append more calls f g k earlier_one later_one
Retold-append ((on_rejection rejection, good) ∷ more) calls f g k earlier_one later_one =
    Retold-append more calls f g k earlier_one later_one
Retold-append ((on_overflow, good) ∷ more) calls f g k earlier_one later_one =
    Retold-append more calls f g k earlier_one later_one

abbrev pub told_of : String → Watch → String → String
told_of p w name = told (Dict.get w.last_delivered p) name

-- The calls that the log has gained take what was remembered of a path to what is remembered.
abbrev pub Heard : String → Watch → Watch → Type 0
Heard p w v = (calls : Log) × (v.log ≡ calls ++ w.log) × Retold calls (told_of p w) (told_of p v)

pub Heard-trans : (p : String) (w v u : Watch) → Heard p w v → Heard p v u → Heard p w u
Heard-trans p w v u (earlier_one, grown, heard) (later_one, grown_again, heard_again) = (
  later_one ++ earlier_one,
  grown_again ∙ ap (◌++◌ later_one) grown ∙ sym (append_assoc later_one earlier_one w.log),
  Retold-append later_one earlier_one (told_of p w) (told_of p v) (told_of p u) heard heard_again,
)

-- The log is longer, and nothing of this path changed.
pub Heard-skip :
    (p : String) (w v : Watch) (calls : Log)
    → v.log ≡ calls ++ w.log
    → Dict.get v.last_delivered p ≡ Dict.get w.last_delivered p
    → Heard p w v
Heard-skip p w v calls grown same = (
  calls,
  grown,
  Retold-skip calls (told_of p w) (told_of p v) (λ name. ap (λ o. told o name) (sym same)),
)
