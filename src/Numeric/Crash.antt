-- ===== src/Numeric/Crash.antt =====
-- Opening again after a kill in the middle of opening.
use mathlib.Core.Path.{subst}
use ajit_segment_bots.Prelude.{
  ◌++◌, Bool, List, [], none, ok, refl, some, ◌∙◌, ◌∷◌, ◌≡◌, Option, arith, str_eq_refl, ℕ,
  if◌then◌else◌, is_none,
}
use ajit_segment_bots.Numeric.{
  Disk, Dtypes, Spec, Write, Sidecar, apply, apply_all, declared, open_numeric_state, open_plan,
  expected_data_byte_count, create_data, create_stamp, replace_declaration, write_temporary,
  map_data, map_stamp, unreadable, write_declaration_atomically,
}
use ajit_segment_bots.Numeric.Guard.{shape_eq_refl, length-zeros}

module _ (numpy : Dtypes) (spec : Spec) where
  -- A step that opening from where it leads makes up for.
  Harmless : Disk → Write → Type 0
  Harmless d (write_temporary s) = d.declaration ≡ none
  Harmless d replace_declaration =
      (d.declaration ≡ none) × (d.temporary ≡ some (declared spec.shape spec.dtype))
  Harmless d (create_data n) = (d.content ≡ none) × (n ≡ expected_data_byte_count numpy spec)
  Harmless d create_stamp = d.stamp ≡ none

  AllHarmless : Disk → List Write → Type 0
  unfolding Harmless
  AllHarmless d [] = Unit {0}
  AllHarmless d (w ∷ ws) = Harmless d w × AllHarmless (apply d w) ws

  open_steps :
      (durable : Bool) (c : Option (List ℕ)) (de t : Option Sidecar) (n : Option ℕ) (w : Write)
      → Harmless (record { content = c; declaration = de; temporary = t; stamp = n }) w
      → open_numeric_state numpy spec durable
          (apply (record { content = c; declaration = de; temporary = t; stamp = n }) w)
        ≡ open_numeric_state numpy spec durable
            (record { content = c; declaration = de; temporary = t; stamp = n })
  unfolding Harmless open_numeric_state open_plan
  open_steps durable c none t n (write_temporary s) h = ground arith
  open_steps durable c (some de) t n (write_temporary s) h = absurd (cc h)
  open_steps durable c none (some t) n replace_declaration h =
      ground (arith, h.1, shape_eq_refl spec.shape, str_eq_refl spec.dtype)
  open_steps durable c none none n replace_declaration h = absurd (cc h.1)
  open_steps durable c (some de) t n replace_declaration h = absurd (cc h.0)
  open_steps durable none de t n (create_data k) h =
      ground (arith, h.1, length-zeros (expected_data_byte_count numpy spec))
  open_steps durable (some c) de t n (create_data k) h = absurd (cc h.0)
  open_steps durable c de t none create_stamp h = ground arith
  open_steps durable c de t (some n) create_stamp h = absurd (cc h)

  reopen_step :
      (durable : Bool) (d : Disk) (w : Write)
      → Harmless d w
      → open_numeric_state numpy spec durable (apply d w) ≡ open_numeric_state numpy spec durable d
  reopen_step durable d w h = open_steps durable d.content d.declaration d.temporary d.stamp w h

  -- What an opening that refuses nothing writes.
  steps_for : Option (List ℕ) → Option Sidecar → Option ℕ → List Write
  steps_for c de n =
      (if is_none de then write_declaration_atomically spec else [])
      ++ (map_data numpy spec c ++ map_stamp numpy spec n)

  plan-steps_for :
      (durable : Bool) (c : Option (List ℕ)) (de t : Option Sidecar) (n : Option ℕ)
      {plan : List Write}
      → open_plan numpy spec durable
          (record { content = c; declaration = de; temporary = t; stamp = n })
        ≡ ok plan
      → steps_for c de n ≡ plan
  unfolding steps_for open_plan
  plan-steps_for durable c none t n h = ground arith
  plan-steps_for durable c (some unreadable) t n h = ground arith
  plan-steps_for durable c (some (declared shape dtype)) t n h = ground arith

  steps-AllHarmless :
      (c : Option (List ℕ)) (de t : Option Sidecar) (n : Option ℕ)
      → AllHarmless
          (record { content = c; declaration = de; temporary = t; stamp = n })
          (steps_for c de n)
  unfolding AllHarmless steps_for apply map_data map_stamp write_declaration_atomically
  steps-AllHarmless none none t none = (refl, ((refl, refl), ((refl, refl), (refl, tt))))
  steps-AllHarmless none none t (some n) = (refl, ((refl, refl), ((refl, refl), tt)))
  steps-AllHarmless none (some de) t none = ((refl, refl), (refl, tt))
  steps-AllHarmless none (some de) t (some n) = ((refl, refl), tt)
  steps-AllHarmless (some c) none t none = (refl, ((refl, refl), (refl, tt)))
  steps-AllHarmless (some c) none t (some n) = (refl, ((refl, refl), tt))
  steps-AllHarmless (some c) (some de) t none = (refl, tt)
  steps-AllHarmless (some c) (some de) t (some n) = tt

  plan-AllHarmless :
      (durable : Bool) (d : Disk) {plan : List Write}
      → open_plan numpy spec durable d ≡ ok plan
      → AllHarmless d plan
  plan-AllHarmless durable d {plan} h =
      subst (AllHarmless d)
        (plan-steps_for durable d.content d.declaration d.temporary d.stamp {plan = plan} h)
        (steps-AllHarmless d.content d.declaration d.temporary d.stamp)

  reopen_after :
      (durable : Bool) (d : Disk) (before after : List Write)
      → AllHarmless d (before ++ after)
      → open_numeric_state numpy spec durable (apply_all d before)
        ≡ open_numeric_state numpy spec durable d
  unfolding AllHarmless apply_all
  reopen_after durable d [] after h = refl
  reopen_after durable d (w ∷ ws) after h =
      reopen_after durable (apply d w) ws after h.1 ∙ reopen_step durable d w h.0

  -- If opening a state is killed between any two of its steps, of which the creation of a file at its
  -- size is one, then opening it again ends as the first opening would have, in the same files or the
  -- same error.
  pub open_numeric_state_again :
      (durable : Bool) (d : Disk) (before after : List Write)
      → open_plan numpy spec durable d ≡ ok (before ++ after)
      → open_numeric_state numpy spec durable (apply_all d before)
        ≡ open_numeric_state numpy spec durable d
  open_numeric_state_again durable d before after h =
      reopen_after durable d before after (plan-AllHarmless durable d h)
