-- ===== src/Launcher/Caps.antt =====
-- What the thread caps leave in the environment.
use ajit_segment_bots.Prelude.{
  List, Option, Option-cases, String, [], arith, contains, eq_iff, if◌then◌else◌, is_none, none,
  refl, some, ◌∷◌, ◌≡◌,
}
use ajit_segment_bots.Dict
use ajit_segment_bots.Dict.{Dict, get, put, get-put}
use ajit_segment_bots.Launcher.{
  apply_caps, apply_blas_thread_caps, blas_thread_cap_variables, value_or_single,
}

-- What a variable is after the caps.
abbrev pub capped : List String → Dict String → String → Option String
capped names environment name =
    if contains names name
    then some (value_or_single (Dict.get environment name))
    else Dict.get environment name

apply_caps-target :
    (names : List String) (target applied : Dict String) (name : String)
    → Dict.get (apply_caps names target applied).0 name ≡ capped names target name
unfolding apply_caps contains
apply_caps-target [] target applied name = refl
apply_caps-target (n ∷ names) target applied name = ground (
  arith,
  apply_caps-target names (if is_none (Dict.get target n) then Dict.put target n "1" else target)
      (Dict.put applied n (value_or_single (Dict.get target n))) name,
  get-put target n "1" name,
  eq_iff n name,
  Option-cases (Dict.get target n),
)

apply_caps-applied :
    (names : List String) (target applied : Dict String) (name : String)
    → Dict.get (apply_caps names target applied).1 name ≡ (
        if contains names name
        then some (value_or_single (Dict.get target name))
        else Dict.get applied name)
unfolding apply_caps contains
apply_caps-applied [] target applied name = refl
apply_caps-applied (n ∷ names) target applied name = ground (
  arith,
  apply_caps-applied names (if is_none (Dict.get target n) then Dict.put target n "1" else target)
      (Dict.put applied n (value_or_single (Dict.get target n))) name,
  get-put target n "1" name,
  get-put applied n (value_or_single (Dict.get target n)) name,
  eq_iff n name,
  Option-cases (Dict.get target n),
)

-- After the caps are applied each of the five variables has the value that it had, or 1 if it had
-- none, and every other variable is as it was; what is returned says of exactly the five what they
-- are now.
pub apply_blas_thread_caps_lem :
    (environment : Dict String) (name : String)
    → (Dict.get (apply_blas_thread_caps environment).0 name
        ≡ capped blas_thread_cap_variables environment name)
      × (Dict.get (apply_blas_thread_caps environment).1 name ≡ (
          if contains blas_thread_cap_variables name
          then Dict.get (apply_blas_thread_caps environment).0 name
          else none))
unfolding apply_blas_thread_caps Dict.get
apply_blas_thread_caps_lem environment name = (
  apply_caps-target blas_thread_cap_variables environment [] name,
  ground (
    arith,
    apply_caps-target blas_thread_cap_variables environment [] name,
    apply_caps-applied blas_thread_cap_variables environment [] name,
  ),
)
