-- ===== src/Launcher/Tests.antt =====
-- The caps in a small environment, and the count below an awkward name.
use ajit_segment_bots.Launcher.Caps.{apply_blas_thread_caps_lem, capped}
use ajit_segment_bots.Launcher.Threads.{IsPlain, read_kernel_thread_count_lem}
use ajit_segment_bots.Prelude.{
  ◌++◌, ◌-◌, Option, String, Text, [], codes, contains, if◌then◌else◌, none, ok, refl, some, words,
  ℕ, ◌∷◌, ◌≡◌, arith,
}
use ajit_segment_bots.Dict
use ajit_segment_bots.Dict.{Dict, get, put}
use ajit_segment_bots.Launcher.{
  start_forkserver, apply_caps, apply_blas_thread_caps, read_kernel_thread_count,
  blas_thread_cap_variables, field_at,
}

abbrev environment : Dict String
environment = ("OMP_NUM_THREADS", "2") ∷ ("HOME", "/root") ∷ []

apply_blas_thread_caps_lem_example :
    (Dict.get (apply_blas_thread_caps environment).0 "OMP_NUM_THREADS"
      ≡ capped blas_thread_cap_variables environment "OMP_NUM_THREADS")
    × (Dict.get (apply_blas_thread_caps environment).1 "OMP_NUM_THREADS" ≡ (
        if contains blas_thread_cap_variables "OMP_NUM_THREADS"
        then Dict.get (apply_blas_thread_caps environment).0 "OMP_NUM_THREADS"
        else none))
apply_blas_thread_caps_lem_example = apply_blas_thread_caps_lem environment "OMP_NUM_THREADS"

-- A reader of one digit.
abbrev digit_of : Text → Option ℕ
digit_of (c ∷ []) = some (c - 48)
digit_of _ = none

abbrev name_with_parenthesis : Text
name_with_parenthesis = codes "7 (a) b"

abbrev later_fields : Text
later_fields = codes " S 1 2 3 4 5 6 7 8 9 0 1 2 3 4 5 6 9 8"

later_fields-IsPlain : IsPlain later_fields
later_fields-IsPlain = ground arith

read_kernel_thread_count_lem_example :
    read_kernel_thread_count digit_of (some (name_with_parenthesis ++ b')' ∷ later_fields)) ≡ ok 9
unfolding words field_at
read_kernel_thread_count_lem_example =
    read_kernel_thread_count_lem digit_of name_with_parenthesis later_fields (codes "9") 9
      later_fields-IsPlain refl refl

-- The server imports numpy under the cap that the environment has, and the caps that it lacked.
server_capped :
    Dict.get (start_forkserver environment ("numpy" ∷ [])).environment "MKL_NUM_THREADS" ≡ some "1"
unfolding start_forkserver apply_blas_thread_caps apply_caps get put
server_capped = refl
