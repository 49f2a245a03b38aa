-- ===== src/Numeric/Tests.antt =====
-- A state that is opened for the first time, and killed after its second step.
use ajit_segment_bots.Numeric.Kept.{IsOpenedFrom, open_numeric_state-IsOpenedFrom}
use ajit_segment_bots.Numeric.Crash.{open_numeric_state_again}
use ajit_segment_bots.Prelude.{List, [], false, none, refl, true, ◌∷◌, ◌≡◌, ok, some, raise}
use ajit_segment_bots.Numeric.Handle.{record_stamp, close, wrap, not_subscriptable}
use ajit_segment_bots.Numeric.{
  Disk, Dtypes, Spec, apply_all, open_numeric_state, open_plan, Write, create_data, create_stamp,
  declared, expected_data_byte_count, replace_declaration, write_temporary, zeros,
}

abbrev floats : Dtypes
floats = record { itemsize = λ d. 8; hasobject = λ d. false }

abbrev pair : Spec
pair = record { name = "gaps"; shape = 2 ∷ []; dtype = "<f8" }

abbrev nothing : Disk
nothing = record { content = none; declaration = none; temporary = none; stamp = none }

abbrev first_steps : List Write
first_steps = write_temporary (declared (2 ∷ []) "<f8") ∷ replace_declaration ∷ []

open_numeric_state_again_example :
    open_numeric_state floats pair true (apply_all nothing first_steps)
    ≡ open_numeric_state floats pair true nothing
unfolding open_plan expected_data_byte_count
open_numeric_state_again_example =
    open_numeric_state_again floats pair true nothing first_steps
      (create_data 16 ∷ create_stamp ∷ []) refl

abbrev with_data : Disk
with_data = record {
  content = some (zeros 16);
  declaration = some (declared (2 ∷ []) "<f8");
  temporary = none;
  stamp = none;
}

with_stamp :
    open_numeric_state floats pair true with_data ≡ ok (record with_data { stamp = some 0 })
unfolding open_numeric_state expected_data_byte_count
with_stamp = refl

open_numeric_state-IsOpenedFrom_example :
    IsOpenedFrom floats pair with_data (record with_data { stamp = some 0 })
open_numeric_state-IsOpenedFrom_example =
    open_numeric_state-IsOpenedFrom floats pair true with_data (record with_data { stamp = some 0 })
      with_stamp

-- A closed state takes no stamp, and its files keep the one it had.
stamp_kept : (close (wrap with_data)).files ≡ with_data
unfolding close wrap
stamp_kept = refl

stamp_refused : record_stamp 3 (close (wrap with_data)) ≡ raise not_subscriptable
unfolding record_stamp close wrap
stamp_refused = refl
