-- ===== src/Numeric.antt =====
-- runtime/numeric_state.py: a part's mapped numeric state. The files of one state are a `Disk`: the
-- bytes of the data file, the sidecar and its temporary file, and the number in the stamp file. What
-- opening writes is a list of steps, so that a kill leaves the effect of the first few. `numpy` is a
-- `Dtypes`: the item size of a dtype and whether it holds objects; mapping a file that is not there
-- creates it at its size, of zeros, in one step.
pub mod Crash
pub mod Guard
pub mod Kept
pub mod Handle
mod Tests
use ajit_segment_bots.Prelude.{
  ℕ, String, Bool, ◌&&◌, ◌*◌, ◌++◌, ◌==◌, List, Option, Result, [], false, if◌then◌else◌, length,
  ltb, none, ok, raise, some, str_eq, suc, true, zero, ◌>>=◌, ◌∷◌,
}

pub record Spec : Type 0 where
  pub name : String
  pub shape : List ℕ
  pub dtype : String

pub record Dtypes : Type 0 where
  pub itemsize : String → ℕ
  pub hasobject : String → Bool

-- What a sidecar holds, `unreadable` where it cannot be read as a declaration.
pub data Sidecar : Type 0 where
  declared : List ℕ → String → Sidecar
  unreadable : Sidecar

pub record Disk : Type 0 where
  pub content : Option (List ℕ)
  pub declaration : Option Sidecar
  pub temporary : Option Sidecar
  pub stamp : Option ℕ

pub data NumericError : Type 0 where
  volatile_storage : NumericError
  holds_objects : NumericError
  wrong_size : ℕ → ℕ → NumericError
  unreadable_declaration : NumericError
  wrong_declaration : List ℕ → String → NumericError

abbrev pub product : List ℕ → ℕ
product [] = 1
product (n ∷ ns) = n * product ns

unfoldable pub expected_data_byte_count : Dtypes → Spec → ℕ
expected_data_byte_count numpy spec = numpy.itemsize spec.dtype * product spec.shape

abbrev pub zeros : ℕ → List ℕ
zeros zero = []
zeros (suc n) = 0 ∷ zeros n

pub data Write : Type 0 where
  write_temporary : Sidecar → Write
  replace_declaration : Write
  create_data : ℕ → Write
  create_stamp : Write

-- `os.replace` moves the temporary file over the sidecar.
unfoldable pub apply : Disk → Write → Disk
apply d (write_temporary s) = record d { temporary = some s }
apply d replace_declaration = record d { declaration = d.temporary; temporary = none }
apply d (create_data n) = record d { content = some (zeros n) }
apply d create_stamp = record d { stamp = some 0 }

unfoldable pub apply_all : Disk → List Write → Disk
unfolding apply
apply_all d [] = d
apply_all d (w ∷ ws) = apply_all (apply d w) ws

unfoldable pub shape_eq : List ℕ → List ℕ → Bool
shape_eq [] [] = true
shape_eq [] (b ∷ t) = false
shape_eq (a ∷ s) [] = false
shape_eq (a ∷ s) (b ∷ t) = a == b && shape_eq s t

-- `_verify_declaration_matches`
unfoldable pub verify_declaration_matches : Sidecar → Spec → Result NumericError (List Write)
unfolding shape_eq
verify_declaration_matches unreadable spec = raise unreadable_declaration
verify_declaration_matches (declared shape dtype) spec =
    if shape_eq shape spec.shape && str_eq dtype spec.dtype
    then ok []
    else raise (wrong_declaration shape dtype)

-- `_write_declaration_atomically`
unfoldable pub write_declaration_atomically : Spec → List Write
write_declaration_atomically spec =
    write_temporary (declared spec.shape spec.dtype) ∷ replace_declaration ∷ []

module _ (numpy : Dtypes) (spec : Spec) where
  check_size : Option (List ℕ) → Result NumericError (Unit {0})
  check_size none = ok tt
  check_size (some bytes) =
      if length bytes == expected_data_byte_count numpy spec
      then ok tt
      else raise (wrong_size (length bytes) (expected_data_byte_count numpy spec))

  declare : Option Sidecar → Result NumericError (List Write)
  declare none = ok (write_declaration_atomically spec)
  declare (some sidecar) = verify_declaration_matches sidecar spec

  unfoldable pub map_data : Option (List ℕ) → List Write
  map_data none = create_data (expected_data_byte_count numpy spec) ∷ []
  map_data (some bytes) = []

  unfoldable pub map_stamp : Option ℕ → List Write
  map_stamp none = create_stamp ∷ []
  map_stamp (some n) = []

  -- What `open_numeric_state` writes, if it refuses nothing.
  unfoldable pub open_plan : Bool → Disk → Result NumericError (List Write)
  unfolding check_size declare map_data map_stamp verify_declaration_matches
      write_declaration_atomically
  open_plan durable d =
      if durable
      then (if numpy.hasobject spec.dtype then raise holds_objects else do
        _ ← check_size d.content
        declaring ← declare d.declaration
        ok (declaring ++ (map_data d.content ++ map_stamp d.stamp)))
      else raise volatile_storage

  unfoldable pub open_numeric_state : Bool → Disk → Result NumericError Disk
  unfolding open_plan apply_all
  open_numeric_state durable d = do plan ← open_plan durable d; ok (apply_all d plan)

-- `record_sequence_stamp`, `read_sequence_stamp` and `has_state_gap` of an open state; a stamp and
-- the published one are numbers that are not negative.
unfoldable pub record_sequence_stamp : ℕ → Disk → Disk
record_sequence_stamp n d = record d { stamp = some n }

unfoldable pub read_sequence_stamp : Disk → ℕ
read_sequence_stamp d = elim d.stamp [ none ↦ 0 | some n ↦ n ]

unfoldable pub has_state_gap : Disk → ℕ → Bool
unfolding read_sequence_stamp
has_state_gap d published = ltb (read_sequence_stamp d) published
