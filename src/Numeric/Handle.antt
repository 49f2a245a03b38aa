-- ===== src/Numeric/Handle.antt =====
-- `NumericState`: the two mappings of an open state. What the process sees of its files is `files`, what
-- the last forced writeback put on the medium is `written`; after `close` the references are gone.
use ajit_segment_bots.Prelude.{
  ℕ, Bool, true, false, Option, none, some, Result, ok, raise, if◌then◌else◌,
}
use ajit_segment_bots.Numeric.{Disk, record_sequence_stamp, read_sequence_stamp}

pub record NumericState : Type 0 where
  pub files : Disk
  pub written : Option Disk
  pub is_mapped : Bool

-- `None[0]`, and `None.flush()`
pub data ClosedError : Type 0 where
  not_subscriptable : ClosedError
  has_no_flush : ClosedError

unfoldable pub wrap : Disk → NumericState
wrap d = record { files = d; written = none; is_mapped = true }

unfoldable pub record_stamp : ℕ → NumericState → Result ClosedError NumericState
record_stamp n s =
    if s.is_mapped
    then ok (record s { files = record_sequence_stamp n s.files })
    else raise not_subscriptable

unfoldable pub read_stamp : NumericState → Result ClosedError ℕ
read_stamp s = if s.is_mapped then ok (read_sequence_stamp s.files) else raise not_subscriptable

unfoldable pub force_writeback : NumericState → Result ClosedError NumericState
force_writeback s =
    if s.is_mapped then ok (record s { written = some s.files }) else raise has_no_flush

unfoldable pub close : NumericState → NumericState
close s = record s { is_mapped = false }
