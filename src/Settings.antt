-- ===== src/Settings.antt =====
-- runtime/settings_reader.py: the operator's settings files, read and refused.
-- The parser (`tomllib.loads` after the UTF-8 decoding), the digest (`hashlib.sha256`) and
-- `PurePath.stem` are the fields of a `Platform`; a body of bytes is a list of numbers. What may
-- raise gives the exception's text.
pub mod Reader
pub mod Holder
pub mod Laws
use ajit_segment_bots.Prelude.{
  Result, ℕ, zero, suc, ◌+◌, ◌/◌, ◌%◌, String, Bool, true, false, Option, none, some, List, [], ◌∷◌,
  ltb, if◌then◌else◌,
}
use Prim.Native.String.{◌++◌}
use ajit_segment_bots.Dict.{Dict}

-- What `tomllib` returns. A value that `str` does not print as itself, as a decimal or as a
-- truth value carries the text that `str` prints.
mutual
  pub data TomlValue : Type 0 where
    text : String → TomlValue
    integer : Bool → ℕ → TomlValue
    boolean : Bool → TomlValue
    printed : String → TomlValue
    table : String → Fields → TomlValue

  pub data Fields : Type 0 where
    end : Fields
    field : String → TomlValue → Fields → Fields

digit : ℕ → String
digit zero = "0"
digit (suc zero) = "1"
digit (suc (suc zero)) = "2"
digit (suc (suc (suc zero))) = "3"
digit (suc (suc (suc (suc zero)))) = "4"
digit (suc (suc (suc (suc (suc zero))))) = "5"
digit (suc (suc (suc (suc (suc (suc zero)))))) = "6"
digit (suc (suc (suc (suc (suc (suc (suc zero))))))) = "7"
digit (suc (suc (suc (suc (suc (suc (suc (suc zero)))))))) = "8"
digit _ = "9"

-- Decimal digits; the number itself is fuel enough.
decimal_from : ℕ → ℕ → String
decimal_from zero n = digit (n % 10)
decimal_from (suc f) n =
    let front = decimal_from f (n / 10) in if ltb n 10 then digit n else front ++ digit (n % 10)

unfoldable pub decimal : ℕ → String
unfolding decimal_from digit
decimal n = decimal_from n n

-- Python's `str` of a parsed value.
unfoldable pub to_text : TomlValue → String
unfolding decimal
to_text (text s) = s
to_text (integer true n) = "-" ++ decimal n
to_text (integer false n) = decimal n
to_text (boolean true) = "True"
to_text (boolean false) = "False"
to_text (printed s) = s
to_text (table s _) = s

pub record Platform : Type 0 where
  pub loads : List ℕ → Result String (Dict TomlValue)
  pub sha256 : List ℕ → String
  pub stem : String → String
