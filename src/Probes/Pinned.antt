-- ===== src/Probes/Pinned.antt =====
-- `_read_pinned_interpreter_version` and `probe_interpreter_build`: the version that the project's own
-- file pins, searched as the expression `(\d+)\.(\d+)` is, and the interpreter against it.
use ajit_segment_bots.Prelude.{
  ◌&&◌, ℕ, ◌+◌, ◌*◌, ◌==◌, [], ◌∷◌, Option, none, some, String, Text, codes, Result, ok, raise,
  ◌>>=◌, if◌then◌else◌, true, false, Bool,
}
use Prim.Native.String.{◌++◌}
use ajit_segment_bots.Dict
use ajit_segment_bots.Dict.{Dict, get}
use ajit_segment_bots.Settings.{TomlValue, decimal}
use ajit_segment_bots.Settings.Reader.{get_field}
use ajit_segment_bots.Probes.{
  Machine, Exception, os_error, uncaught, is_falsy, SubstrateProbeResult, tile, ProbeState,
  state_ok, state_failing, state_not_measured,
}

-- What `_read_pinned_interpreter_version` raises: its own exception, which the probe catches, or
-- another, which it does not.
pub data PinError : Type 0 where
  version_unreadable : String → PinError
  escaped : Exception → PinError

module _ (digit_of : ℕ → Option ℕ) where
  -- The digits at the front of a text as one number after `n`, and what follows them.
  unfoldable pub digits_from : ℕ → Text → ℕ × Text
  digits_from n [] = (n, [])
  digits_from n (c ∷ s) = elim (digit_of c) [
    | none ↦ (n, c ∷ s)
    | some d ↦ digits_from (n * 10 + d) s
  ]

  -- `\d+` at the front of a text, greedily.
  unfoldable pub number_at : Text → Option (ℕ × Text)
  number_at [] = none
  number_at (c ∷ s) = elim (digit_of c) [ none ↦ none | some d ↦ some (digits_from d s) ]

  after_point : ℕ → Text → Option (ℕ × ℕ)
  after_point major [] = none
  after_point major (c ∷ s) =
      if c == b'.'
      then elim (number_at s) [ none ↦ none | some (minor, _) ↦ some (major, minor) ]
      else none

  -- The expression at the front of a text.
  unfoldable pub version_at : Text → Option (ℕ × ℕ)
  unfolding after_point
  version_at s = elim (number_at s) [ none ↦ none | some (major, rest) ↦ after_point major rest ]

  -- `re.search`: the first place where the expression matches.
  unfoldable pub search_version : Text → Option (ℕ × ℕ)
  search_version [] = none
  search_version (c ∷ s) = elim (version_at (c ∷ s)) [
    | none ↦ search_version s
    | some version ↦ some version
  ]

-- `document.get("project", {}).get("requires-python")`; what is no table has no `get`.
unfoldable pub requires_python : Dict TomlValue → Result PinError (Option TomlValue)
requires_python document = elim (Dict.get document "project") [
  | none ↦ ok none
  | some (TomlValue.table _ fs) ↦ ok (get_field fs "requires-python")
  | some _ ↦ raise (escaped (uncaught "AttributeError" "no attribute 'get'"))
]

module _ (m : Machine) where
  unfoldable pub pyproject_text : Result PinError String
  pyproject_text = elim m.pyproject [
    | ok body ↦ ok body
    | raise (os_error failure) ↦
        raise (version_unreadable (m.pyproject_path ++ " could not be read: " ++ failure))
    | raise e ↦ raise (escaped e)
  ]

  unfoldable pub pyproject_document : String → Result PinError (Dict TomlValue)
  pyproject_document body = elim (m.loads_text body) [
    | ok document ↦ ok document
    | raise failure ↦
        raise (version_unreadable (m.pyproject_path ++ " is not valid TOML: " ++ failure))
  ]

  searched : String → Option (ℕ × ℕ) → Result PinError (ℕ × ℕ)
  searched s (some version) = ok version
  searched s none = raise (
      version_unreadable
        (m.pyproject_path ++ " requires-python " ++ m.repr s ++ " names no major.minor version"))

  undeclared : Result PinError (ℕ × ℕ)
  undeclared =
      raise (version_unreadable (m.pyproject_path ++ " declares no [project] requires-python"))

  -- The search raises on what is no text.
  unfoldable pub version_in : Option TomlValue → Result PinError (ℕ × ℕ)
  unfolding undeclared searched is_falsy
  version_in none = undeclared
  version_in (some (TomlValue.text s)) =
      if is_falsy (TomlValue.text s)
      then undeclared
      else searched s (search_version m.digit_of (codes s))
  version_in (some v) =
      if is_falsy v
      then undeclared
      else raise (escaped (uncaught "TypeError" "expected string or bytes-like object"))

  unfoldable pub read_pinned_interpreter_version : Result PinError (ℕ × ℕ)
  read_pinned_interpreter_version = do
    body ← pyproject_text
    document ← pyproject_document body
    requires ← requires_python document
    version_in requires

  abbrev pub version_text : String
  version_text = decimal m.major ++ "." ++ decimal m.minor ++ "." ++ decimal m.micro

  build_proof : String
  build_proof =
      "python -c \"import sysconfig; sysconfig.get_config_var('Py_GIL_DISABLED')\"; requires-python in "
      ++ m.pyproject_path

  unfoldable pub build_tile : ProbeState → String → SubstrateProbeResult
  unfolding build_proof
  build_tile = tile "Interpreter build" build_proof

  -- What the probe makes of the flag and of the pin.
  unfoldable pub judge_build :
      Option Bool → Result PinError (ℕ × ℕ) → Result Exception SubstrateProbeResult
  unfolding build_tile
  judge_build none pin =
      ok (build_tile state_not_measured ("Py_GIL_DISABLED unreadable on python " ++ version_text))
  judge_build (some true) pin = ok (
      build_tile state_failing (
        "free-threaded build running (python " ++ version_text
        ++ ") -- section 15.1 chose the standard build because five pinned packages ship no cp314t wheel"))
  judge_build (some false) (raise (escaped e)) = raise e
  judge_build (some false) (raise (version_unreadable failure)) =
      ok (build_tile state_not_measured failure)
  judge_build (some false) (ok (pinned_major, pinned_minor)) =
      let pin = decimal pinned_major ++ "." ++ decimal pinned_minor in
      if m.major == pinned_major && m.minor == pinned_minor
      then ok (
          build_tile state_ok (
            "standard build, python " ++ version_text ++ ", matches pyproject.toml's " ++ pin
            ++ " pin"))
      else ok (
          build_tile state_failing
            ("standard build but python " ++ version_text ++ ", pyproject.toml pins " ++ pin))

  unfoldable pub probe_interpreter_build : Result Exception SubstrateProbeResult
  unfolding judge_build
  probe_interpreter_build = judge_build m.gil_disabled read_pinned_interpreter_version
