-- ===== src/Board/Monitor.antt =====
-- dashboard/build_part_monitor.py: the source files, the spellings of a part's name, the parts that the
-- checker names, and the state of each part. The checker's messages are given as texts; `capitalize`
-- and `upper` are Python's methods.
use ajit_segment_bots.Prelude.{
  ◌&&◌, ◌||◌, Bool, false, not, List, [], ◌∷◌, ◌++◌, Option, none, some, String, Text, codes,
  Result, ok, raise, ◌>>=◌, if◌then◌else◌, keep_if, contains, words, starts_with, map, split_on,
  join_with,
}
use ajit_segment_bots.Dict
use ajit_segment_bots.Dict.{Dict, get, put, has_key}
use ajit_segment_bots.Contracts.{Feature, get_or}
use ajit_segment_bots.Contracts.Edges.{RegistryError, key_error}
use ajit_segment_bots.Board.{Rung, Source, Proof, probe_part_rung, failing}

-- A path below the project: what `find_source_files` asks of it.
pub record ProjectPath : Type 0 where
  pub is_file : Bool
  pub suffix : String
  pub parts : List String
  pub source : Source

abbrev pub excluded_dirs : List String
excluded_dirs = ".git" ∷ "docs" ∷ "dashboard" ∷ "__pycache__" ∷ ".githooks" ∷ []

abbrev pub source_suffixes : List String
source_suffixes =
    ".py" ∷ ".ts" ∷ ".js" ∷ ".rs" ∷ ".go" ∷ ".java" ∷ ".kt" ∷ ".rb" ∷ ".cpp" ∷ ".c" ∷ ".mjs" ∷ []

unfoldable pub is_excluded : List String → Bool
is_excluded [] = false
is_excluded (part ∷ parts) = contains excluded_dirs part || is_excluded parts

unfoldable pub is_source : ProjectPath → Bool
is_source p = (p.is_file && contains source_suffixes p.suffix) && not (is_excluded p.parts)

unfoldable pub find_source_files : List ProjectPath → List Source
find_source_files paths = map (λ (p : ProjectPath). p.source) (keep_if is_source paths)

unfoldable pub joined_words : (Text → Text) → List Text → Text
joined_words change [] = []
joined_words change (w ∷ ws) = change w ++ joined_words change ws

module _ (capitalize upper : Text → Text) where
  unfoldable pub camel_case : List Text → Text
  unfolding joined_words
  camel_case [] = []
  camel_case (w ∷ ws) = w ++ joined_words capitalize ws

  -- `camel[:1].upper() + camel[1:]`
  unfoldable pub upper_first : Text → Text
  upper_first [] = upper []
  upper_first (c ∷ s) = upper (c ∷ []) ++ s

  unfoldable pub name_variants : Text → List Text
  unfolding split_on join_with camel_case upper_first
  name_variants part_id =
      let ws = split_on b'-' part_id in
      part_id ∷ join_with b'_' ws ∷ camel_case ws ∷ upper_first (camel_case ws) ∷ []

-- `by_name`: every feature's id is read.
unfoldable pub by_name_from : Dict String → List Feature → Result RegistryError (Dict String)
by_name_from by_name [] = ok by_name
by_name_from by_name (f ∷ fs) = elim f.id [
  | none ↦ raise key_error
  | some i ↦ by_name_from (Dict.put by_name (get_or f.name i) i) fs
]

-- `violation.split()[0]`; a message is never blank, and a blank one names no part.
unfoldable pub first_word : Text → Option Text
first_word violation = elim (words violation) [ [] ↦ none | ◌∷◌ w ws ↦ some w ]

unfoldable pub names_part : Text → String → Bool
names_part violation name = elim (first_word violation) [
  | none ↦ false
  | some w ↦ starts_with (w ++ (b' ' ∷ (codes name ++ codes ":"))) violation
]

-- `broken.setdefault`
unfoldable pub set_default : Dict Text → String → Text → Dict Text
set_default broken part_id violation =
    if Dict.has_key broken part_id then broken else Dict.put broken part_id violation

unfoldable pub mark_named : Text → Dict String → Dict Text → Dict Text
unfolding set_default
mark_named violation [] broken = broken
mark_named violation ((name, part_id) ∷ rest) broken =
    mark_named violation rest
      (if names_part violation name then set_default broken part_id violation else broken)

unfoldable pub mark_all : List Text → Dict String → Dict Text → Dict Text
unfolding mark_named
mark_all [] by_name broken = broken
mark_all (violation ∷ violations) by_name broken =
    mark_all violations by_name (mark_named violation by_name broken)

unfoldable pub parts_in_violation : List Feature → List Text → Result RegistryError (Dict Text)
unfolding mark_all
parts_in_violation features violations = do
  by_name ← by_name_from [] features
  ok (mark_all violations by_name [])

pub record PartState : Type 0 where
  pub part_id : String
  pub name : String
  pub role : String
  pub category : String
  pub rung : Rung

-- The rung of a part with the violation that names it, if one does.
unfoldable pub rung_with : Option Text → Rung × Proof → Rung
rung_with none probed = probed.0
rung_with (some violation) probed = failing

module _ (variants : String → List Text) (sources : List Source) where
  -- The state of one part, before those of the parts that follow.
  unfoldable pub add_state :
      Dict Text
      → Feature
      → Option String
      → Result RegistryError (List PartState)
      → Result RegistryError (List PartState)
  unfolding rung_with
  add_state broken f none rest = raise key_error
  add_state broken f (some i) rest = do
    states ← rest
    ok (
        record {
          part_id = i;
          name = get_or f.name i;
          role = get_or f.role "";
          category = get_or f.category "";
          rung = rung_with (Dict.get broken i) (probe_part_rung (variants i) sources);
        }
        ∷ states)

  unfoldable pub measure_features : Dict Text → List Feature → Result RegistryError (List PartState)
  unfolding add_state
  measure_features broken [] = ok []
  measure_features broken (f ∷ fs) = add_state broken f f.id (measure_features broken fs)

  unfoldable pub measure_parts : List Feature → List Text → Result RegistryError (List PartState)
  unfolding measure_features
  measure_parts features violations = do
    broken ← parts_in_violation features violations
    measure_features broken features
