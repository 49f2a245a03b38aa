-- ===== src/Prelude/Texts.antt =====
-- Texts that the program takes apart, as lists of code points, with Python's methods on them.
use Prim.Native.Nat.{ℕ}
use Prim.Native.Char.{code}
use Prim.Native.String.{String}
use mathlib.Core.Bool.{Bool, true, false, ◌&&◌, ◌||◌}
use mathlib.Core.List.{List, [], ◌∷◌, ◌++◌, reverse}
use mathlib.Core.Option.{Option, none, some}
use ajit_segment_bots.Prelude.Tests.{◌==◌, leb, if◌then◌else◌}

abbrev pub Text : Type 0
Text = List ℕ

abbrev pub codes : String → Text
codes String.[] = []
codes (String.◌∷◌ c s) = code c ∷ codes s

unfoldable pub text_eq : Text → Text → Bool
text_eq [] [] = true
text_eq [] (b ∷ t) = false
text_eq (a ∷ s) [] = false
text_eq (a ∷ s) (b ∷ t) = a == b && text_eq s t

-- `str.isspace` of one character.
unfoldable pub is_space : ℕ → Bool
is_space c =
    (leb 9 c && leb c 13)
    || (leb 28 c && leb c 32)
    || c == 133
    || c == 160
    || c == 5760
    || (leb 8192 c && leb c 8202)
    || c == 8232
    || c == 8233
    || c == 8239
    || c == 8287
    || c == 12288

-- The characters at which `str.splitlines` ends a line.
unfoldable pub ends_line : ℕ → Bool
ends_line c = (leb 10 c && leb c 13) || (leb 28 c && leb c 30) || c == 133 || c == 8232 || c == 8233

abbrev cons_word : Text → List Text → List Text
cons_word [] ws = ws
cons_word (c ∷ w) ws = reverse (c ∷ w) ∷ ws

-- `str.split()`, with the word that is being read, last character first.
unfoldable pub words_from : Text → Text → List Text
words_from w [] = cons_word w []
words_from w (c ∷ s) =
    let rest = words_from (if is_space c then [] else c ∷ w) s in
    if is_space c then cons_word w rest else rest

unfoldable pub words : Text → List Text
unfolding words_from is_space
words s = words_from [] s

-- `str.splitlines()`: the pair of a return and a line feed is one end.
unfoldable pub lines_from : Text → Text → List Text
lines_from w [] = cons_word w []
lines_from w (c ∷ []) = if ends_line c then reverse w ∷ [] else reverse (c ∷ w) ∷ []
lines_from w (c ∷ d ∷ s) =
    let feed = lines_from [] s in
    let rest = lines_from (if ends_line c then [] else c ∷ w) (d ∷ s) in
    if c == 13 && d == 10 then reverse w ∷ feed else if ends_line c then reverse w ∷ rest else rest

unfoldable pub lines : Text → List Text
unfolding lines_from ends_line
lines s = lines_from [] s

unfoldable pub starts_with : Text → Text → Bool
starts_with [] s = true
starts_with (a ∷ p) [] = false
starts_with (a ∷ p) (b ∷ s) = a == b && starts_with p s

unfoldable pub drop_prefix : Text → Text → Text
drop_prefix [] s = s
drop_prefix (a ∷ p) [] = []
drop_prefix (a ∷ p) (b ∷ s) = drop_prefix p s

abbrev extend : ℕ → Option (Text × Text) → Option (Text × Text)
extend c none = none
extend c (some (before, after)) = some (c ∷ before, after)

-- `s.partition(sep)`; `none` where the separator is not there.
unfoldable pub partition : Text → Text → Option (Text × Text)
unfolding starts_with drop_prefix
partition sep [] = if starts_with sep [] then some ([], []) else none
partition sep (c ∷ s) =
    let rest = extend c (partition sep s) in
    if starts_with sep (c ∷ s) then some ([], drop_prefix sep (c ∷ s)) else rest

strip_left : Text → Text
unfolding is_space
strip_left [] = []
strip_left (c ∷ s) = let rest = strip_left s in if is_space c then rest else c ∷ s

-- `str.strip()`
unfoldable pub strip : Text → Text
unfolding strip_left
strip s = reverse (strip_left (reverse (strip_left s)))

abbrev pub cons_first : ℕ → List Text → List Text
cons_first c [] = (c ∷ []) ∷ []
cons_first c (w ∷ ws) = (c ∷ w) ∷ ws

-- `text.split(sep)` for one character.
unfoldable pub split_on : ℕ → Text → List Text
split_on sep [] = [] ∷ []
split_on sep (c ∷ s) =
    let rest = split_on sep s in if c == sep then [] ∷ rest else cons_first c rest

-- `sep.join(words)` for one character.
unfoldable pub join_with : ℕ → List Text → Text
join_with sep [] = []
join_with sep (w ∷ []) = w
join_with sep (w ∷ v ∷ ws) = w ++ sep ∷ join_with sep (v ∷ ws)
