-- ===== src/Control/Tests.antt =====
-- A frame that arrives in pieces, and one whose command is a list.
use mathlib.Core.List.{flatten}
use ajit_segment_bots.Prelude.{List, [], contains, ok, refl, some, ℕ, ◌∷◌, ◌≡◌}
use ajit_segment_bots.Control.Framing.{IsStream}
use ajit_segment_bots.Control.RoundTrip.{Answers, decode_body-Answers, receive_command-send_command}
use ajit_segment_bots.Control.{
  decode_body, receive_command, send_command, Codec, JsonFields, Stream, array, empty, frame_of,
  get_member, member, nil, null, object,
}

-- A text form that says one thing.
abbrev fixed : Codec
fixed = record { dumps = λ _. 7 ∷ 8 ∷ 9 ∷ []; loads = λ _. some (frame_of "on" null) }

abbrev wire : List ℕ
wire = 0 ∷ 0 ∷ 0 ∷ 3 ∷ 7 ∷ 8 ∷ 9 ∷ []

abbrev pieces : Stream
pieces = (0 ∷ 0 ∷ []) ∷ (0 ∷ 3 ∷ 7 ∷ []) ∷ (8 ∷ 9 ∷ 1 ∷ []) ∷ []

pieces-IsStream : IsStream pieces
pieces-IsStream = ((λ e. cc e), ((λ e. cc e), ((λ e. cc e), tt)))

sent : send_command fixed "on" null ≡ ok wire
unfolding send_command contains
sent = refl

receive_command-send_command_example :
    ((receive_command fixed pieces).0 ≡ ok (some ("on", null)))
    × (flatten (receive_command fixed pieces).1 ≡ 1 ∷ [])
    × IsStream (receive_command fixed pieces).1
unfolding flatten
receive_command-send_command_example =
    receive_command-send_command fixed "on" null {bytes = wire} (1 ∷ []) pieces sent refl
      pieces-IsStream refl

abbrev strange : JsonFields
strange = member "command" (array nil) empty

decode_body-Answers_example :
    Answers (get_member strange "command") (decode_body fixed 2 (some (object strange)))
decode_body-Answers_example = decode_body-Answers fixed 2 strange
