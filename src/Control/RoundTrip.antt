-- ===== src/Control/RoundTrip.antt =====
-- A command that is sent is the command that is received; and what a frame that is none comes to.
use mathlib.Core.Path.{subst}
use mathlib.Core.List.{append_assoc, flatten}
use ajit_segment_bots.Control.Framing.{IsStream, receive_exactly-prefix, unpack-pack}
use ajit_segment_bots.Control.{
  Codec, ControlError, Json, JsonFields, Stream, array, body_of, bool, command_of, decode_body,
  frame_of, get_member, header_of, known_commands, maximum_frame_bytes, null, number, object, pack,
  receive_command, receive_exactly, refused, send_command, string, unhashable, unpack,
}
use ajit_segment_bots.Prelude.{
  ℕ, String, Bool, ◌++◌, Bool-cases, List, Option, Result, ap, arith, contains, false, inl, inr,
  length, none, ok, raise, refl, some, sym, true, ◌∙◌, ◌≡◌, ◌≤◌,
}

module _ (codec : Codec) (command : String) (payload : Json) where
  abbrev body : List ℕ
  body = codec.dumps (frame_of command payload)

  sent_as :
      {bytes : List ℕ}
      → send_command codec command payload ≡ ok bytes
      → (contains known_commands command ≡ true)
        × (length body ≤ maximum_frame_bytes)
        × (bytes ≡ pack (length body) ++ body)
  unfolding send_command
  sent_as h = ground arith

  decode_sent :
      (size : ℕ)
      → contains known_commands command ≡ true
      → decode_body codec size (some (frame_of command payload)) ≡ ok (some (command, payload))
  unfolding decode_body get_member
  decode_sent size h = ground (arith, h)

  received_body :
      (rest : List ℕ) (s : Stream)
      → contains known_commands command ≡ true
      → codec.loads body ≡ some (frame_of command payload)
      → IsStream s
      → flatten s ≡ body ++ rest
      → (body_of codec (length body) (receive_exactly (length body) s)).0
        ≡ ok (some (command, payload))
  unfolding body_of
  received_body rest s known parses v e =
      let r = receive_exactly-prefix body rest (length body) s refl e v in
      ap (λ o. (body_of codec (length body) (o, (receive_exactly (length body) s).1)).0) r.got
      ∙ ap (decode_body codec (length body)) parses
      ∙ decode_sent (length body) known

  rest_of_body :
      (rest : List ℕ) (s : Stream)
      → IsStream s
      → flatten s ≡ body ++ rest
      → (flatten (body_of codec (length body) (receive_exactly (length body) s)).1 ≡ rest)
        × IsStream (body_of codec (length body) (receive_exactly (length body) s)).1
  unfolding body_of
  rest_of_body rest s v e =
      let r = receive_exactly-prefix body rest (length body) s refl e v in
      let after =
        ap (λ o. (body_of codec (length body) (o, (receive_exactly (length body) s).1)).1) r.got in
      (ap flatten after ∙ r.left, subst IsStream (sym after) r.stream)

  header_step :
      (s : Stream)
      → length body ≤ maximum_frame_bytes
      → header_of codec (some (pack (length body)), s)
        ≡ body_of codec (length body) (receive_exactly (length body) s)
  unfolding header_of
  header_step s small =
      let size : unpack (pack (length body)) ≡ length body =
        unpack-pack (length body) (omega arith) in
      rw size (ground (arith, small))

  -- A command that `send_command` accepted, if its JSON parses back, is the command that
  -- `receive_command` returns, however the stream is cut into chunks that are not empty and whatever
  -- follows on it; what follows is left to be read.
  pub receive_command-send_command :
      {bytes : List ℕ} (rest : List ℕ) (s : Stream)
      → send_command codec command payload ≡ ok bytes
      → codec.loads (codec.dumps (frame_of command payload)) ≡ some (frame_of command payload)
      → IsStream s
      → flatten s ≡ bytes ++ rest
      → ((receive_command codec s).0 ≡ ok (some (command, payload)))
        × (flatten (receive_command codec s).1 ≡ rest)
        × IsStream (receive_command codec s).1
  unfolding receive_command
  receive_command-send_command {bytes} rest s sent parses v e =
      let (known, small, wire) = sent_as {bytes = bytes} sent in
      let framed : flatten s ≡ pack (length body) ++ (body ++ rest) =
        e ∙ ap (λ b. b ++ rest) wire ∙ append_assoc (pack (length body)) body rest in
      let r =
        receive_exactly-prefix (pack (length body)) (body ++ rest) 4 s (unfold pack in refl) framed
          v in
      let s₁ = (receive_exactly 4 s).1 in
      let becomes = ap (λ o. header_of codec (o, s₁)) r.got ∙ header_step s₁ small in
      let after = rest_of_body rest s₁ r.stream r.left in
      (
        ap (λ (x : Result ControlError (Option (String × Json)) × Stream). x.0) becomes
            ∙ received_body rest s₁ known parses r.stream r.left,
        ap (λ (x : Result ControlError (Option (String × Json)) × Stream). flatten x.1) becomes
            ∙ after.0,
        subst IsStream
            (sym (ap (λ (x : Result ControlError (Option (String × Json)) × Stream). x.1) becomes))
            after.1,
      )

-- A list or a dict, which a set cannot be asked for.
abbrev pub is_unhashable : Option Json → Bool
is_unhashable (some (array xs)) = true
is_unhashable (some (object fs)) = true
is_unhashable _ = false

abbrev pub Answers : Option Json → Result ControlError (Option (String × Json)) → Type 0
Answers command (ok none) = ⊥
Answers command (ok (some (c, payload))) =
    (command ≡ some (string c)) × (contains known_commands c ≡ true)
Answers command (raise unhashable) = is_unhashable command ≡ true
Answers command (raise (refused why)) = is_unhashable command ≡ false

-- The body of a frame that is a JSON object is answered by one of three: a known command, which is
-- the text it carries; a refusal; or, if its command is a list or a dict, a `TypeError`, which is no
-- refusal.
pub decode_body-Answers :
    (codec : Codec) (size : ℕ) (fs : JsonFields)
    → Answers (get_member fs "command") (decode_body codec size (some (object fs)))
unfolding decode_body
decode_body-Answers codec size fs = answer (get_member fs "command")
  where
    answer :
        (command : Option Json)
        → Answers command (command_of codec command (get_member fs "payload"))
    answer none = refl
    answer (some null) = refl
    answer (some (bool b)) = refl
    answer (some (number n)) = refl
    answer (some (array xs)) = refl
    answer (some (object gs)) = refl
    answer (some (string c)) = elim (Bool-cases (contains known_commands c)) [
      | inl known ↦ rw known (refl, known)
      | inr foreign ↦ rw foreign refl
    ]
