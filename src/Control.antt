-- ===== src/Control.antt =====
-- runtime/control_channel.py: framed commands on a stream socket. The stream is the list of the
-- chunks that `recv` can return, none of them empty; its end is the peer's close. JSON's text form is
-- a `Codec` (`json.dumps` encoded, and `json.loads` after the decoding, none for either error).
pub mod Framing
pub mod RoundTrip
mod Tests
use ajit_segment_bots.Prelude.{
  ℕ, String, Bool, ◌%◌, ◌*◌, ◌+◌, ◌++◌, ◌/◌, List, Option, Result, [], contains, if◌then◌else◌,
  length, ltb, none, ok, raise, some, str_eq, suc, zero, ◌∷◌, ◌-◌, ◌==◌, false, true, drop, take,
}

mutual
  pub data Json : Type 0 where
    null : Json
    bool : Bool → Json
    number : String → Json
    string : String → Json
    array : JsonItems → Json
    object : JsonFields → Json

  pub data JsonItems : Type 0 where
    nil : JsonItems
    cons : Json → JsonItems → JsonItems

  pub data JsonFields : Type 0 where
    empty : JsonFields
    member : String → Json → JsonFields → JsonFields

pub record Codec : Type 0 where
  pub dumps : Json → List ℕ
  pub loads : List ℕ → Option Json

abbrev pub known_commands : List String
known_commands = "on" ∷ "off" ∷ "report-health" ∷ []

abbrev pub maximum_frame_bytes : ℕ
maximum_frame_bytes = 64 * 1024

-- What a `ControlFrameRefused` says, and the `TypeError` of a test of membership in a set that is
-- asked of a list or a dict.
pub data Refused : Type 0 where
  unknown_to_send : String → Refused
  too_large : ℕ → Refused
  claims : ℕ → Refused
  not_json : ℕ → Refused
  not_an_object : Json → Refused
  unknown_received : Option Json → Refused

pub data ControlError : Type 0 where
  refused : Refused → ControlError
  unhashable : ControlError

abbrev pub Stream : Type 0
Stream = List (List ℕ)

-- `struct.Struct("!I")`: four bytes, the most significant first, of a number below 2 ^ 32.
unfoldable pub pack : ℕ → List ℕ
pack n = n / 16777216 % 256 ∷ n / 65536 % 256 ∷ n / 256 % 256 ∷ n % 256 ∷ []

unfoldable pub unpack : List ℕ → ℕ
unpack (a ∷ b ∷ c ∷ d ∷ []) = a * 16777216 + b * 65536 + c * 256 + d
unpack _ = 0

abbrev pub is_end : List ℕ → Bool
is_end [] = true
is_end (x ∷ xs) = false

-- What is left of a chunk stays in front.
abbrev pub put_back : List ℕ → Stream → Stream
put_back [] s = s
put_back (x ∷ xs) s = (x ∷ xs) ∷ s

-- `sock.recv(count)`: at most `count` bytes of what stands first, and none at the end.
unfoldable pub recv : ℕ → Stream → List ℕ × Stream
recv count [] = ([], [])
recv count (chunk ∷ s) = (take count chunk, put_back (drop count chunk) s)

-- The loop of `_receive_exactly`. Every round but the last takes at least one byte, so one more round
-- than bytes is enough fuel. What was read before the peer closed is lost.
unfoldable pub receive_loop : ℕ → ℕ → List ℕ → Stream → Option (List ℕ) × Stream
unfolding recv
receive_loop zero remaining chunks s = (none, s)
receive_loop (suc fuel) remaining chunks s =
    let (chunk, s') = recv remaining s in
    let again = receive_loop fuel (remaining - length chunk) (chunks ++ chunk) s' in
    if remaining == 0 then (some chunks, s) else if is_end chunk then (none, s') else again

unfoldable pub receive_exactly : ℕ → Stream → Option (List ℕ) × Stream
unfolding receive_loop
receive_exactly count s = receive_loop (count + 1) count [] s

unfoldable pub get_member : JsonFields → String → Option Json
get_member empty k = none
get_member (member j v fs) k = if str_eq j k then some v else get_member fs k

abbrev payload_or : Option Json → Json
payload_or none = object empty
payload_or (some v) = v

abbrev pub frame_of : String → Json → Json
frame_of command payload =
    object (member "command" (string command) (member "payload" payload empty))

module _ (codec : Codec) where
  -- The bytes that go out.
  unfoldable pub send_command : String → Json → Result ControlError (List ℕ)
  unfolding pack
  send_command command payload =
      if contains known_commands command
      then (let body = codec.dumps (frame_of command payload) in
          if ltb maximum_frame_bytes (length body)
          then raise (refused (too_large (length body)))
          else ok (pack (length body) ++ body))
      else raise (refused (unknown_to_send command))

  -- `command not in KNOWN_COMMANDS` and the answer, the payload being `{}` where there is none.
  unfoldable pub command_of :
      Option Json → Option Json → Result ControlError (Option (String × Json))
  command_of (some (string command)) payload =
      if contains known_commands command
      then ok (some (command, payload_or payload))
      else raise (refused (unknown_received (some (string command))))
  command_of (some (array xs)) payload = raise unhashable
  command_of (some (object fs)) payload = raise unhashable
  command_of other payload = raise (refused (unknown_received other))

  unfoldable pub decode_body : ℕ → Option Json → Result ControlError (Option (String × Json))
  unfolding command_of
  decode_body size none = raise (refused (not_json size))
  decode_body size (some (object fs)) =
      command_of (get_member fs "command") (get_member fs "payload")
  decode_body size (some value) = raise (refused (not_an_object value))

  unfoldable pub body_of :
      ℕ → Option (List ℕ) × Stream → Result ControlError (Option (String × Json)) × Stream
  body_of size (none, s) = (ok none, s)
  body_of size (some body, s) = (decode_body (length body) (codec.loads body), s)

  unfoldable pub header_of :
      Option (List ℕ) × Stream → Result ControlError (Option (String × Json)) × Stream
  header_of (none, s) = (ok none, s)
  header_of (some header, s) =
      let size = unpack header in
      let body = body_of size (receive_exactly size s) in
      if ltb maximum_frame_bytes size then (raise (refused (claims size)), s) else body

  -- `none` is a closed socket.
  unfoldable pub receive_command : Stream → Result ControlError (Option (String × Json)) × Stream
  receive_command s = header_of (receive_exactly 4 s)
