-- ===== src/Http/Sequence.antt =====
-- src/http/http_message_sequence.hh: the parser of a stream of messages.
pub mod Lines
pub mod Rounds
pub mod Bodies
pub mod Steps
pub mod Follows
pub mod Streams
pub mod Messages
use octopus_mahimahi.Common.{
  ℕ, zero, suc, ◌+◌, ◌*◌, ◌≡◌, Bool, true, false, not, ◌||◌, List, [], ◌∷◌, ◌++◌, Option, none,
  some, Result, ok, fail, out_of_fuel, ◌>>=◌, ◌>>◌, assert, length, null, take, drop, leb, ◌==◌,
  if◌then◌else◌,
}
use octopus_mahimahi.Packet.{Bytes}
use octopus_mahimahi.Chunked.{find_in, crlf}
use octopus_mahimahi.Http.Message.{
  HttpMessage, Methods, MessageState, first_line_pending, headers_pending, body_pending, complete,
  same_state, set_first_line, add_header, done_with_headers, read_in_body, eof,
}

-- `InternalBuffer`, a string.
abbrev pub have_complete_line : Bytes → Bool
have_complete_line buffer = elim (find_in crlf buffer) [ none ↦ false | some i ↦ true ]

abbrev pub pop_bytes : ℕ → Bytes → Result Bytes
pop_bytes num buffer = do assert (leb num (length buffer)); ok (drop num buffer)

-- The line, and the buffer behind it.
unfoldable pub get_and_pop_line : Bytes → Result (Bytes × Bytes)
get_and_pop_line buffer = elim (find_in crlf buffer) [
  | none ↦ do assert false; ok ([], buffer)
  | some first_line_ending ↦ do
    rest ← pop_bytes (first_line_ending + length crlf) buffer
    ok (take first_line_ending buffer, rest)
]

-- `S` is the state of the class derived from the sequence.
pub record Sequence (E S : Type 0) : Type 0 where
  pub buffer : Bytes
  pub complete_messages : List (HttpMessage E)
  pub message_in_progress : HttpMessage E
  pub derived : S

-- What the sequence is told of its messages: their virtual methods, `MessageType()`, and the virtual
-- `initialize_new_message`, which may change the message in progress.
pub record Kind (E S : Type 0) : Type 0 where
  pub methods : Methods E
  pub new_message : HttpMessage E
  pub initialize_new_message : HttpMessage E → S → Result (HttpMessage E × S)

-- What the loop has left to do: no round makes it greater.
abbrev pub steps_of : MessageState → ℕ
steps_of body_pending = 2
steps_of complete = 1
steps_of state = 0

abbrev pub work : {E S : Type 0} → Sequence E S → ℕ
work q = 2 * length q.buffer + steps_of q.message_in_progress.state

module _ {E S : Type 0} (kind : Kind E S) where
  -- The cases of `parsing_step`.
  unfoldable pub first_line_step : Sequence E S → Result (Bool × Sequence E S)
  first_line_step q = elim (have_complete_line q.buffer) [
    | false ↦ ok (false, q)
    | true ↦ do
      r ← kind.initialize_new_message q.message_in_progress q.derived
      l ← get_and_pop_line q.buffer
      m ← set_first_line l.0 r.0
      ok (true, record q { message_in_progress = m; derived = r.1; buffer = l.1 })
  ]

  abbrev pub take_header : Bytes → HttpMessage E → Result (HttpMessage E)
  take_header line m = if null line then done_with_headers kind.methods m else add_header line m

  unfoldable pub headers_step : Sequence E S → Result (Bool × Sequence E S)
  headers_step q = elim (have_complete_line q.buffer) [
    | false ↦ ok (false, q)
    | true ↦ do
      l ← get_and_pop_line q.buffer
      m ← take_header l.0 q.message_in_progress
      ok (true, record q { message_in_progress = m; buffer = l.1 })
  ]

  unfoldable pub body_step : Sequence E S → Result (Bool × Sequence E S)
  body_step q = do
    r ← read_in_body kind.methods q.buffer q.message_in_progress
    assert (r.0 == length q.buffer || same_state r.1.state complete)
    rest ← pop_bytes r.0 q.buffer
    ok (same_state r.1.state complete, record q { message_in_progress = r.1; buffer = rest })

  abbrev pub complete_step : Sequence E S → Result (Bool × Sequence E S)
  complete_step q = ok (
    true,
    record q {
      complete_messages = q.complete_messages ++ q.message_in_progress ∷ [];
      message_in_progress = kind.new_message;
    },
  )

  unfoldable pub parsing_step : Sequence E S → Result (Bool × Sequence E S)
  parsing_step q = elim q.message_in_progress.state [
    | first_line_pending ↦ first_line_step q
    | headers_pending ↦ headers_step q
    | body_pending ↦ body_step q
    | complete ↦ complete_step q
  ]

  -- `while ( parsing_step() ) {}`
  unfoldable pub parse_loop : ℕ → Sequence E S → Result (Sequence E S)
  parse_loop zero q = fail out_of_fuel
  parse_loop (suc fuel) q = do
    r ← parsing_step q
    elim r.0 [ true ↦ parse_loop fuel r.1 | false ↦ ok r.1 ]

  unfoldable pub parse : Bytes → Sequence E S → Result (Sequence E S)
  parse buf q = do
    m ← if null buf then eof kind.methods q.message_in_progress else ok q.message_in_progress
    let q1 = record q { message_in_progress = m; buffer = q.buffer ++ buf }
    parse_loop (work q1 + 1) q1
