-- ===== src/Http/Message.antt =====
-- src/http/http_message.hh and .cc: what requests and responses have in common.
use octopus_mahimahi.Common.{
  ℕ, ◌+◌, ◌-◌, ◌^◌, Bool, true, false, ◌&&◌, List, [], ◌∷◌, ◌++◌, Result, ok, fail, thrown, ◌>>=◌,
  ◌>>◌, assert, length, take, min, leb, ltb, ◌==◌, if◌then◌else◌,
}
use octopus_mahimahi.Packet.{Bytes}
use octopus_mahimahi.Chunked.{crlf}
use octopus_mahimahi.Header.{HttpHeader, http_header, from_nonspace}
use octopus_mahimahi.Header

-- `HTTPMessageState`, and the number that the compiler gives to each.
pub data MessageState : Type 0 where
  first_line_pending headers_pending body_pending complete : MessageState

abbrev pub number : MessageState → ℕ
number first_line_pending = 0
number headers_pending = 1
number body_pending = 2
number complete = 3

abbrev pub same_state : MessageState → MessageState → Bool
same_state a b = number a == number b

-- `HTTPMessage`, with `extra` for the members that the class derived from it adds.
pub record HttpMessage (E : Type 0) : Type 0 where
  pub expected_size : Bool × ℕ
  pub first_line : Bytes
  pub headers : List HttpHeader
  pub body : Bytes
  pub state : MessageState
  pub extra : E

-- `size_t( -1 )`
abbrev pub unknown_size : ℕ
unknown_size = 2 ^ 64 - 1

-- The virtual methods.
pub record Methods (E : Type 0) : Type 0 where
  pub calculate_expected_body_size : HttpMessage E → Result (HttpMessage E)
  pub read_in_complex_body : Bytes → HttpMessage E → Result (ℕ × HttpMessage E)
  pub eof_in_body : HttpMessage E → Result Bool

-- `http_to_lower( c )`
abbrev pub http_to_lower : ℕ → ℕ
http_to_lower c = if leb b'A' c && leb c b'Z' then c + 32 else c

abbrev pub same_letters : Bytes → Bytes → Bool
same_letters [] [] = true
same_letters [] (d ∷ t) = false
same_letters (c ∷ s) [] = false
same_letters (c ∷ s) (d ∷ t) = http_to_lower c == http_to_lower d && same_letters s t

-- `from_nonspace` is `strip_initial_whitespace`.
unfoldable pub equivalent_strings : Bytes → Bytes → Bool
equivalent_strings a b =
    let new_a = from_nonspace a in
    let new_b = from_nonspace b in
    if length new_a == length new_b then same_letters new_a new_b else false

-- The loops of `has_header` and `get_header_value` over the headers.
abbrev pub has_key : Bytes → List HttpHeader → Bool
has_key name [] = false
has_key name (h ∷ hs) =
    let later = has_key name hs in if equivalent_strings h.key name then true else later

abbrev pub value_of : Bytes → List HttpHeader → Result Bytes
value_of name [] = fail thrown
value_of name (h ∷ hs) =
    let later = value_of name hs in if equivalent_strings h.key name then ok h.value else later

abbrev pub lines : List HttpHeader → Bytes → Bytes
lines [] behind = behind
lines (h ∷ hs) behind = Header.str h ++ (crlf ++ lines hs behind)

module _ {E : Type 0} where
  abbrev pub has_header : Bytes → HttpMessage E → Bool
  has_header name m = has_key name m.headers

  abbrev pub get_header_value : Bytes → HttpMessage E → Result Bytes
  get_header_value name m = value_of name m.headers

  unfoldable pub set_first_line : Bytes → HttpMessage E → Result (HttpMessage E)
  set_first_line line m = do
    assert (same_state m.state first_line_pending)
    ok (record m { first_line = line; state = headers_pending })

  unfoldable pub add_header : Bytes → HttpMessage E → Result (HttpMessage E)
  add_header line m = do
    assert (same_state m.state headers_pending)
    header ← http_header line
    ok (record m { headers = m.headers ++ header ∷ [] })

  unfoldable pub set_expected_body_size : Bool → ℕ → HttpMessage E → Result (HttpMessage E)
  set_expected_body_size is_known value m = do
    assert (same_state m.state body_pending)
    ok (record m { expected_size = (is_known, value) })

  unfoldable pub body_size_is_known : HttpMessage E → Result Bool
  body_size_is_known m = do
    assert (ltb (number headers_pending) (number m.state))
    ok m.expected_size.0

  unfoldable pub expected_body_size : HttpMessage E → Result ℕ
  unfolding body_size_is_known
  expected_body_size m = do known ← body_size_is_known m; assert known; ok m.expected_size.1

  -- `str()`
  unfoldable pub str : HttpMessage E → Result Bytes
  str m = do
    assert (same_state m.state complete)
    ok (m.first_line ++ (crlf ++ lines m.headers (crlf ++ m.body)))

  module _ (methods : Methods E) where
    unfoldable pub done_with_headers : HttpMessage E → Result (HttpMessage E)
    done_with_headers m = do
      assert (same_state m.state headers_pending)
      methods.calculate_expected_body_size (record m { state = body_pending })

    unfoldable pub read_in_body : Bytes → HttpMessage E → Result (ℕ × HttpMessage E)
    unfolding body_size_is_known expected_body_size
    read_in_body str m = do
      assert (same_state m.state body_pending)
      known ← body_size_is_known m
      elim known [
        | true ↦ do
          size ← expected_body_size m
          assert (leb (length m.body) size)
          let amount_to_append = min (size - length m.body) (length str)
          let body1 = m.body ++ take amount_to_append str
          ok (
            amount_to_append,
            record m { body = body1; state = if length body1 == size then complete else m.state },
          )
        | false ↦ methods.read_in_complex_body str m
      ]

    unfoldable pub eof : HttpMessage E → Result (HttpMessage E)
    eof m = elim m.state [
      | first_line_pending ↦ ok m
      | headers_pending ↦ fail thrown
      | body_pending ↦ do
        ends ← methods.eof_in_body m
        ok (record m { state = if ends then complete else m.state })
      | complete ↦ do assert false; ok m
    ]
