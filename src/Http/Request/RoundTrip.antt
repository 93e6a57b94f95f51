-- ===== src/Http/Request/RoundTrip.antt =====
-- Requests read back from the bytes that `str` makes of them.
use octopus_mahimahi.Common.{
  ℕ, ◌-◌, ◌≡◌, ◌≢◌, refl, ap, ap₂, sym, ◌∙◌, true, false, List, [], ◌∷◌, ◌++◌, append-nil,
  append_assoc, Option, Result, ok, ◌>>=◌, All, arith, length, null, take, length-append,
}
use octopus_mahimahi.ByteStream.Ring.{take-append_length, drop-append_length}
use octopus_mahimahi.Packet.{Bytes}
use octopus_mahimahi.Chunked.{crlf}
use octopus_mahimahi.Http.Message.{
  first_line_pending, headers_pending, body_pending, complete, lines, str, done_with_headers, eof,
}
use octopus_mahimahi.Http.Sequence.{Sequence, take_header, parse}
use octopus_mahimahi.Http.Sequence.Bodies.{read_full}
use octopus_mahimahi.Http.Sequence.Steps.{
  headers_with, body_with, headers_at, body_at, body_ends, first_line_waits,
}
use octopus_mahimahi.Http.Sequence.Rounds.{step_in, run, run_on, run_stops}
use octopus_mahimahi.Http.Sequence.Follows.{feed, parse_some}
use octopus_mahimahi.Http.Sequence.Messages.{
  IsLine, pop_line, lines-append, at_work, first_line_round, headers_rounds,
}
use octopus_mahimahi.Http.Request.{
  HttpRequest, http_request, methods, request_kind, request_parser, calculate_expected_body_size,
}
use octopus_mahimahi.Http.Request.Demands.{demanded, calculate-demanded}

module _ (strtol : Bytes → ℕ → Option (ℕ × ℕ)) where
  -- A request that is complete, of which each line can be read back, and whose body has the size
  -- that its first line and headers demand.
  pub record IsReadable (m : HttpRequest) : Type 0 where
    pub is_complete : m.state ≡ complete
    pub first : All (λ c. c ≢ 13) m.first_line
    pub each_header : All IsLine m.headers
    pub sized : demanded strtol m.first_line m.headers ≡ ok (length m.body)
    pub expected : m.expected_size ≡ (true, length m.body)

  -- `str()` of a complete request.
  pub wire : HttpRequest → Bytes
  wire m = m.first_line ++ (crlf ++ lines m.headers (crlf ++ m.body))

  str-wire : (m : HttpRequest) → m.state ≡ complete → str m ≡ ok (wire m)
  unfolding str wire
  str-wire m h = ground (arith, h)

  blank_round :
      (q : Sequence (Unit {0}) (Unit {0})) (m : HttpRequest) (n : ℕ) (rest : Bytes)
      → m.state ≡ headers_pending
      → demanded strtol m.first_line m.headers ≡ ok n
      → run (request_kind strtol) (at_work q m (crlf ++ rest))
        ≡ run
            (request_kind strtol)
            (at_work q (record m { state = body_pending; expected_size = (true, n) }) rest)
  unfolding headers_with done_with_headers
  blank_round q m n rest s d =
      let kind = request_kind strtol in
      let q0 = at_work q m (crlf ++ rest) in
      let started : take_header kind [] m
          ≡ calculate_expected_body_size strtol (record m { state = body_pending }) =
        ground (arith, s) in
      let sized =
        started
        ∙ calculate-demanded strtol (record m { state = body_pending }) refl
        ∙ ap (λ x. x >>= λ n. ok (record m { state = body_pending; expected_size = (true, n) }))
            d in
      run_on kind refl q0 _ (
        step_in kind headers_pending q0 s
        ∙ headers_at kind q0 refl
        ∙ ap (headers_with kind q0) (pop_line [] rest tt)
        ∙ ap (λ x. x >>= λ m. ok (true, at_work q m rest)) sized)

  body_round :
      (q : Sequence (Unit {0}) (Unit {0})) (m : HttpRequest) (bytes rest : Bytes)
      → m.state ≡ body_pending
      → m.expected_size ≡ (true, length bytes)
      → m.body ≡ []
      → run (request_kind strtol) (at_work q m (bytes ++ rest))
        ≡ run (request_kind strtol) (at_work q (record m { body = bytes; state = complete }) rest)
  unfolding body_with
  body_round q m bytes rest s e b =
      let kind = request_kind strtol in
      let q0 = at_work q m (bytes ++ rest) in
      let known = ap (λ p. p.0) e in
      let size = ap (λ p. p.1) e in
      let none_yet = ap length b in
      let room : m.expected_size.1 - length m.body ≡ length bytes = omega (arith, size, none_yet) in
      let held = length-append bytes rest in
      let taken =
        read_full (methods strtol) (bytes ++ rest) m s known (omega (arith, none_yet))
          (omega (arith, size, none_yet, held))
        ∙ ap (λ n. ok (n, record m { body = m.body ++ take n (bytes ++ rest); state = complete }))
            room
        ∙ ap (λ t. ok (length bytes, record m { body = t; state = complete }))
            (ap₂ (λ u v. u ++ v) b (take-append_length bytes rest (length bytes) refl)) in
      run_on kind refl q0 _ (
        step_in kind body_pending q0 s
        ∙ body_at kind q0
        ∙ ap (λ x. x >>= λ r. body_with kind q0 r) taken
        ∙ body_ends kind q0 (length bytes) (record m { body = bytes; state = complete })
            (omega (arith, held)) refl
        ∙ ap (λ t. ok (true, at_work q (record m { body = bytes; state = complete }) t))
            (drop-append_length bytes rest (length bytes) refl))

  -- One request, with anything behind it.
  request_rounds :
      (q : Sequence (Unit {0}) (Unit {0})) (m : HttpRequest) (rest : Bytes)
      → IsReadable m
      → run (request_kind strtol) (at_work q http_request (wire m ++ rest))
        ≡ run (request_kind strtol) (record q {
          complete_messages = q.complete_messages ++ m ∷ [];
          message_in_progress = http_request;
          buffer = rest;
        })
  unfolding wire
  request_rounds q m rest h =
      let kind = request_kind strtol in
      let m1 = record http_request { first_line = m.first_line; state = headers_pending } in
      let m2 = record m1 { headers = m.headers } in
      let m3 = record m2 { state = body_pending; expected_size = (true, length m.body) } in
      let m4 = record m3 { body = m.body; state = complete } in
      let q4 = at_work q m4 rest in
      let text : wire m ++ rest
          ≡ m.first_line ++ (crlf ++ lines m.headers (crlf ++ (m.body ++ rest))) =
        append_assoc m.first_line (crlf ++ lines m.headers (crlf ++ m.body)) rest
        ∙ ap (λ t. m.first_line ++ (crlf ++ t)) (lines-append m.headers (crlf ++ m.body) rest) in
      let read : m4 ≡ m =
        ap₂ (λ s e. record m { state = s; expected_size = e }) (sym h.is_complete)
          (sym h.expected) in
      ap (λ t. run kind (at_work q http_request t)) text
      ∙ first_line_round kind refl q http_request http_request tt m.first_line
          (lines m.headers (crlf ++ (m.body ++ rest))) refl refl refl h.first
      ∙ headers_rounds kind refl q m1 m.headers (crlf ++ (m.body ++ rest)) refl h.each_header
      ∙ blank_round q m2 (length m.body) (m.body ++ rest) refl h.sized
      ∙ body_round q m3 m.body rest refl refl refl
      ∙ run_on kind refl q4 _ (step_in kind complete q4 refl)
      ∙ ap
          (λ t. run kind (record q {
            complete_messages = q.complete_messages ++ t ∷ [];
            message_in_progress = http_request;
            buffer = rest;
          }))
          read

  -- The bytes of requests one after another.
  abbrev pub printed : List HttpRequest → Result Bytes
  printed [] = ok []
  printed (m ∷ ms) = do text ← str m; texts ← printed ms; ok (text ++ texts)

  wires : List HttpRequest → Bytes
  wires [] = []
  wires (m ∷ ms) = wire m ++ wires ms

  printed-wires : (ms : List HttpRequest) → All IsReadable ms → printed ms ≡ ok (wires ms)
  unfolding wires
  printed-wires [] h = refl
  printed-wires (m ∷ ms) h =
      ap (λ x. x >>= λ text. printed ms >>= λ texts. ok (text ++ texts))
        (str-wire m h.0.is_complete)
      ∙ ap (λ x. x >>= λ texts. ok (wire m ++ texts)) (printed-wires ms h.1)

  requests_rounds :
      (q : Sequence (Unit {0}) (Unit {0})) (ms : List HttpRequest)
      → All IsReadable ms
      → run (request_kind strtol) (at_work q http_request (wires ms))
        ≡ run (request_kind strtol) (record q {
          complete_messages = q.complete_messages ++ ms;
          message_in_progress = http_request;
          buffer = [];
        })
  unfolding wires
  requests_rounds q [] h =
      ap
        (λ t.
          run (request_kind strtol)
            (record q { complete_messages = t; message_in_progress = http_request; buffer = [] }))
        (sym (append-nil q.complete_messages))
  requests_rounds q (m ∷ ms) h =
      request_rounds q m (wires ms) h.0
      ∙ requests_rounds (record q { complete_messages = q.complete_messages ++ m ∷ [] }) ms h.1
      ∙ ap
          (λ t.
            run (request_kind strtol)
              (record q { complete_messages = t; message_in_progress = http_request; buffer = [] }))
          (append_assoc q.complete_messages (m ∷ []) ms)

  at_rest :
      (ms : List HttpRequest)
      → run (request_kind strtol) (record request_parser { complete_messages = ms })
        ≡ ok (record request_parser { complete_messages = ms })
  at_rest ms =
      let kind = request_kind strtol in
      let q = record request_parser { complete_messages = ms } in
      run_stops kind refl q q
        (step_in kind first_line_pending q refl ∙ first_line_waits kind q refl)

  wire-null : (m : HttpRequest) (rest : Bytes) → null (wire m ++ rest) ≡ false
  unfolding wire
  wire-null m rest = null-behind m.first_line
    where
      null-behind :
          (s : Bytes) → null ((s ++ (crlf ++ lines m.headers (crlf ++ m.body))) ++ rest) ≡ false
      null-behind [] = refl
      null-behind (c ∷ s) = refl

  parse_nothing :
      parse (request_kind strtol) [] request_parser ≡ run (request_kind strtol) request_parser
  unfolding parse eof run
  parse_nothing = refl

  parse-wires :
      (ms : List HttpRequest)
      → All IsReadable ms
      → parse (request_kind strtol) (wires ms) request_parser
        ≡ ok (record request_parser { complete_messages = ms })
  unfolding wires feed
  parse-wires [] h = parse_nothing ∙ at_rest []
  parse-wires (m ∷ ms) h =
      parse_some (request_kind strtol) (wire m ++ wires ms) request_parser (wire-null m (wires ms))
      ∙ requests_rounds request_parser (m ∷ ms) h
      ∙ at_rest (m ∷ ms)

  -- A new parser of requests that is given the bytes of requests, which `str` makes, has exactly
  -- these requests complete, nothing in progress and nothing left to read. Each of the requests
  -- is complete, of each line the header is read back, and the body has the size that the first
  -- line and the headers demand.
  pub requests-parse-str :
      (ms : List HttpRequest)
      → All IsReadable ms
      → (printed ms >>= λ text. parse (request_kind strtol) text request_parser)
        ≡ ok (record request_parser { complete_messages = ms })
  requests-parse-str ms h =
      ap (λ x. x >>= λ text. parse (request_kind strtol) text request_parser) (printed-wires ms h)
      ∙ parse-wires ms h
