-- ===== src/Http/Response/Kept.antt =====
-- The parsing of a response keeps it with its request.
use octopus_mahimahi.Common.{
  ℕ, ◌+◌, ◌≡◌, ◌≢◌, refl, ap, sym, ◌∙◌, Bool, true, false, List, [], ◌∷◌, ◌++◌, map, append_assoc,
  Option, ok, Ends, Ends-bind, Ends-map, Bool-cases, Option-cases, inl, inr, arith, null,
  if◌then◌else◌,
}
use mathlib.Core.List.{map-append}
use octopus_mahimahi.Packet.{Bytes}
use octopus_mahimahi.Http.Message.{
  MessageState, first_line_pending, headers_pending, body_pending, complete, set_first_line,
  add_header, done_with_headers, read_in_body, set_expected_body_size, body_size_is_known,
  expected_body_size, eof,
}
use octopus_mahimahi.Http.Sequence.{
  Sequence, take_header, first_line_step, headers_step, body_step, complete_step, parsing_step,
  parse, work, have_complete_line, get_and_pop_line,
}
use octopus_mahimahi.Http.Sequence.Rounds.{by_state, loop-Ends}
use octopus_mahimahi.Http.Request.{HttpRequest}
use octopus_mahimahi.Chunked.Stops.{Stops}
use octopus_mahimahi.Http.Response.Stops.{
  has_no_body-Stops, is_chunked-Stops, content_length-Stops, is_multipart-Stops, parser_read-Stops,
  http_header-Stops, get_and_pop_line-Stops,
}
use octopus_mahimahi.Http.Response.{
  HttpResponse, ResponseMembers, calculate_expected_body_size, read_in_complex_body, set_request,
  initialize_new_message, methods, response_kind, eof_in_body,
}

abbrev pub Parser : Type 0
Parser = Sequence ResponseMembers (List HttpRequest)

abbrev pub request_of : HttpResponse → HttpRequest
request_of m = m.extra.request

-- A response in progress has its request from its first line on.
abbrev pub answering : MessageState → HttpRequest → List HttpRequest
answering first_line_pending r = []
answering _ r = r ∷ []

abbrev pub matched : Parser → List HttpRequest
matched q =
    map request_of q.complete_messages
    ++ (answering q.message_in_progress.state (request_of q.message_in_progress) ++ q.derived)

either : (b : Bool) (A : Type 0) → A → if b then A else A
either true A a = a
either false A a = a

-- The message goes on as the response to its request.
abbrev GoesOn : HttpResponse → HttpResponse → Type 0
GoesOn m r = (request_of r ≡ request_of m) × (r.state ≢ first_line_pending)

module _ (strtol : Bytes → ℕ → Option (ℕ × ℕ)) where
  calculate-GoesOn :
      (m : HttpResponse)
      → m.state ≡ body_pending
      → Ends Stops (GoesOn m) (calculate_expected_body_size strtol m)
  unfolding calculate_expected_body_size set_expected_body_size
  calculate-GoesOn m s = ground (
    arith,
    s,
    has_no_body-Stops m,
    is_chunked-Stops m,
    content_length-Stops strtol m,
    is_multipart-Stops m,
  )

  complex-GoesOn :
      (str : Bytes) (m : HttpResponse)
      → Ends Stops (λ r. GoesOn m r.1) (read_in_complex_body strtol str m)
  unfolding read_in_complex_body
  complex-GoesOn str m = elim (Option-cases m.extra.body_parser) [
    | inl e ↦ ground (arith, e)
    | inr (p, e) ↦ ground (arith, e, parser_read-Stops strtol str p)
  ]

  take_header-GoesOn :
      (line : Bytes) (m : HttpResponse)
      → m.state ≡ headers_pending
      → Ends Stops (GoesOn m) (take_header (response_kind strtol) line m)
  unfolding add_header done_with_headers
  take_header-GoesOn [] m s =
      let begun = record m { state = body_pending } in
      ground (arith, s, calculate-GoesOn begun refl)
  take_header-GoesOn (c ∷ line) m s = ground (arith, s, http_header-Stops (c ∷ line))

  read_in_body-GoesOn :
      (str : Bytes) (m : HttpResponse)
      → Ends Stops (λ r. GoesOn m r.1) (read_in_body (methods strtol) str m)
  unfolding read_in_body body_size_is_known expected_body_size
  read_in_body-GoesOn str m = ground (arith, complex-GoesOn str m)

  eof-GoesOn :
      (m : HttpResponse)
      → Ends Stops
          (λ r. answering r.state (request_of r) ≡ answering m.state (request_of m))
          (eof (methods strtol) m)
  unfolding eof eof_in_body
  eof-GoesOn m = ground arith

  begin_lem :
      (buf : Bytes) (q : Parser)
      → Ends Stops
          (λ r.
            answering r.state (request_of r)
            ≡ answering q.message_in_progress.state (request_of q.message_in_progress))
          (if null buf
            then eof (methods strtol) q.message_in_progress
            else ok q.message_in_progress)
  begin_lem [] q = eof-GoesOn q.message_in_progress
  begin_lem (c ∷ buf) q = refl

  -- The same requests have arrived.
  abbrev pub Same : Parser → Parser → Type 0
  Same q r = matched r ≡ matched q

  answering-GoesOn :
      (m r : HttpResponse) → GoesOn m r → answering r.state (request_of r) ≡ request_of m ∷ []
  answering-GoesOn m r g = ground (arith, g.0, g.1)

  kept :
      (q : Parser) (m : HttpResponse)
      → answering m.state (request_of m)
        ≡ answering q.message_in_progress.state (request_of q.message_in_progress)
      → Same q (record q { message_in_progress = m })
  kept q m e = ap (λ t. map request_of q.complete_messages ++ (t ++ q.derived)) e

  first_line_Same :
      (q : Parser)
      → q.message_in_progress.state ≡ first_line_pending
      → Ends Stops (λ r. Same q r.1) (first_line_step (response_kind strtol) q)
  unfolding first_line_step initialize_new_message set_request set_first_line
  first_line_Same q s = ground (
    arith,
    ap (λ t. answering t (request_of q.message_in_progress)) s,
    get_and_pop_line-Stops q.buffer,
  )

  headers_Same :
      (q : Parser)
      → q.message_in_progress.state ≡ headers_pending
      → Ends Stops (λ r. Same q r.1) (headers_step (response_kind strtol) q)
  unfolding headers_step
  headers_Same q s = elim (Bool-cases (have_complete_line q.buffer)) [
    | inl e ↦
        rw (e, headers_step)
          (Ends-bind Stops (λ l. Unit) (λ r. Same q r.1) (get_and_pop_line q.buffer) _
            (get_and_pop_line-Stops q.buffer)
            λ l u.
              Ends-bind Stops (GoesOn q.message_in_progress) (λ r. Same q r.1)
                (take_header (response_kind strtol) l.0 q.message_in_progress) _
                (take_header-GoesOn l.0 q.message_in_progress s)
                λ m g. kept q m (
                  answering-GoesOn q.message_in_progress m g
                  ∙ sym (ap (λ t. answering t (request_of q.message_in_progress)) s)))
    | inr e ↦ rw (e, headers_step) refl
  ]

  body_Same :
      (q : Parser)
      → q.message_in_progress.state ≡ body_pending
      → Ends Stops (λ r. Same q r.1) (body_step (response_kind strtol) q)
  unfolding body_step
  body_Same q s =
      Ends-bind Stops (λ r. GoesOn q.message_in_progress r.1) (λ r. Same q r.1)
        (read_in_body (methods strtol) q.buffer q.message_in_progress) _
        (read_in_body-GoesOn q.buffer q.message_in_progress)
        λ r g.
          let same = kept q r.1 (
            answering-GoesOn q.message_in_progress r.1 g
            ∙ sym (ap (λ t. answering t (request_of q.message_in_progress)) s)) in
          ground (arith, same)

  complete_Same :
      (q : Parser)
      → q.message_in_progress.state ≡ complete
      → Ends Stops (λ r. Same q r.1) (complete_step (response_kind strtol) q)
  complete_Same q s =
      ap (λ t. t ++ q.derived)
        (map-append request_of q.complete_messages (q.message_in_progress ∷ []))
      ∙ append_assoc (map request_of q.complete_messages) (request_of q.message_in_progress ∷ [])
          q.derived
      ∙ ap
          (λ t.
            map request_of q.complete_messages
            ++ (answering t (request_of q.message_in_progress) ++ q.derived))
          (sym s)

  step-Same : (q : Parser) → Ends Stops (λ r. Same q r.1) (parsing_step (response_kind strtol) q)
  step-Same q =
      by_state (response_kind strtol) (Ends Stops (λ r. Same q r.1)) q (first_line_Same q)
        (headers_Same q) (body_Same q) (complete_Same q)

  step-Kept :
      (p q : Parser)
      → Same p q
      → Ends Stops
          (λ r. if r.0 then Same p r.1 else Same p r.1)
          (parsing_step (response_kind strtol) q)
  step-Kept p q h =
      Ends-map Stops (λ r. Same q r.1) _ (parsing_step (response_kind strtol) q) (step-Same q)
        λ r k. either r.0 (Same p r.1) (k ∙ h)

  pub parse-Same :
      (buf : Bytes) (q : Parser) → Ends Stops (Same q) (parse (response_kind strtol) buf q)
  unfolding parse
  parse-Same buf q =
      Ends-bind Stops
        (λ r.
          answering r.state (request_of r)
          ≡ answering q.message_in_progress.state (request_of q.message_in_progress))
        (Same q)
        (if null buf then eof (methods strtol) q.message_in_progress else ok q.message_in_progress)
        _ (begin_lem buf q)
        λ m e.
          let q1 = record q { message_in_progress = m; buffer = q.buffer ++ buf } in
          loop-Ends (response_kind strtol) refl Stops (Same q) (Same q) (step-Kept q) (work q1 + 1)
            q1 (kept q m e) (omega arith)
