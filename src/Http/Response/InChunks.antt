-- ===== src/Http/Response/InChunks.antt =====
-- A response with its body in chunks, read by the parser of responses.
use octopus_mahimahi.Common.{
  ℕ, ◌+◌, ◌≡◌, ◌≢◌, ◌<◌, ◌^◌, refl, ap, sym, ◌∙◌, subst, true, false, List, [], ◌∷◌, ◌++◌,
  append_assoc, append-nil, Option, none, some, ok, Returns, Result-cases, inl, inr, ◌>>=◌, arith,
  null, length, length-append, All, codes,
}
use octopus_mahimahi.Packet.{Bytes}
use octopus_mahimahi.ByteStream.Ring.{take-append_length, drop-append_length}
use octopus_mahimahi.Header.{HttpHeader}
use octopus_mahimahi.Chunked.{ChunkedParser, chunked_parser, crlf, read}
use octopus_mahimahi.Chunked.Bodies.{
  IsChunk, IsEnd, encode, encoded_length, encode-length, read-body,
}
use octopus_mahimahi.Http.Message.{
  first_line_pending, headers_pending, body_pending, complete, done_with_headers,
  set_expected_body_size, lines, has_key, unknown_size,
}
use octopus_mahimahi.Http.Sequence.{Sequence, take_header, parse}
use octopus_mahimahi.Http.Sequence.Bodies.{read_unknown}
use octopus_mahimahi.Http.Sequence.Steps.{
  headers_with, body_with, headers_at, body_at, body_ends, first_line_waits,
}
use octopus_mahimahi.Http.Sequence.Follows.{feed, parse_some}
use octopus_mahimahi.Http.Sequence.Rounds.{step_in, run, run_on, run_stops}
use octopus_mahimahi.Http.Sequence.Messages.{
  IsLine, pop_line, at_work, first_line_round, headers_rounds,
}
use octopus_mahimahi.Http.Request.{HttpRequest}
use octopus_mahimahi.Http.Response.{
  HttpResponse, ResponseMembers, chunked, http_response, with_parser, has_no_body, is_chunked,
  calculate_expected_body_size, read_in_complex_body, set_request, initialize_new_message, methods,
  response_kind, response_parser,
}

-- The response to `r` with its first line and headers, before its body.
abbrev pub begun : HttpRequest → Bytes → List HttpHeader → HttpResponse
begun r line hs = record http_response {
  first_line = line;
  headers = hs;
  state = body_pending;
  extra = record { request = r; body_parser = none };
}

-- The response to `r`, whose body has ended in chunks.
abbrev pub ended : HttpRequest → Bytes → List HttpHeader → Bytes → ChunkedParser → HttpResponse
ended r line hs body p = record (begun r line hs) {
  body = body;
  state = complete;
  extra = record { request = r; body_parser = some (chunked p) };
}

-- A first line and headers that can be read back, and that announce a body in chunks, without
-- trailers, in answer to `r`.
pub record IsInChunks (r : HttpRequest) (line : Bytes) (hs : List HttpHeader) : Type 0 where
  pub first : All (λ c. c ≢ 13) line
  pub each_header : All IsLine hs
  pub with_body : has_no_body (begun r line hs) ≡ ok false
  pub in_chunks : is_chunked (begun r line hs) ≡ ok true
  pub no_trailers : has_key (codes "Trailer") hs ≡ false

module _ (strtol : Bytes → ℕ → Option (ℕ × ℕ)) where
  -- The body: chunks, and the line that ends them.
  abbrev pub body_of : List (Bytes × Bytes) → Bytes → Bytes
  body_of chunks last = encode strtol chunks (last ++ (crlf ++ crlf))

  encode-append :
      (chunks : List (Bytes × Bytes)) (b rest : Bytes)
      → encode strtol chunks b ++ rest ≡ encode strtol chunks (b ++ rest)
  unfolding encode
  encode-append [] b rest = refl
  encode-append ((line, bytes) ∷ chunks) b rest =
      append_assoc line (crlf ++ (bytes ++ (crlf ++ encode strtol chunks b))) rest
      ∙ ap (λ t. line ++ (crlf ++ t))
          (append_assoc bytes (crlf ++ encode strtol chunks b) rest
            ∙ ap (λ t. bytes ++ (crlf ++ t)) (encode-append chunks b rest))

  body_of-append :
      (chunks : List (Bytes × Bytes)) (last rest : Bytes)
      → body_of chunks last ++ rest ≡ encode strtol chunks (last ++ (crlf ++ (crlf ++ rest)))
  body_of-append chunks last rest =
      encode-append chunks (last ++ (crlf ++ crlf)) rest
      ∙ ap (encode strtol chunks) (append_assoc last (crlf ++ crlf) rest)

  body_of-length :
      (chunks : List (Bytes × Bytes)) (last : Bytes)
      → length (body_of chunks last) ≡ encoded_length strtol chunks + (length last + 4)
  body_of-length chunks last = omega (
    arith,
    encode-length strtol chunks (last ++ (crlf ++ crlf)),
    length-append last (crlf ++ crlf),
  )

  -- The message, ready to read its body.
  abbrev reading : HttpRequest → Bytes → List HttpHeader → HttpResponse
  reading r line hs =
      with_parser (chunked (chunked_parser false))
        (record (begun r line hs) { expected_size = (false, unknown_size) })

  take_blank :
      (r : HttpRequest) (line : Bytes) (hs : List HttpHeader)
      → IsInChunks r line hs
      → take_header (response_kind strtol) [] (record (begun r line hs) { state = headers_pending })
        ≡ ok (reading r line hs)
  unfolding done_with_headers calculate_expected_body_size set_expected_body_size
  take_blank r line hs h = ground (arith, h.with_body, h.in_chunks, h.no_trailers)

  read_chunks :
      (r : HttpRequest) (line : Bytes) (hs : List HttpHeader) (b rest : Bytes) (p : ChunkedParser)
      → read strtol (b ++ rest) (chunked_parser false) ≡ ok (some (length b), p)
      → read_in_complex_body strtol (b ++ rest) (reading r line hs)
        ≡ ok (length b, ended r line hs b p)
  unfolding read_in_complex_body
  read_chunks r line hs b rest p e =
      rw (e, read_in_complex_body)
        (ap (λ t. ok (length b, ended r line hs t p)) (take-append_length b rest (length b) refl))

  blank_round :
      (q : Sequence ResponseMembers (List HttpRequest)) (r : HttpRequest) (line : Bytes)
      (hs : List HttpHeader) (rest : Bytes)
      → IsInChunks r line hs
      → run
          (response_kind strtol)
          (at_work q (record (begun r line hs) { state = headers_pending }) (crlf ++ rest))
        ≡ run (response_kind strtol) (at_work q (reading r line hs) rest)
  unfolding headers_with
  blank_round q r line hs rest h =
      let kind = response_kind strtol in
      let q0 = at_work q (record (begun r line hs) { state = headers_pending }) (crlf ++ rest) in
      run_on kind refl q0 _ (
        step_in kind headers_pending q0 refl
        ∙ headers_at kind q0 refl
        ∙ ap (headers_with kind q0) (pop_line [] rest tt)
        ∙ ap (λ x. x >>= λ m. ok (true, at_work q m rest)) (take_blank r line hs h))

  body_rounds :
      (q : Sequence ResponseMembers (List HttpRequest)) (r : HttpRequest) (line : Bytes)
      (hs : List HttpHeader) (b rest : Bytes) (p : ChunkedParser)
      → read strtol (b ++ rest) (chunked_parser false) ≡ ok (some (length b), p)
      → run (response_kind strtol) (at_work q (reading r line hs) (b ++ rest))
        ≡ run (response_kind strtol) (record q {
          complete_messages = q.complete_messages ++ ended r line hs b p ∷ [];
          message_in_progress = http_response;
          buffer = rest;
        })
  unfolding body_with
  body_rounds q r line hs b rest p e =
      let kind = response_kind strtol in
      let q0 = at_work q (reading r line hs) (b ++ rest) in
      let q1 = at_work q (ended r line hs b p) rest in
      run_on kind refl q0 q1 (
        step_in kind body_pending q0 refl
        ∙ body_at kind q0
        ∙ ap (λ x. x >>= λ t. body_with kind q0 t)
            (read_unknown (methods strtol) (b ++ rest) (reading r line hs) refl refl
              ∙ read_chunks r line hs b rest p e)
        ∙ body_ends kind q0 (length b) (ended r line hs b p) (omega (arith, length-append b rest))
            refl
        ∙ ap (λ t. ok (true, at_work q (ended r line hs b p) t))
            (drop-append_length b rest (length b) refl))
      ∙ run_on kind refl q1 _ (step_in kind complete q1 refl)

  read-body_of :
      (chunks : List (Bytes × Bytes)) (last rest : Bytes)
      → All (IsChunk strtol) chunks
      → IsEnd strtol last
      → length (body_of chunks last) < 2 ^ 64
      → (p : ChunkedParser) × (read strtol (body_of chunks last ++ rest) (chunked_parser false)
          ≡ ok (some (length (body_of chunks last)), p))
  read-body_of chunks last rest c e h =
      let size = body_of-length chunks last in
      let returns = read-body strtol chunks last rest c e (omega (arith, size, h)) in
      let same = ap (λ t. read strtol t (chunked_parser false)) (body_of-append chunks last rest) in
      elim (Result-cases (read strtol (body_of chunks last ++ rest) (chunked_parser false))) [
        | inl ((n, p), eq) ↦
            let given =
              subst (Returns (λ r. r.0 ≡ some (encoded_length strtol chunks + (length last + 4))))
                (sym same ∙ eq) returns in
            (p, eq ∙ ap (λ t. ok (t, p)) (given ∙ ap some (sym size)))
        | inr (x, eq) ↦ absurd (
            subst (Returns (λ r. r.0 ≡ some (encoded_length strtol chunks + (length last + 4))))
              (sym same ∙ eq) returns)
      ]

  null-behind : (s t : Bytes) → null t ≡ false → null (s ++ t) ≡ false
  null-behind [] t n = n
  null-behind (c ∷ s) t n = refl

  -- A parser of responses that waits for the response to `r`, and is given a first line and headers
  -- which announce chunks without trailers, well-formed chunks and the end of a body below 2^64
  -- bytes, has this response complete, with `r` as its request and all of the chunks in its
  -- body as they came, nothing in progress and nothing left to read.
  pub responses-parse-chunks :
      (r : HttpRequest) (rs : List HttpRequest) (line : Bytes) (hs : List HttpHeader)
      (chunks : List (Bytes × Bytes)) (last : Bytes)
      → IsInChunks r line hs
      → All (IsChunk strtol) chunks
      → IsEnd strtol last
      → length (body_of chunks last) < 2 ^ 64
      → (p : ChunkedParser) × (parse
            (response_kind strtol)
            (line ++ (crlf ++ lines hs (crlf ++ body_of chunks last)))
            (record response_parser { derived = r ∷ rs })
          ≡ ok (record response_parser {
            complete_messages = ended r line hs (body_of chunks last) p ∷ [];
            derived = rs;
          }))
  unfolding feed initialize_new_message set_request
  responses-parse-chunks r rs line hs chunks last h c e small =
      let kind = response_kind strtol in
      let b = body_of chunks last in
      let text = line ++ (crlf ++ lines hs (crlf ++ b)) in
      let q = record response_parser { derived = r ∷ rs } in
      let q1 = record response_parser { derived = rs } in
      let (p, taken) = read-body_of chunks last [] c e small in
      let new = record (begun r line hs) { headers = []; state = headers_pending } in
      let end_state = record q1 { complete_messages = ended r line hs b p ∷ [] } in
      (
        p,
        parse_some kind text q (null-behind line (crlf ++ lines hs (crlf ++ b)) refl)
            ∙ first_line_round kind refl q http_response
                (record http_response { extra = record { request = r; body_parser = none } }) rs
                line (lines hs (crlf ++ b)) refl refl refl h.first
            ∙ headers_rounds kind refl q1 new hs (crlf ++ b) refl h.each_header
            ∙ blank_round q1 r line hs b h
            ∙ ap (λ t. run kind (at_work q1 (reading r line hs) t)) (sym (append-nil b))
            ∙ body_rounds q1 r line hs b [] p taken
            ∙ run_stops kind refl end_state end_state (
                step_in kind first_line_pending end_state refl
                ∙ first_line_waits kind end_state refl),
      )
