-- ===== src/Http/Request/Safe.antt =====
-- What the parser of requests keeps, whatever bytes come.
use octopus_mahimahi.Common.{
  ℕ, ◌+◌, ◌-◌, ◌≤◌, ◌≡◌, ◌≢◌, refl, ap, sym, ◌∙◌, subst, Bool, true, [], ◌∷◌, ◌++◌, Option, ok,
  Ends, Ends-bind, Result-cases, Bool-cases, inl, inr, ◌>>=◌, All, All-append, arith, length,
  length-append, null, take, drop, ltb, if◌then◌else◌,
}
use octopus_mahimahi.Packet.{Bytes}
use octopus_mahimahi.Http.Message.{
  MessageState, first_line_pending, headers_pending, body_pending, complete, set_first_line,
  add_header, done_with_headers, eof,
}
use octopus_mahimahi.Http.Sequence.{
  Sequence, have_complete_line, first_line_step, headers_step, body_step, take_header, parsing_step,
  parse, work,
}
use octopus_mahimahi.Http.Sequence.Lines.{has_line, popped, length-take}
use octopus_mahimahi.Http.Sequence.Bodies.{read_full, read_part}
use octopus_mahimahi.Http.Sequence.Steps.{
  set_in_first, first_line_with, headers_with, body_with, first_line_at, headers_at, body_at,
  body_ends, body_waits, first_line_waits, headers_wait,
}
use octopus_mahimahi.Http.Sequence.Rounds.{by_state, loop-Ends}
use octopus_mahimahi.Http.Request.{HttpRequest, methods, request_kind, calculate_expected_body_size}
use octopus_mahimahi.Http.Request.Demands.{
  Throws, demanded, calculate-demanded, demanded-Throws, http_header-Throws,
}

module _ (strtol : Bytes → ℕ → Option (ℕ × ℕ)) where
  -- A request that is complete has the bytes of body that its first line and headers demand.
  pub record IsWhole (m : HttpRequest) : Type 0 where
    pub ended : m.state ≡ complete
    pub sized : demanded strtol m.first_line m.headers ≡ ok (length m.body)

  abbrev Stage : HttpRequest → MessageState → Type 0
  Stage m first_line_pending = m.body ≡ []
  Stage m headers_pending = m.body ≡ []
  Stage m body_pending =
      (demanded strtol m.first_line m.headers ≡ ok m.expected_size.1)
      × ((m.expected_size.0 ≡ true) × (length m.body ≤ m.expected_size.1))
  Stage m complete = demanded strtol m.first_line m.headers ≡ ok (length m.body)

  -- The request in progress has a body no longer than demanded, and none before the body is due;
  -- the others are whole.
  pub record IsSound (q : Sequence (Unit {0}) (Unit {0})) : Type 0 where
    pub stage : Stage q.message_in_progress q.message_in_progress.state
    pub whole : All IsWhole q.complete_messages

  -- Between two calls, the message in progress is not complete.
  pub record IsReady (q : Sequence (Unit {0}) (Unit {0})) : Type 0 where
    pub sound : IsSound q
    pub in_progress : q.message_in_progress.state ≢ complete

  abbrev Next : Bool × Sequence (Unit {0}) (Unit {0}) → Type 0
  Next r = if r.0 then IsSound r.1 else IsReady r.1

  first_line_Next :
      (q : Sequence (Unit {0}) (Unit {0}))
      → IsSound q
      → q.message_in_progress.state ≡ first_line_pending
      → Ends Throws Next (first_line_step (request_kind strtol) q)
  unfolding first_line_with set_first_line
  first_line_Next q h s =
      let kind = request_kind strtol in
      let stage = subst (Stage q.message_in_progress) s h.stage in
      elim (Bool-cases (have_complete_line q.buffer)) [
        | inl e ↦
            let (i, found) = has_line q.buffer e in
            subst (Ends Throws Next)
              (sym (first_line_at kind q e ∙ ap (first_line_with kind q) (popped q.buffer i found)))
              (subst (Ends Throws Next)
                (sym (
                  ap
                    (λ x. x >>= λ m.
                      ok (
                        true,
                        record q { message_in_progress = m; buffer = drop (i + 2) q.buffer },
                      ))
                    (set_in_first (take i q.buffer) q.message_in_progress s)))
                (record { stage = stage; whole = h.whole }))
        | inr e ↦
            subst (Ends Throws Next) (sym (first_line_waits kind q e))
              (record { sound = h; in_progress = λ c. ground (arith, s, c) })
      ]

  take_blank :
      (m : HttpRequest)
      → m.state ≡ headers_pending
      → take_header (request_kind strtol) [] m ≡ (
          demanded strtol m.first_line m.headers >>= λ n.
          ok (record m { state = body_pending; expected_size = (true, n) }))
  unfolding done_with_headers
  take_blank m s =
      let started : take_header (request_kind strtol) [] m
          ≡ calculate_expected_body_size strtol (record m { state = body_pending }) =
        ground (arith, s) in
      started ∙ calculate-demanded strtol (record m { state = body_pending }) refl

  take_header_lem :
      (line : Bytes) (m : HttpRequest)
      → m.state ≡ headers_pending
      → m.body ≡ []
      → Ends Throws (λ r. Stage r r.state) (take_header (request_kind strtol) line m)
  unfolding add_header
  take_header_lem [] m s b =
      subst (Ends Throws (λ r. Stage r r.state)) (sym (take_blank m s))
        (elim (Result-cases (demanded strtol m.first_line m.headers)) [
          | inl (n, d) ↦ rw d (d, (refl, ground (arith, b)))
          | inr (x, d) ↦
              rw d
                (subst (Ends Throws (λ n. Unit)) d (demanded-Throws strtol m.first_line m.headers))
        ])
  take_header_lem (c ∷ line) m s b = ground (arith, s, b, http_header-Throws (c ∷ line))

  headers_Next :
      (q : Sequence (Unit {0}) (Unit {0}))
      → IsSound q
      → q.message_in_progress.state ≡ headers_pending
      → Ends Throws Next (headers_step (request_kind strtol) q)
  unfolding headers_with
  headers_Next q h s =
      let kind = request_kind strtol in
      let stage = subst (Stage q.message_in_progress) s h.stage in
      elim (Bool-cases (have_complete_line q.buffer)) [
        | inl e ↦
            let (i, found) = has_line q.buffer e in
            subst (Ends Throws Next)
              (sym (headers_at kind q e ∙ ap (headers_with kind q) (popped q.buffer i found)))
              (Ends-bind Throws (λ r. Stage r r.state) Next
                (take_header kind (take i q.buffer) q.message_in_progress) _
                (take_header_lem (take i q.buffer) q.message_in_progress s stage)
                λ m t. record { stage = t; whole = h.whole })
        | inr e ↦
            subst (Ends Throws Next) (sym (headers_wait kind q e))
              (record { sound = h; in_progress = λ c. ground (arith, s, c) })
      ]

  body_Next :
      (q : Sequence (Unit {0}) (Unit {0}))
      → IsSound q
      → q.message_in_progress.state ≡ body_pending
      → Ends Throws Next (body_step (request_kind strtol) q)
  body_Next q h s =
      let kind = request_kind strtol in
      let m = q.message_in_progress in
      let (sized, (known, fits)) = subst (Stage q.message_in_progress) s h.stage in
      elim (Bool-cases (ltb (length m.body + length q.buffer) m.expected_size.1)) [
        | inl e ↦
            let m1 = record m { body = m.body ++ q.buffer } in
            subst (Ends Throws Next)
              (sym (
                body_at kind q
                ∙ ap (λ x. x >>= λ r. body_with kind q r)
                    (read_part (methods strtol) q.buffer m s known (ground (arith, e)))
                ∙ body_waits kind q m1 s))
              (record {
                sound = record {
                  stage =
                      subst (Stage m1) (sym s)
                        (sized, (known, ground (arith, e, length-append m.body q.buffer)));
                  whole = h.whole;
                };
                in_progress = λ c. ground (arith, s, c);
              })
        | inr e ↦
            let room = m.expected_size.1 - length m.body in
            let m1 = record m { body = m.body ++ take room q.buffer; state = complete } in
            subst (Ends Throws Next)
              (sym (
                body_at kind q
                ∙ ap (λ x. x >>= λ r. body_with kind q r)
                    (read_full (methods strtol) q.buffer m s known fits (ground (arith, e)))
                ∙ body_ends kind q room m1 (ground (arith, e)) refl))
              (record {
                stage =
                    sized
                    ∙ ap ok (
                        ground (
                          arith,
                          e,
                          fits,
                          length-append m.body (take room q.buffer),
                          length-take room q.buffer,
                        ));
                whole = h.whole;
              })
      ]

  step-Next :
      (q : Sequence (Unit {0}) (Unit {0}))
      → IsSound q
      → Ends Throws Next (parsing_step (request_kind strtol) q)
  step-Next q h =
      by_state (request_kind strtol) (Ends Throws Next) q (first_line_Next q h) (headers_Next q h)
        (body_Next q h)
        λ s. record {
          stage = refl;
          whole =
              All-append IsWhole q.complete_messages (q.message_in_progress ∷ []) h.whole
                (record { ended = s; sized = subst (Stage q.message_in_progress) s h.stage }, tt);
        }

  eof_lem :
      (q : Sequence (Unit {0}) (Unit {0}))
      → IsReady q
      → Ends Throws (λ m. m ≡ q.message_in_progress) (eof (methods strtol) q.message_in_progress)
  unfolding eof
  eof_lem q h = ground (arith, h.in_progress)

  begin_lem :
      (buf : Bytes) (q : Sequence (Unit {0}) (Unit {0}))
      → IsReady q
      → Ends Throws
          (λ m. m ≡ q.message_in_progress)
          (if null buf
            then eof (methods strtol) q.message_in_progress
            else ok q.message_in_progress)
  begin_lem [] q h = eof_lem q h
  begin_lem (c ∷ buf) q h = refl

  -- The parser of requests is ready for more after each call or has thrown an exception: whatever
  -- bytes it is given, or the end of them, its loop ends and no assertion fails. The requests
  -- that it has completed have the bytes of body that their first lines and headers demand.
  pub parse-IsReady :
      (buf : Bytes) (q : Sequence (Unit {0}) (Unit {0}))
      → IsReady q
      → Ends Throws IsReady (parse (request_kind strtol) buf q)
  unfolding parse
  parse-IsReady buf q h =
      let kind = request_kind strtol in
      Ends-bind Throws (λ m. m ≡ q.message_in_progress) IsReady
        (if null buf then eof (methods strtol) q.message_in_progress else ok q.message_in_progress)
        _ (begin_lem buf q h)
        λ m e.
          let q1 = record q { message_in_progress = m; buffer = q.buffer ++ buf } in
          loop-Ends kind refl Throws IsSound IsReady step-Next (work q1 + 1) q1
            (record {
              stage = subst (λ t. Stage t t.state) (sym e) h.sound.stage;
              whole = h.sound.whole;
            })
            (omega arith)
