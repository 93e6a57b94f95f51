-- ===== src/Http/Response/Matching.antt =====
-- Responses belong to the requests in the order in which these have arrived.
use octopus_mahimahi.Common.{
  ℕ, ◌≡◌, refl, ap, sym, ◌∙◌, List, [], ◌∷◌, ◌++◌, map, append_assoc, append-nil, Option, Result,
  ok, fail, undefined, Ends, Ends-bind, Ends-map, List-cases, inl, inr, ◌>>=◌, arith,
}
use mathlib.Core.List.{map-append}
use octopus_mahimahi.Packet.{Bytes}
use octopus_mahimahi.Http.Sequence.{parse}
use octopus_mahimahi.Http.Request.{HttpRequest}
use octopus_mahimahi.Chunked.Stops.{Stops}
use octopus_mahimahi.Http.Response.{
  HttpResponse, new_request_arrived, response_kind, response_parser,
}
use octopus_mahimahi.Http.Response.Kept.{Parser, request_of, answering, matched, Same, parse-Same}

-- What can be done with a parser of responses.
pub data Call : Type 0 where
  arrives : HttpRequest → Call
  receives : Bytes → Call
  pops : Call

abbrev pub arrived : List Call → List HttpRequest
arrived [] = []
arrived (arrives r ∷ calls) = r ∷ arrived calls
arrived (receives buf ∷ calls) = arrived calls
arrived (pops ∷ calls) = arrived calls

-- What has been taken out, and the parser: `front` and `pop` after the other calls.
abbrev pub Exchange : Type 0
Exchange = List HttpResponse × Parser

abbrev pub pop : Exchange → Result Exchange
pop (out, q) = elim q.complete_messages [
  | [] ↦ fail undefined
  | m ∷ ms ↦ ok (out ++ m ∷ [], record q { complete_messages = ms })
]

module _ (strtol : Bytes → ℕ → Option (ℕ × ℕ)) where
  abbrev pub perform : Call → Exchange → Result Exchange
  perform (arrives r) x = ok (x.0, new_request_arrived r x.1)
  perform (receives buf) x = do q ← parse (response_kind strtol) buf x.1; ok (x.0, q)
  perform pops x = pop x

  unfoldable pub perform_all : List Call → Exchange → Result Exchange
  perform_all [] x = ok x
  perform_all (c ∷ calls) x = do y ← perform c x; perform_all calls y

  -- The requests of all responses so far, and those still waiting.
  abbrev pub answered : Exchange → List HttpRequest
  answered x = map request_of x.0 ++ matched x.1

  perform-answered :
      (c : Call) (x : Exchange)
      → Ends Stops (λ y. answered y ≡ answered x ++ arrived (c ∷ [])) (perform c x)
  unfolding new_request_arrived
  perform-answered (arrives r) (out, q) = simp append_assoc
  perform-answered (receives buf) (out, q) =
      Ends-bind Stops (Same strtol q) (λ y. answered y ≡ answered (out, q) ++ [])
        (parse (response_kind strtol) buf q) _ (parse-Same strtol buf q)
        λ q1 e. ap (λ t. map request_of out ++ t) e ∙ sym (append-nil (answered (out, q)))
  perform-answered pops (out, q) = elim (List-cases q.complete_messages) [
    | inl e ↦ rw (e, pop) λ x. ground (arith, x)
    | inr (m, ms, e) ↦
        let z =
          answering q.message_in_progress.state (request_of q.message_in_progress) ++ q.derived in
        let moved =
          ap (λ t. t ++ (map request_of ms ++ z)) (map-append request_of out (m ∷ []))
          ∙ append_assoc (map request_of out) (request_of m ∷ []) (map request_of ms ++ z)
          ∙ sym (append-nil (map request_of out ++ (map request_of (m ∷ ms) ++ z))) in
        rw (e, pop) moved
  ]

  arrived-cons :
      (c : Call) (calls : List Call) → arrived (c ∷ calls) ≡ arrived (c ∷ []) ++ arrived calls
  arrived-cons (arrives r) calls = refl
  arrived-cons (receives buf) calls = refl
  arrived-cons pops calls = refl

  performs-answered :
      (calls : List Call) (x : Exchange)
      → Ends Stops (λ y. answered y ≡ answered x ++ arrived calls) (perform_all calls x)
  unfolding perform_all
  performs-answered [] x = sym (append-nil (answered x))
  performs-answered (c ∷ calls) x =
      Ends-bind Stops (λ y. answered y ≡ answered x ++ arrived (c ∷ []))
        (λ y. answered y ≡ answered x ++ arrived (c ∷ calls)) (perform c x) _ (perform-answered c x)
        λ y e.
          Ends-map Stops (λ z. answered z ≡ answered y ++ arrived calls) _ (perform_all calls y)
            (performs-answered calls y)
            λ z k.
              k
              ∙ ap (λ t. t ++ arrived calls) e
              ∙ append_assoc (answered x) (arrived (c ∷ [])) (arrived calls)
              ∙ ap (λ t. answered x ++ t) (sym (arrived-cons c calls))

  -- Whatever requests arrive at a new parser of responses, and whatever bytes, the calls come to an
  -- end, and where no exception is thrown and no assertion fails, the requests that the
  -- responses belong to are those that have arrived, in order: first those of the responses
  -- taken out, then of those that are complete, then of the one in progress, then those waiting.
  pub responses-InOrder :
      (calls : List Call)
      → Ends Stops
          (λ y. map request_of y.0 ++ matched y.1 ≡ arrived calls)
          (perform_all calls ([], response_parser))
  responses-InOrder calls = performs-answered calls ([], response_parser)
