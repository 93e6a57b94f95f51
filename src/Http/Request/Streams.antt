-- ===== src/Http/Request/Streams.antt =====
-- Requests that come in parts.
use octopus_mahimahi.Common.{ℕ, ◌≡◌, refl, false, ◌++◌, Option, ◌>>=◌, null}
use octopus_mahimahi.Packet.{Bytes}
use octopus_mahimahi.Http.Sequence.{Sequence, parsing_step, parse}
use octopus_mahimahi.Http.Sequence.Bodies.{read_unknown}
use octopus_mahimahi.Http.Sequence.Rounds.{IfOk-any}
use octopus_mahimahi.Http.Sequence.Streams.{IsStream, parse-append}
use octopus_mahimahi.Http.Request.{methods, request_kind}

module _ (strtol : Bytes → ℕ → Option (ℕ × ℕ)) where
  pub request-IsStream : IsStream (request_kind strtol) (λ m. Unit)
  request-IsStream = record {
    new_state = refl;
    kept = λ q p. IfOk-any (parsing_step (request_kind strtol) q);
    goes_on = λ more str m p s k. read_unknown (methods strtol) (str ++ more) m s k;
  }

  -- The parser of requests does the same with bytes given at once as with the first of them and then
  -- the others, in any state and failures included, if there are some in both parts.
  pub requests-parse-append :
      (a b : Bytes) (q : Sequence (Unit {0}) (Unit {0}))
      → null a ≡ false
      → null b ≡ false
      → parse (request_kind strtol) (a ++ b) q
        ≡ (parse (request_kind strtol) a q >>= λ q1. parse (request_kind strtol) b q1)
  requests-parse-append a b q na nb =
      parse-append (request_kind strtol) (λ m. Unit) request-IsStream a b q tt na nb
