-- ===== src/Replay/Tests.antt =====
-- A test of the search for a stored request, and an instance of its theorem.
use octopus_mahimahi.Common.{
  ◌≡◌, refl, true, false, [], ◌∷◌, Option, none, some, ok, Returns, arith, codes, same_bytes, List,
}
use octopus_mahimahi.Packet.{Bytes}
use octopus_mahimahi.Header.{HttpHeader}
use octopus_mahimahi.Http.Message.{complete, equivalent_strings}
use octopus_mahimahi.Http.Request.{http_request}
use octopus_mahimahi.Http.Response.{http_response}
use octopus_mahimahi.Replay.{
  SavedRecord, http, strip_query, header_match, match_score, best_loop, best_match,
}
use octopus_mahimahi.Replay.Best.{IsBest, best_loop-IsBest}

abbrev environment : Bytes → Option Bytes
environment var = elim (same_bytes var (codes "HTTP_HOST")) [
  | true ↦ some (codes "a")
  | false ↦ none
]

abbrev host : HttpHeader
host = record { key = codes "host"; value = codes "a" }

abbrev saved : Bytes → SavedRecord
saved line = record {
  scheme = http;
  request = record http_request { first_line = line; headers = host ∷ []; state = complete };
  response = record http_response { first_line = codes "200"; state = complete };
}

abbrev records : List SavedRecord
records = saved (codes "GET /?a=1") ∷ saved (codes "GET /?b=1") ∷ saved (codes "GET /c?b=2") ∷ []

best_loop_second :
    best_loop environment (codes "GET /?b=2") false records (0, none)
    ≡ ok (8, some (saved (codes "GET /?b=1")))
unfolding best_loop match_score header_match strip_query equivalent_strings
best_loop_second = refl

best_match-none : best_match environment (codes "GET /d") false records ≡ ok none
unfolding best_match best_loop match_score header_match strip_query equivalent_strings
best_match-none = refl

best_loop-IsBest_example :
    Returns
      (λ b. IsBest environment (codes "GET /?b=2") false (omega arith) records b.0 b.1)
      (best_loop environment (codes "GET /?b=2") false records (0, none))
best_loop-IsBest_example =
    best_loop-IsBest environment (codes "GET /?b=2") false (omega arith) records
