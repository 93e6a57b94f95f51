-- ===== src/Replay.antt =====
-- src/frontend/replayserver.cc: the stored request that matches an incoming one best.
mod Tests
pub mod Best
use octopus_mahimahi.Common.{
  ℕ, zero, suc, ◌+◌, ◌%◌, ◌^◌, ◌≡◌, Bool, true, false, not, ◌&&◌, List, [], ◌∷◌, Option, none, some,
  Result, ok, fail, ◌>>=◌, ◌>>◌, length, take, min, ltb, ◌==◌, if◌then◌else◌, codes, same_bytes,
}
use octopus_mahimahi.Packet.{Bytes}
use octopus_mahimahi.Chunked.{find_in}
use octopus_mahimahi.Header.{HttpHeader}
use octopus_mahimahi.Http.Message.{has_header, get_header_value, str}
use octopus_mahimahi.Http.Request.{HttpRequest}
use octopus_mahimahi.Http.Response.{HttpResponse}

pub data Scheme : Type 0 where
  http https : Scheme

-- `RequestResponse`, with the request and the response that are made of its messages.
pub record SavedRecord : Type 0 where
  pub scheme : Scheme
  pub request : HttpRequest
  pub response : HttpResponse

abbrev pub is_https_scheme : Scheme → Bool
is_https_scheme http = false
is_https_scheme https = true

-- `strip_query( request_line )`
unfoldable pub strip_query : Bytes → Bytes
strip_query request_line = elim (find_in (b'?' ∷ []) request_line) [
  | none ↦ request_line
  | some index ↦ take index request_line
]

-- The loop over the common prefix: the first place where the two differ, or all of them.
abbrev pub prefix_loop : ℕ → Bytes → Bytes → ℕ
prefix_loop i [] t = i
prefix_loop i (c ∷ s) [] = i
prefix_loop i (c ∷ s) (d ∷ t) = elim (c == d) [ true ↦ prefix_loop (suc i) s t | false ↦ i ]

-- `getenv` is the environment.
module _ (getenv : Bytes → Option Bytes) where
  unfoldable pub header_match : Bytes → Bytes → HttpRequest → Result Bool
  header_match env_var_name header_name saved_request = elim (getenv env_var_name) [
    | none ↦ ok (not (has_header header_name saved_request))
    | some env_value ↦ elim (has_header header_name saved_request) [
      | true ↦ do
        value ← get_header_value header_name saved_request
        ok (same_bytes value env_value)
      | false ↦ ok false
    ]
  ]

  unfoldable pub match_score : SavedRecord → Bytes → Bool → Result ℕ
  match_score saved_record request_line is_https =
      elim (is_https && not (is_https_scheme saved_record.scheme)) [
        | true ↦ ok 0
        | false ↦ elim (not is_https && is_https_scheme saved_record.scheme) [
          | true ↦ ok 0
          | false ↦ do
            host ← header_match (codes "HTTP_HOST") (codes "Host") saved_record.request
            elim host [
              | false ↦ ok 0
              | true ↦ do
                agent ←
                    header_match (codes "HTTP_USER_AGENT") (codes "User-Agent") saved_record.request
                elim agent [
                  | false ↦ ok 0
                  | true ↦
                      elim (same_bytes (strip_query request_line)
                        (strip_query saved_record.request.first_line)) [
                          | false ↦ ok 0
                          | true ↦
                              ok (
                                prefix_loop 0 request_line saved_record.request.first_line % 2 ^ 32)
                        ]
                ]
            ]
        ]
      ]

  -- The loop of `main` over the stored records, from the best so far.
  unfoldable pub best_loop :
      Bytes → Bool → List SavedRecord → ℕ × Option SavedRecord → Result (ℕ × Option SavedRecord)
  best_loop request_line is_https [] best = ok best
  best_loop request_line is_https (record_ ∷ records) best = do
    score ← match_score record_ request_line is_https
    best_loop request_line is_https records
        (if ltb best.0 score then (score, some record_) else best)

  -- What `main` answers: the response stored with the best match, or `none` for the 404.
  unfoldable pub best_match : Bytes → Bool → List SavedRecord → Result (Option Bytes)
  best_match request_line is_https records = do
    best ← best_loop request_line is_https records (0, none)
    elim (ltb 0 best.0) [
      | true ↦ elim best.1 [ none ↦ ok none | some r ↦ do text ← str r.response; ok (some text) ]
      | false ↦ ok none
    ]
