-- ===== src/Http/Response/Tests.antt =====
-- Tests of the parser of responses, and instances of its theorems.
use octopus_mahimahi.Common.{
  ℕ, ◌-◌, ◌≡◌, refl, [], ◌∷◌, ◌++◌, Option, none, some, ok, Ends, arith, codes, map, length,
}
use octopus_mahimahi.Packet.{Bytes}
use octopus_mahimahi.Chunked.{ChunkedParser, crlf, myatoi, get_chunk_size}
use octopus_mahimahi.Chunked.Bodies.{IsChunk, IsEnd, encode}
use octopus_mahimahi.Chunked.Stops.{Stops}
use octopus_mahimahi.Header.{HttpHeader, http_header}
use octopus_mahimahi.Header
use octopus_mahimahi.Http.Message.{complete, equivalent_strings, lines}
use octopus_mahimahi.Http.Sequence.{parse}
use octopus_mahimahi.Http.Sequence.Messages.{IsLine}
use octopus_mahimahi.Http.Tokenize.{split, index_loop, tokens_behind}
use octopus_mahimahi.Http.Request.{HttpRequest, http_request, is_head}
use octopus_mahimahi.Http.Response.{
  response_kind, response_parser, has_no_body, status_code, is_chunked,
}
use octopus_mahimahi.Http.Response.Kept.{request_of, matched}
use octopus_mahimahi.Http.Response.Matching.{
  arrives, receives, pops, arrived, perform_all, responses-InOrder,
}
use octopus_mahimahi.Http.Response.InChunks.{IsInChunks, ended, body_of, responses-parse-chunks}

-- A number of one decimal digit.
abbrev strtol : Bytes → ℕ → Option (ℕ × ℕ)
strtol [] base = none
strtol (c ∷ s) base = some (c - 48, 1)

abbrev get : HttpRequest
get = record http_request { first_line = codes "GET / HTTP/1.1"; state = complete }

abbrev status_line : Bytes
status_line = codes "HTTP/1.1 200 OK"

abbrev in_chunks : HttpHeader
in_chunks = record { key = codes "Transfer-Encoding"; value = codes "gzip, Chunked" }

-- "3" before three bytes, of which two are a CRLF.
abbrev three : Bytes × Bytes
three = (codes "3", 1 ∷ crlf)

abbrev zero_line : Bytes
zero_line = codes "0"

in_chunks-IsLine : IsLine in_chunks
unfolding Header.str http_header
in_chunks-IsLine = record { bytes = omega arith; read_back = refl }

get-IsInChunks : IsInChunks get status_line (in_chunks ∷ [])
unfolding has_no_body status_code is_head is_chunked split index_loop tokens_behind
    equivalent_strings
get-IsInChunks = record {
  first = omega arith;
  each_header = (in_chunks-IsLine, tt);
  with_body = refl;
  in_chunks = refl;
  no_trailers = refl;
}

three-IsChunk : IsChunk strtol three
unfolding get_chunk_size myatoi
three-IsChunk = record {
  line = omega arith;
  size = refl;
  some_data = omega arith;
  small = omega arith;
}

zero-IsEnd : IsEnd strtol zero_line
unfolding get_chunk_size myatoi
zero-IsEnd = record { line_end = omega arith; zero_size = refl }

small_body : length (body_of strtol (three ∷ []) zero_line) ≡ 13
unfolding encode
small_body = refl

responses-parse-chunks_example :
    (p : ChunkedParser) × (parse
        (response_kind strtol)
        (status_line
          ++ (crlf ++ lines (in_chunks ∷ []) (crlf ++ body_of strtol (three ∷ []) zero_line)))
        (record response_parser { derived = get ∷ [] })
      ≡ ok (record response_parser {
        complete_messages =
            ended get status_line (in_chunks ∷ []) (body_of strtol (three ∷ []) zero_line) p ∷ [];
        derived = [];
      }))
responses-parse-chunks_example =
    responses-parse-chunks strtol get [] status_line (in_chunks ∷ []) (three ∷ []) zero_line
      get-IsInChunks (three-IsChunk, tt) zero-IsEnd (omega (arith, small_body))

responses-InOrder_example :
    Ends Stops
      (λ y.
        map request_of y.0 ++ matched y.1
        ≡ arrived (arrives get ∷ receives (codes "HTTP/1.1 204 N" ++ (crlf ++ crlf)) ∷ pops ∷ []))
      (perform_all strtol
        (arrives get ∷ receives (codes "HTTP/1.1 204 N" ++ (crlf ++ crlf)) ∷ pops ∷ [])
        ([], response_parser))
responses-InOrder_example =
    responses-InOrder strtol
      (arrives get ∷ receives (codes "HTTP/1.1 204 N" ++ (crlf ++ crlf)) ∷ pops ∷ [])
