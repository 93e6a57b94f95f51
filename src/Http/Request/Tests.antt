-- ===== src/Http/Request/Tests.antt =====
-- Tests of the parser of requests, and instances of its theorems.
use octopus_mahimahi.Common.{
  ℕ, ◌-◌, ◌≡◌, refl, true, [], ◌∷◌, ◌++◌, Option, none, some, ok, ◌>>=◌, Ends, arith, codes,
}
use octopus_mahimahi.Packet.{Bytes}
use octopus_mahimahi.Chunked.{crlf, myatoi}
use octopus_mahimahi.Header.{HttpHeader, http_header}
use octopus_mahimahi.Header
use octopus_mahimahi.Http.Message.{complete, equivalent_strings}
use octopus_mahimahi.Http.Sequence.{parse}
use octopus_mahimahi.Http.Sequence.Messages.{IsLine}
use octopus_mahimahi.Http.Request.{HttpRequest, http_request, request_kind, request_parser}
use octopus_mahimahi.Http.Request.Demands.{Throws, demanded}
use octopus_mahimahi.Http.Request.Streams.{requests-parse-append}
use octopus_mahimahi.Http.Request.RoundTrip.{IsReadable, printed, requests-parse-str}
use octopus_mahimahi.Http.Request.Safe.{IsReady, parse-IsReady}

-- A number of one decimal digit.
abbrev strtol : Bytes → ℕ → Option (ℕ × ℕ)
strtol [] base = none
strtol (c ∷ s) base = some (c - 48, 1)

abbrev host : HttpHeader
host = record { key = codes "Host"; value = codes "a" }

abbrev size_two : HttpHeader
size_two = record { key = codes "content-length"; value = codes "2" }

abbrev get : HttpRequest
get = record http_request {
  expected_size = (true, 0);
  first_line = codes "GET / HTTP/1.1";
  headers = host ∷ [];
  state = complete;
}

abbrev post : HttpRequest
post = record http_request {
  expected_size = (true, 2);
  first_line = codes "POST / HTTP/1.1";
  headers = host ∷ size_two ∷ [];
  body = codes "ok";
  state = complete;
}

host-IsLine : IsLine host
unfolding Header.str http_header
host-IsLine = record { bytes = omega arith; read_back = refl }

size_two-IsLine : IsLine size_two
unfolding Header.str http_header
size_two-IsLine = record { bytes = omega arith; read_back = refl }

get-IsReadable : IsReadable strtol get
unfolding demanded
get-IsReadable = record {
  is_complete = refl;
  first = omega arith;
  each_header = (host-IsLine, tt);
  sized = refl;
  expected = refl;
}

post-IsReadable : IsReadable strtol post
unfolding demanded myatoi equivalent_strings
post-IsReadable = record {
  is_complete = refl;
  first = omega arith;
  each_header = (host-IsLine, (size_two-IsLine, tt));
  sized = refl;
  expected = refl;
}

requests-parse-str_example :
    (printed strtol (get ∷ post ∷ []) >>= λ text. parse (request_kind strtol) text request_parser)
    ≡ ok (record request_parser { complete_messages = get ∷ post ∷ [] })
requests-parse-str_example =
    requests-parse-str strtol (get ∷ post ∷ []) (get-IsReadable, (post-IsReadable, tt))

-- The end of the first line comes in two parts.
requests-parse-append_example :
    parse (request_kind strtol) ((codes "GET / " ++ 13 ∷ []) ++ (10 ∷ codes "Host")) request_parser
    ≡ (parse (request_kind strtol) (codes "GET / " ++ 13 ∷ []) request_parser >>= λ q1.
        parse (request_kind strtol) (10 ∷ codes "Host") q1)
requests-parse-append_example =
    requests-parse-append strtol (codes "GET / " ++ 13 ∷ []) (10 ∷ codes "Host") request_parser refl
      refl

request_parser-IsReady : IsReady strtol request_parser
request_parser-IsReady = record {
  sound = record { stage = refl; whole = tt };
  in_progress = λ e. ground (arith, e);
}

parse-IsReady_example :
    Ends Throws
      (IsReady strtol)
      (parse (request_kind strtol) (codes "PUT / " ++ (crlf ++ crlf)) request_parser)
parse-IsReady_example =
    parse-IsReady strtol (codes "PUT / " ++ (crlf ++ crlf)) request_parser request_parser-IsReady
