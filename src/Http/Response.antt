-- ===== src/Http/Response.antt =====
-- src/http/http_response.hh and .cc, body_parser.hh, and http_response_parser.hh and .cc.
pub mod Stops
pub mod Kept
pub mod Matching
pub mod InChunks
mod Tests
use octopus_mahimahi.Common.{
  ℕ, ◌%◌, ◌^◌, Bool, true, false, not, ◌&&◌, ◌||◌, List, [], ◌∷◌, ◌++◌, Option, none, some, Result,
  ok, fail, thrown, undefined, ◌>>=◌, ◌>>◌, assert, check, length, null, take, last_or, ltb, ◌==◌,
  codes, same_bytes,
}
use octopus_mahimahi.Packet.{Bytes}
use octopus_mahimahi.Chunked.{ChunkedParser, chunked_parser, myatoi}
use octopus_mahimahi.Chunked
use octopus_mahimahi.Http.Message.{
  HttpMessage, Methods, number, same_state, first_line_pending, body_pending, complete, has_header,
  get_header_value, equivalent_strings, unknown_size, set_expected_body_size,
}
use octopus_mahimahi.Http.Sequence.{Kind, Sequence}
use octopus_mahimahi.Http.Request.{HttpRequest, http_request, is_head}
use octopus_mahimahi.Http.Tokenize.{split, mime_type}

-- The classes derived from `BodyParser`.
pub data BodyParser : Type 0 where
  rule5 : BodyParser
  chunked : ChunkedParser → BodyParser

pub record ResponseMembers : Type 0 where
  pub request : HttpRequest
  pub body_parser : Option BodyParser

abbrev pub HttpResponse : Type 0
HttpResponse = HttpMessage ResponseMembers

-- `HTTPResponse()`
abbrev pub http_response : HttpResponse
http_response = record {
  expected_size = (false, unknown_size);
  first_line = [];
  headers = [];
  body = [];
  state = first_line_pending;
  extra = record { request = http_request; body_parser = none };
}

unfoldable pub status_code : HttpResponse → Result Bytes
status_code m = do
  assert (ltb (number first_line_pending) (number m.state))
  tokens ← split m.first_line (b' ' ∷ [])
  elim tokens [
    | [] ↦ fail thrown
    | t0 ∷ r0 ↦ elim r0 [ [] ↦ fail thrown | t1 ∷ r1 ↦ do check thrown (not (null r1)); ok t1 ]
  ]

-- `at( 0 )`
abbrev pub first_byte : Bytes → Result ℕ
first_byte [] = fail thrown
first_byte (c ∷ s) = ok c

-- `back()`
abbrev pub last_token : List Bytes → Result Bytes
last_token [] = fail undefined
last_token (t ∷ ts) = ok (last_or t ts)

abbrev pub with_parser : BodyParser → HttpResponse → HttpResponse
with_parser p m = record m { extra = record m.extra { body_parser = some p } }

-- The test of rule 1.
unfoldable pub has_no_body : HttpResponse → Result Bool
has_no_body m = do
  code ← status_code m
  c ← first_byte code
  elim (c == b'1' || same_bytes code (codes "204") || same_bytes code (codes "304")) [
    | true ↦ ok true
    | false ↦ is_head m.extra.request
  ]

-- The test of rule 2.
unfoldable pub is_chunked : HttpResponse → Result Bool
is_chunked m = elim (has_header (codes "Transfer-Encoding") m) [
  | false ↦ ok false
  | true ↦ do
    value ← get_header_value (codes "Transfer-Encoding") m
    tokens ← split value (b',' ∷ [])
    token ← last_token tokens
    ok (equivalent_strings token (codes "chunked"))
]

-- The test of rule 4.
unfoldable pub is_multipart : HttpResponse → Result Bool
is_multipart m = elim (has_header (codes "Content-Type") m) [
  | false ↦ ok false
  | true ↦ do
    value ← get_header_value (codes "Content-Type") m
    type_ ← mime_type value
    ok (equivalent_strings type_ (codes "multipart/byteranges"))
]

-- `BodyParser::eof`
abbrev pub parser_eof : BodyParser → Bool
parser_eof rule5 = true
parser_eof (chunked p) = true

unfoldable pub eof_in_body : HttpResponse → Result Bool
eof_in_body m = elim m.extra.body_parser [ none ↦ fail thrown | some p ↦ ok (parser_eof p) ]

unfoldable pub set_request : HttpRequest → HttpResponse → Result HttpResponse
set_request request m = do
  assert (same_state m.state first_line_pending)
  ok (record m { extra = record m.extra { request = request } })

-- `HTTPResponseParser`: the sequence keeps the requests that have no response yet.
unfoldable pub initialize_new_message :
    HttpResponse → List HttpRequest → Result (HttpResponse × List HttpRequest)
initialize_new_message m [] = fail thrown
initialize_new_message m (request ∷ requests) = do m1 ← set_request request m; ok (m1, requests)

unfoldable pub new_request_arrived :
    HttpRequest
    → Sequence ResponseMembers (List HttpRequest)
    → Sequence ResponseMembers (List HttpRequest)
new_request_arrived request q = record q { derived = q.derived ++ request ∷ [] }

module _ (strtol : Bytes → ℕ → Option (ℕ × ℕ)) where
  unfoldable pub calculate_expected_body_size : HttpResponse → Result HttpResponse
  calculate_expected_body_size m = do
    assert (same_state m.state body_pending)
    no_body ← has_no_body m
    elim no_body [
      | true ↦ set_expected_body_size true 0 m
      | false ↦ do
        in_chunks ← is_chunked m
        elim in_chunks [
          | true ↦ do
            m1 ← set_expected_body_size false unknown_size m
            ok (with_parser (chunked (chunked_parser (has_header (codes "Trailer") m))) m1)
          | false ↦
              elim (not (has_header (codes "Transfer-Encoding") m)
                && has_header (codes "Content-Length") m) [
                  | true ↦ do
                    value ← get_header_value (codes "Content-Length") m
                    size ← myatoi strtol value 10
                    set_expected_body_size true (size % 2 ^ 64) m
                  | false ↦ do
                    multipart ← is_multipart m
                    elim multipart [
                      | true ↦ do m1 ← set_expected_body_size false unknown_size m; fail thrown
                      | false ↦ do
                        m1 ← set_expected_body_size false unknown_size m
                        ok (with_parser rule5 m1)
                    ]
                ]
        ]
    ]

  -- `BodyParser::read`, where `none` is `npos`.
  abbrev pub parser_read : Bytes → BodyParser → Result (Option ℕ × BodyParser)
  parser_read str rule5 = ok (none, rule5)
  parser_read str (chunked p) = do r ← Chunked.read strtol str p; ok (r.0, chunked r.1)

  unfoldable pub read_in_complex_body : Bytes → HttpResponse → Result (ℕ × HttpResponse)
  read_in_complex_body str m = do
    assert (same_state m.state body_pending)
    elim m.extra.body_parser [
      | none ↦ do assert false; ok (0, m)
      | some p ↦ do
        r ← parser_read str p
        let m1 = with_parser r.1 m
        elim r.0 [
          | none ↦ ok (length str, record m1 { body = m1.body ++ str })
          | some amount_parsed ↦ ok (
            amount_parsed,
            record m1 { body = m1.body ++ take amount_parsed str; state = complete },
          )
        ]
    ]

  abbrev pub methods : Methods ResponseMembers
  methods = record {
    calculate_expected_body_size = calculate_expected_body_size;
    read_in_complex_body = read_in_complex_body;
    eof_in_body = eof_in_body;
  }

  abbrev pub response_kind : Kind ResponseMembers (List HttpRequest)
  response_kind = record {
    methods = methods;
    new_message = http_response;
    initialize_new_message = initialize_new_message;
  }

-- `HTTPResponseParser()`
abbrev pub response_parser : Sequence ResponseMembers (List HttpRequest)
response_parser = record {
  buffer = [];
  complete_messages = [];
  message_in_progress = http_response;
  derived = [];
}
