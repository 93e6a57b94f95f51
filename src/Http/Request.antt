-- ===== src/Http/Request.antt =====
-- src/http/http_request.hh and .cc, and src/http/http_request_parser.hh.
pub mod Demands
pub mod Streams
pub mod RoundTrip
pub mod Safe
mod Tests
use octopus_mahimahi.Common.{
  ℕ, ◌%◌, ◌^◌, Bool, true, false, not, ◌||◌, [], Option, Result, ok, fail, thrown, ◌>>=◌, ◌>>◌,
  assert, check, take, ltb, if◌then◌else◌, codes, same_bytes,
}
use octopus_mahimahi.Packet.{Bytes}
use octopus_mahimahi.Chunked.{myatoi}
use octopus_mahimahi.Http.Message.{
  HttpMessage, Methods, number, same_state, first_line_pending, body_pending, has_header,
  get_header_value, unknown_size, set_expected_body_size,
}
use octopus_mahimahi.Http.Sequence.{Kind, Sequence}

-- `HTTPRequest` adds no members.
abbrev pub HttpRequest : Type 0
HttpRequest = HttpMessage (Unit {0})

-- `HTTPRequest()`
abbrev pub http_request : HttpRequest
http_request = record {
  expected_size = (false, unknown_size);
  first_line = [];
  headers = [];
  body = [];
  state = first_line_pending;
  extra = tt;
}

unfoldable pub is_head : HttpRequest → Result Bool
is_head m = do
  assert (ltb (number first_line_pending) (number m.state))
  ok (same_bytes (take 5 m.first_line) (codes "HEAD "))

module _ (strtol : Bytes → ℕ → Option (ℕ × ℕ)) where
  unfoldable pub calculate_expected_body_size : HttpRequest → Result HttpRequest
  calculate_expected_body_size m = do
    assert (same_state m.state body_pending)
    elim (same_bytes (take 4 m.first_line) (codes "GET ")
        || same_bytes (take 5 m.first_line) (codes "HEAD ")) [
          | true ↦ set_expected_body_size true 0 m
          | false ↦ elim (same_bytes (take 5 m.first_line) (codes "POST ")) [
            | true ↦ do
              check thrown (has_header (codes "Content-Length") m)
              value ← get_header_value (codes "Content-Length") m
              size ← myatoi strtol value 10
              set_expected_body_size true (size % 2 ^ 64) m
            | false ↦ fail thrown
          ]
        ]

  abbrev pub methods : Methods (Unit {0})
  methods = record {
    calculate_expected_body_size = calculate_expected_body_size;
    read_in_complex_body = λ str m. fail thrown;
    eof_in_body = λ m. fail thrown;
  }

-- `HTTPRequestParser`, which keeps nothing of its own.
module _ (strtol : Bytes → ℕ → Option (ℕ × ℕ)) where
  abbrev pub request_kind : Kind (Unit {0}) (Unit {0})
  request_kind = record {
    methods = methods strtol;
    new_message = http_request;
    initialize_new_message = λ m s. ok (m, s);
  }

-- `HTTPRequestParser()`
abbrev pub request_parser : Sequence (Unit {0}) (Unit {0})
request_parser = record {
  buffer = [];
  complete_messages = [];
  message_in_progress = http_request;
  derived = tt;
}
