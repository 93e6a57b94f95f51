-- ===== src/Http/Response/Stops.antt =====
-- None of the parts of a response's parser runs out of rounds.
use octopus_mahimahi.Common.{ℕ, List, [], ◌∷◌, Option, Ends, Ends-bind, ◌>>=◌, arith, codes}
use octopus_mahimahi.Packet.{Bytes}
use octopus_mahimahi.Header.{HttpHeader, http_header}
use octopus_mahimahi.Chunked.{myatoi}
use octopus_mahimahi.Chunked
use octopus_mahimahi.Chunked.Stops.{Stops, myatoi-Stops, read-Stops}
use octopus_mahimahi.Http.Message.{value_of}
use octopus_mahimahi.Http.Sequence.{get_and_pop_line}
use octopus_mahimahi.Http.Request.{HttpRequest, is_head}
use octopus_mahimahi.Http.Tokenize.{split, mime_type}
use octopus_mahimahi.Http.Tokenize.Stops.{split-Stops, mime_type-Stops}
use octopus_mahimahi.Http.Response.{
  HttpResponse, BodyParser, chunked, rule5, status_code, last_token, has_no_body, is_chunked,
  is_multipart, parser_read,
}

value_of-Stops : (name : Bytes) (hs : List HttpHeader) → Ends Stops (λ v. Unit) (value_of name hs)
value_of-Stops name [] = λ e. ground (arith, e)
value_of-Stops name (h ∷ hs) = ground (arith, value_of-Stops name hs)

pub http_header-Stops : (line : Bytes) → Ends Stops (λ h. Unit) (http_header line)
unfolding http_header
http_header-Stops line = ground arith

pub get_and_pop_line-Stops : (b : Bytes) → Ends Stops (λ l. Unit) (get_and_pop_line b)
unfolding get_and_pop_line
get_and_pop_line-Stops b = ground arith

is_head-Stops : (m : HttpRequest) → Ends Stops (λ b. Unit) (is_head m)
unfolding is_head
is_head-Stops m = ground arith

status_code-Stops : (m : HttpResponse) → Ends Stops (λ c. Unit) (status_code m)
unfolding status_code
status_code-Stops m = ground (arith, split-Stops m.first_line (b' ' ∷ []))

pub has_no_body-Stops : (m : HttpResponse) → Ends Stops (λ b. Unit) (has_no_body m)
unfolding has_no_body
has_no_body-Stops m = ground (arith, status_code-Stops m, is_head-Stops m.extra.request)

last_token-Stops : (ts : List Bytes) → Ends Stops (λ t. Unit) (last_token ts)
last_token-Stops [] = λ e. ground (arith, e)
last_token-Stops (t ∷ ts) = tt

pub is_chunked-Stops : (m : HttpResponse) → Ends Stops (λ b. Unit) (is_chunked m)
unfolding is_chunked
is_chunked-Stops m =
    let name = codes "Transfer-Encoding" in
    let tokens =
      Ends-bind Stops (λ v. Unit) (λ t. Unit) (value_of name m.headers)
        (λ v. split v (b',' ∷ []) >>= λ ts. last_token ts) (value_of-Stops name m.headers)
        λ v u.
          Ends-bind Stops (λ ts. Unit) (λ t. Unit) (split v (b',' ∷ [])) _
            (split-Stops v (b',' ∷ [])) λ ts w. last_token-Stops ts in
    ground (arith, tokens)

pub is_multipart-Stops : (m : HttpResponse) → Ends Stops (λ b. Unit) (is_multipart m)
unfolding is_multipart
is_multipart-Stops m =
    let name = codes "Content-Type" in
    let kind =
      Ends-bind Stops (λ v. Unit) (λ t. Unit) (value_of name m.headers) (λ v. mime_type v)
        (value_of-Stops name m.headers) λ v u. mime_type-Stops v in
    ground (arith, kind)

module _ (strtol : Bytes → ℕ → Option (ℕ × ℕ)) where
  pub content_length-Stops :
      (m : HttpResponse)
      → Ends Stops
          (λ n. Unit)
          (value_of (codes "Content-Length") m.headers >>= λ v. myatoi strtol v 10)
  content_length-Stops m =
      Ends-bind Stops (λ v. Unit) (λ n. Unit) (value_of (codes "Content-Length") m.headers) _
        (value_of-Stops (codes "Content-Length") m.headers) λ v u. myatoi-Stops strtol v 10

  pub parser_read-Stops :
      (str : Bytes) (p : BodyParser) → Ends Stops (λ r. Unit) (parser_read strtol str p)
  parser_read-Stops str rule5 = tt
  parser_read-Stops str (chunked p) =
      Ends-bind Stops (λ r. Unit) (λ r. Unit) (Chunked.read strtol str p) _
        (read-Stops strtol str p) λ r u. tt
