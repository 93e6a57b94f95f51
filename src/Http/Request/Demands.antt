-- ===== src/Http/Request/Demands.antt =====
-- The size of the body that the first line and the headers of a request demand.
use octopus_mahimahi.Common.{
  ℕ, ◌%◌, ◌^◌, ◌≡◌, refl, true, false, ◌||◌, List, Option, Result, ok, fail, thrown, ◌>>=◌, ◌>>◌,
  check, take, Fault, Ends, Ends-bind, [], ◌∷◌, arith, codes, same_bytes,
}
use octopus_mahimahi.Packet.{Bytes}
use octopus_mahimahi.Chunked.{myatoi}
use octopus_mahimahi.Header.{HttpHeader, http_header}
use octopus_mahimahi.Http.Message.{body_pending, has_key, value_of, set_expected_body_size}
use octopus_mahimahi.Http.Request.{HttpRequest, calculate_expected_body_size}

-- A step ends in a value or in an exception.
abbrev pub Throws : Fault → Type 0
Throws e = e ≡ thrown

value_of-Throws : (name : Bytes) (hs : List HttpHeader) → Ends Throws (λ v. Unit) (value_of name hs)
value_of-Throws name [] = refl
value_of-Throws name (h ∷ hs) = ground (arith, value_of-Throws name hs)

pub http_header-Throws : (line : Bytes) → Ends Throws (λ h. Unit) (http_header line)
unfolding http_header
http_header-Throws line = ground arith

module _ (strtol : Bytes → ℕ → Option (ℕ × ℕ)) where
  unfoldable pub demanded : Bytes → List HttpHeader → Result ℕ
  demanded first_line headers =
      elim (same_bytes (take 4 first_line) (codes "GET ")
        || same_bytes (take 5 first_line) (codes "HEAD ")) [
          | true ↦ ok 0
          | false ↦ elim (same_bytes (take 5 first_line) (codes "POST ")) [
            | true ↦ do
              check thrown (has_key (codes "Content-Length") headers)
              value ← value_of (codes "Content-Length") headers
              size ← myatoi strtol value 10
              ok (size % 2 ^ 64)
            | false ↦ fail thrown
          ]
        ]

  pub calculate-demanded :
      (m : HttpRequest)
      → m.state ≡ body_pending
      → calculate_expected_body_size strtol m
        ≡ (demanded m.first_line m.headers >>= λ n. ok (record m { expected_size = (true, n) }))
  unfolding calculate_expected_body_size demanded set_expected_body_size
  calculate-demanded m s = ground arith

  myatoi-Throws : (s : Bytes) (base : ℕ) → Ends Throws (λ n. Unit) (myatoi strtol s base)
  unfolding myatoi
  myatoi-Throws s base = ground arith

  content_length-Throws :
      (hs : List HttpHeader)
      → Ends Throws
          (λ n. Unit)
          (value_of (codes "Content-Length") hs >>= λ v.
            myatoi strtol v 10 >>= λ n. ok (n % 2 ^ 64))
  content_length-Throws hs =
      Ends-bind Throws (λ v. Unit) (λ n. Unit) (value_of (codes "Content-Length") hs) _
        (value_of-Throws (codes "Content-Length") hs)
        λ v u.
          Ends-bind Throws (λ n. Unit) (λ n. Unit) (myatoi strtol v 10) _ (myatoi-Throws v 10)
            λ n t. tt

  pub demanded-Throws :
      (line : Bytes) (hs : List HttpHeader) → Ends Throws (λ n. Unit) (demanded line hs)
  unfolding demanded
  demanded-Throws line hs = ground (arith, content_length-Throws hs)
