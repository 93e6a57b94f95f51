-- ===== src/Http/Sequence/Messages.antt =====
-- The first line and the headers of a message read back from its bytes.
use octopus_mahimahi.Common.{
  ◌+◌, ◌≡◌, ◌≢◌, refl, ap, sym, ◌∙◌, true, false, List, [], ◌∷◌, ◌++◌, append-nil, append_assoc, ok,
  ◌>>=◌, All, arith, length, null, drop,
}
use octopus_mahimahi.ByteStream.Ring.{take-append_length}
use octopus_mahimahi.Packet.{Bytes}
use octopus_mahimahi.Chunked.{crlf}
use octopus_mahimahi.Chunked.Bodies.{find_in-line, drop-line}
use octopus_mahimahi.Header.{HttpHeader, http_header}
use octopus_mahimahi.Header
use octopus_mahimahi.Http.Message.{
  HttpMessage, first_line_pending, headers_pending, lines, set_first_line, add_header,
}
use octopus_mahimahi.Http.Sequence.{Kind, Sequence, get_and_pop_line, take_header}
use octopus_mahimahi.Http.Sequence.Lines.{popped}
use octopus_mahimahi.Http.Sequence.Steps.{
  set_in_first, first_line_with, headers_with, first_line_at, headers_at, have_line,
}
use octopus_mahimahi.Http.Sequence.Rounds.{step_in, run, run_on}

-- A header that is read back from its line.
pub record IsLine (h : HttpHeader) : Type 0 where
  pub bytes : All (λ c. c ≢ 13) (Header.str h)
  pub read_back : http_header (Header.str h) ≡ ok h

pub pop_line :
    (line rest : Bytes)
    → All (λ c. c ≢ 13) line
    → get_and_pop_line (line ++ (crlf ++ rest)) ≡ ok (line, rest)
pop_line line rest h =
    popped (line ++ (crlf ++ rest)) (length line) (find_in-line line rest h)
    ∙ ap (λ t. ok (t, drop (length line + 2) (line ++ (crlf ++ rest))))
        (take-append_length line (crlf ++ rest) (length line) refl)
    ∙ ap (λ t. ok (line, t)) (drop-line line rest)

pub str-null : (h : HttpHeader) → null (Header.str h) ≡ false
unfolding Header.str
str-null h = null-behind h.key (58 ∷ 32 ∷ h.value) refl
  where
    null-behind : (s t : Bytes) → null t ≡ false → null (s ++ t) ≡ false
    null-behind [] t n = n
    null-behind (c ∷ s) t n = refl

pub added_header :
    {E S : Type 0} (kind : Kind E S) (line : Bytes) (m : HttpMessage E) (h : HttpHeader)
    → m.state ≡ headers_pending
    → null line ≡ false
    → http_header line ≡ ok h
    → take_header kind line m ≡ ok (record m { headers = m.headers ++ h ∷ [] })
unfolding add_header
added_header kind line m h s n e = ground (arith, s, n, e)

pub lines-append :
    (hs : List HttpHeader) (b rest : Bytes) → lines hs b ++ rest ≡ lines hs (b ++ rest)
lines-append [] b rest = refl
lines-append (h ∷ hs) b rest =
    append_assoc (Header.str h) (crlf ++ lines hs b) rest
    ∙ ap (λ t. Header.str h ++ (crlf ++ t)) (lines-append hs b rest)

-- The parser with a message in progress and bytes to read.
abbrev pub at_work : {E S : Type 0} → Sequence E S → HttpMessage E → Bytes → Sequence E S
at_work q m b = record q { message_in_progress = m; buffer = b }

module _ {E S : Type 0} (kind : Kind E S)
    (new_state : kind.new_message.state ≡ first_line_pending) where
  pub first_line_round :
      (q : Sequence E S) (m m1 : HttpMessage E) (d1 : S) (line rest : Bytes)
      → m.state ≡ first_line_pending
      → kind.initialize_new_message m q.derived ≡ ok (m1, d1)
      → m1.state ≡ first_line_pending
      → All (λ c. c ≢ 13) line
      → run kind (at_work q m (line ++ (crlf ++ rest)))
        ≡ run kind (
            at_work
              (record q { derived = d1 })
              (record m1 { first_line = line; state = headers_pending })
              rest)
  unfolding first_line_with
  first_line_round q m m1 d1 line rest s i s1 h =
      let q0 = at_work q m (line ++ (crlf ++ rest)) in
      run_on kind new_state q0 _ (
        step_in kind first_line_pending q0 s
        ∙ first_line_at kind q0 (have_line kind q0.buffer (length line) (find_in-line line rest h))
        ∙ ap (first_line_with kind q0) (pop_line line rest h)
        ∙ ap
            (λ x. x >>= λ r. set_first_line line r.0 >>= λ t.
              ok (true, at_work (record q { derived = r.1 }) t rest))
            i
        ∙ ap (λ x. x >>= λ t. ok (true, at_work (record q { derived = d1 }) t rest))
            (set_in_first line m1 s1))

  pub header_round :
      (q : Sequence E S) (m : HttpMessage E) (h : HttpHeader) (rest : Bytes)
      → m.state ≡ headers_pending
      → IsLine h
      → run kind (at_work q m (Header.str h ++ (crlf ++ rest)))
        ≡ run kind (at_work q (record m { headers = m.headers ++ h ∷ [] }) rest)
  unfolding headers_with
  header_round q m h rest s i =
      let q0 = at_work q m (Header.str h ++ (crlf ++ rest)) in
      let added : take_header kind (Header.str h) m
          ≡ ok (record m { headers = m.headers ++ h ∷ [] }) =
        added_header kind (Header.str h) m h s (str-null h) i.read_back in
      run_on kind new_state q0 _ (
        step_in kind headers_pending q0 s
        ∙ headers_at kind q0 (have_line kind q0.buffer _ (find_in-line (Header.str h) rest i.bytes))
        ∙ ap (headers_with kind q0) (pop_line (Header.str h) rest i.bytes)
        ∙ ap (λ x. x >>= λ m. ok (true, at_work q m rest)) added)

  pub headers_rounds :
      (q : Sequence E S) (m : HttpMessage E) (hs : List HttpHeader) (rest : Bytes)
      → m.state ≡ headers_pending
      → All IsLine hs
      → run kind (at_work q m (lines hs rest))
        ≡ run kind (at_work q (record m { headers = m.headers ++ hs }) rest)
  headers_rounds q m [] rest s i =
      ap (λ t. run kind (at_work q (record m { headers = t }) rest)) (sym (append-nil m.headers))
  headers_rounds q m (h ∷ hs) rest s i =
      header_round q m h (lines hs rest) s i.0
      ∙ headers_rounds q (record m { headers = m.headers ++ h ∷ [] }) hs rest s i.1
      ∙ ap (λ t. run kind (at_work q (record m { headers = t }) rest))
          (append_assoc m.headers (h ∷ []) hs)
