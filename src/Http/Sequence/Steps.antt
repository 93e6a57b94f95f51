-- ===== src/Http/Sequence/Steps.antt =====
-- The rounds of the parser with their reads made explicit.
use octopus_mahimahi.Common.{
  ℕ, ◌≤◌, ◌≡◌, refl, Bool, true, false, ◌||◌, some, Result, ok, ◌>>=◌, ◌>>◌, assert, arith, length,
  drop, ◌==◌,
}
use octopus_mahimahi.Packet.{Bytes}
use octopus_mahimahi.Chunked.{find_in, crlf}
use octopus_mahimahi.Http.Message.{
  HttpMessage, first_line_pending, headers_pending, body_pending, complete, set_first_line,
  read_in_body, same_state,
}
use octopus_mahimahi.Http.Sequence.{
  Sequence, Kind, have_complete_line, get_and_pop_line, pop_bytes, first_line_step, headers_step,
  take_header, body_step,
}

-- The first line of a message that waits for it.
pub set_in_first :
    {E : Type 0} (line : Bytes) (m : HttpMessage E)
    → m.state ≡ first_line_pending
    → set_first_line line m ≡ ok (record m { first_line = line; state = headers_pending })
unfolding set_first_line
set_in_first line m s = ground (arith, s)

module _ {E S : Type 0} (kind : Kind E S) where
  pub have_line : (b : Bytes) (i : ℕ) → find_in crlf b ≡ some i → have_complete_line b ≡ true
  have_line b i h = ground (arith, h)

  unfoldable pub first_line_with :
      Sequence E S → Result (Bytes × Bytes) → Result (Bool × Sequence E S)
  first_line_with q line = do
    r ← kind.initialize_new_message q.message_in_progress q.derived
    l ← line
    m ← set_first_line l.0 r.0
    ok (true, record q { message_in_progress = m; derived = r.1; buffer = l.1 })

  pub first_line_at :
      (q : Sequence E S)
      → have_complete_line q.buffer ≡ true
      → first_line_step kind q ≡ first_line_with q (get_and_pop_line q.buffer)
  unfolding first_line_step first_line_with
  first_line_at q e = rw (e, first_line_step) refl

  pub first_line_waits :
      (q : Sequence E S)
      → have_complete_line q.buffer ≡ false
      → first_line_step kind q ≡ ok (false, q)
  unfolding first_line_step
  first_line_waits q e = rw (e, first_line_step) refl

  unfoldable pub headers_with : Sequence E S → Result (Bytes × Bytes) → Result (Bool × Sequence E S)
  headers_with q line = do
    l ← line
    m ← take_header kind l.0 q.message_in_progress
    ok (true, record q { message_in_progress = m; buffer = l.1 })

  pub headers_at :
      (q : Sequence E S)
      → have_complete_line q.buffer ≡ true
      → headers_step kind q ≡ headers_with q (get_and_pop_line q.buffer)
  unfolding headers_step headers_with
  headers_at q e = rw (e, headers_step) refl

  pub headers_wait :
      (q : Sequence E S) → have_complete_line q.buffer ≡ false → headers_step kind q ≡ ok (false, q)
  unfolding headers_step
  headers_wait q e = rw (e, headers_step) refl

  -- What `body_step` does with what has been read.
  unfoldable pub body_with : Sequence E S → ℕ × HttpMessage E → Result (Bool × Sequence E S)
  body_with q r = do
    assert (r.0 == length q.buffer || same_state r.1.state complete)
    rest ← pop_bytes r.0 q.buffer
    ok (same_state r.1.state complete, record q { message_in_progress = r.1; buffer = rest })

  pub body_at :
      (q : Sequence E S)
      → body_step kind q
        ≡ (read_in_body kind.methods q.buffer q.message_in_progress >>= λ r. body_with q r)
  unfolding body_step body_with
  body_at q = refl

  pub body_ends :
      (q : Sequence E S) (n : ℕ) (m : HttpMessage E)
      → n ≤ length q.buffer
      → m.state ≡ complete
      → body_with q (n, m)
        ≡ ok (true, record q { message_in_progress = m; buffer = drop n q.buffer })
  unfolding body_with
  body_ends q n m h c = ground (arith, h, c)

  pub body_waits :
      (q : Sequence E S) (m : HttpMessage E)
      → m.state ≡ body_pending
      → body_with q (length q.buffer, m)
        ≡ ok (false, record q { message_in_progress = m; buffer = drop (length q.buffer) q.buffer })
  unfolding body_with
  body_waits q m c = ground (arith, c)
