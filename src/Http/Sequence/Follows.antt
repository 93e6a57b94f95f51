-- ===== src/Http/Sequence/Follows.antt =====
-- What more bytes in the buffer change in a round: nothing, or what comes behind it.
use octopus_mahimahi.Common.{
  null, false, ℕ, ◌+◌, ◌≤◌, ◌≡◌, refl, ap, ap₂, sym, ◌∙◌, subst, Bool, true, ◌++◌, some,
  Result-cases, Result, ok, fail, ◌>>=◌, >>=-assoc, >>=-ext, arith, length, length-append, take,
  drop, leb, ◌==◌, Bool-cases, inl, inr, if◌then◌else◌,
}
use octopus_mahimahi.Packet.{Bytes}
use octopus_mahimahi.Chunked.{find_in, crlf}
use octopus_mahimahi.Http.Message.{
  HttpMessage, first_line_pending, headers_pending, body_pending, complete, set_first_line,
  read_in_body,
}
use octopus_mahimahi.Http.Sequence.{
  Sequence, Kind, have_complete_line, get_and_pop_line, first_line_step, headers_step, take_header,
  body_step, complete_step, parsing_step, parse,
}
use octopus_mahimahi.Http.Sequence.Lines.{
  has_line, popped, find_in-length, find_in-append, drop-past, drop_all, take-append, drop-append,
}
use octopus_mahimahi.Http.Sequence.Bodies.{Continues}
use octopus_mahimahi.Http.Sequence.Rounds.{run, step_in}
use octopus_mahimahi.Http.Sequence.Steps.{
  first_line_with, headers_with, body_with, first_line_at, headers_at, body_at, first_line_waits,
  headers_wait, body_ends, body_waits, have_line,
}

unfoldable pub feed : {E S : Type 0} → Bytes → Sequence E S → Sequence E S
feed more q = record q { buffer = q.buffer ++ more }

module _ {E S : Type 0} (kind : Kind E S) (more : Bytes) where
  -- What a round on `q` says of the round that has more bytes.
  abbrev pub Follows : Sequence E S → Result (Bool × Sequence E S) → Type 0
  Follows q (fail e) = parsing_step kind (feed more q) ≡ fail e
  Follows q (ok r) =
      if r.0
      then (parsing_step kind (feed more q) ≡ ok (true, feed more r.1))
      else (parsing_step kind (feed more q) ≡ parsing_step kind (feed more r.1))

  Follows-bind :
      {A : Type 0} (q : Sequence E S) (m : Result A) (f g : A → Result (Bool × Sequence E S))
      → parsing_step kind (feed more q) ≡ (m >>= g)
      → ((a : A) → parsing_step kind (feed more q) ≡ g a → Follows q (f a))
      → Follows q (m >>= f)
  Follows-bind q (ok a) f g h k = k a h
  Follows-bind q (fail e) f g h k = h

  line_more :
      (b : Bytes) (i : ℕ)
      → find_in crlf b ≡ some i
      → get_and_pop_line (b ++ more) ≡ ok (take i b, drop (i + 2) b ++ more)
  line_more b i h =
      let fits = find_in-length crlf b i h in
      popped (b ++ more) i (find_in-append crlf b more i h)
      ∙ ap ok (
          ap₂ (λ s t. (s, t)) (take-append i b more (omega (arith, fits)))
            (drop-append (i + 2) b more (omega (arith, fits))))

  pub first_line_Follows :
      (q : Sequence E S)
      → q.message_in_progress.state ≡ first_line_pending
      → Follows q (first_line_step kind q)
  unfolding first_line_with feed
  first_line_Follows q s = elim (Bool-cases (have_complete_line q.buffer)) [
    | inl e ↦
        let (i, found) = has_line q.buffer e in
        let now = first_line_at kind q e ∙ ap (first_line_with kind q) (popped q.buffer i found) in
        let fed =
          step_in kind first_line_pending (feed more q) s
          ∙ first_line_at kind (feed more q)
              (have_line kind (q.buffer ++ more) i (find_in-append crlf q.buffer more i found))
          ∙ ap (first_line_with kind (feed more q)) (line_more q.buffer i found) in
        subst (Follows q) (sym now) (
          Follows-bind q (kind.initialize_new_message q.message_in_progress q.derived) _ _ fed
            λ r fed1. Follows-bind q (set_first_line (take i q.buffer) r.0) _ _ fed1 λ m fed2. fed2)
    | inr e ↦ subst (Follows q) (sym (first_line_waits kind q e)) refl
  ]

  pub headers_Follows :
      (q : Sequence E S)
      → q.message_in_progress.state ≡ headers_pending
      → Follows q (headers_step kind q)
  unfolding headers_with feed
  headers_Follows q s = elim (Bool-cases (have_complete_line q.buffer)) [
    | inl e ↦
        let (i, found) = has_line q.buffer e in
        let now = headers_at kind q e ∙ ap (headers_with kind q) (popped q.buffer i found) in
        let fed =
          step_in kind headers_pending (feed more q) s
          ∙ headers_at kind (feed more q)
              (have_line kind (q.buffer ++ more) i (find_in-append crlf q.buffer more i found))
          ∙ ap (headers_with kind (feed more q)) (line_more q.buffer i found) in
        subst (Follows q) (sym now) (
          Follows-bind q (take_header kind (take i q.buffer) q.message_in_progress) _ _ fed
            λ m fed1. fed1)
    | inr e ↦ subst (Follows q) (sym (headers_wait kind q e)) refl
  ]

  -- The bytes read before count for the buffer that has them.
  body_shift :
      (q : Sequence E S) (m : HttpMessage E) (r : ℕ × HttpMessage E)
      → body_with kind (feed more q) (length q.buffer + r.0, r.1)
        ≡ body_with kind
            (feed more
              (record q { message_in_progress = m; buffer = drop (length q.buffer) q.buffer }))
            r
  unfolding body_with feed
  body_shift q m r =
      let counted = length-append q.buffer more in
      let whole : (length q.buffer + r.0 == length (q.buffer ++ more)) ≡ (r.0 == length more) =
        ground (arith, counted) in
      let inside : leb (length q.buffer + r.0) (length (q.buffer ++ more)) ≡ leb r.0 (length more) =
        ground (arith, counted) in
      rw (whole, inside, drop-past q.buffer more r.0, drop_all q.buffer) refl

  body_fed :
      (q : Sequence E S) (x : Result (ℕ × HttpMessage E))
      → q.message_in_progress.state ≡ body_pending
      → read_in_body kind.methods (q.buffer ++ more) q.message_in_progress ≡ x
      → parsing_step kind (feed more q) ≡ (x >>= λ r. body_with kind (feed more q) r)
  unfolding feed
  body_fed q x s h =
      step_in kind body_pending (feed more q) s
      ∙ body_at kind (feed more q)
      ∙ ap (λ y. y >>= λ r. body_with kind (feed more q) r) h

  ends_Follows :
      (q : Sequence E S) (n : ℕ) (m : HttpMessage E)
      → q.message_in_progress.state ≡ body_pending
      → m.state ≡ complete
      → n ≤ length q.buffer
      → read_in_body kind.methods (q.buffer ++ more) q.message_in_progress ≡ ok (n, m)
      → Follows q (body_with kind q (n, m))
  unfolding feed
  ends_Follows q n m s c h again = subst (Follows q) (sym (body_ends kind q n m h c)) (
      body_fed q _ s again
      ∙ body_ends kind (feed more q) n m (omega (arith, h, length-append q.buffer more)) c
      ∙ ap (λ b. ok (true, record (feed more q) { message_in_progress = m; buffer = b }))
          (drop-append n q.buffer more h))

  waits_Follows :
      (q : Sequence E S) (m : HttpMessage E)
      → q.message_in_progress.state ≡ body_pending
      → m.state ≡ body_pending
      → read_in_body kind.methods (q.buffer ++ more) q.message_in_progress
        ≡ (read_in_body kind.methods more m >>= λ s. ok (length q.buffer + s.0, s.1))
      → Follows q (body_with kind q (length q.buffer, m))
  unfolding feed
  waits_Follows q m s c again =
      let q1 = record q { message_in_progress = m; buffer = drop (length q.buffer) q.buffer } in
      let later = ap (λ b. read_in_body kind.methods (b ++ more) m) (drop_all q.buffer) in
      subst (Follows q) (sym (body_waits kind q m c)) (
        body_fed q _ s again
        ∙ >>=-assoc (read_in_body kind.methods more m) _ _
        ∙ >>=-ext (read_in_body kind.methods more m) _ _ (body_shift q m)
        ∙ sym (body_fed q1 _ c later))

  pub body_Follows :
      (q : Sequence E S)
      → q.message_in_progress.state ≡ body_pending
      → Continues more
          (read_in_body kind.methods)
          q.buffer
          q.message_in_progress
          (read_in_body kind.methods q.buffer q.message_in_progress)
      → Follows q (body_step kind q)
  body_Follows q s h =
      subst (Follows q) (sym (body_at kind q))
        (elim (Result-cases (read_in_body kind.methods q.buffer q.message_in_progress)) [
          | inl (r, e) ↦
              let h1 =
                subst (Continues more (read_in_body kind.methods) q.buffer q.message_in_progress) e
                  h in
              subst (λ x. Follows q (x >>= λ t. body_with kind q t)) (sym e)
                (elim h1 [
                  | inl (c, n, again) ↦ ends_Follows q r.0 r.1 s c n again
                  | inr (n, c, again) ↦
                      subst (λ k. Follows q (body_with kind q (k, r.1))) (sym n)
                        (waits_Follows q r.1 s c again)
                ])
          | inr (x, e) ↦
              subst (λ x. Follows q (x >>= λ t. body_with kind q t)) (sym e)
                (body_fed q _ s (
                  subst (Continues more (read_in_body kind.methods) q.buffer q.message_in_progress)
                    e h))
        ])

  pub complete-Follows :
      (q : Sequence E S) → q.message_in_progress.state ≡ complete → Follows q (complete_step kind q)
  unfolding feed
  complete-Follows q s = step_in kind complete (feed more q) s

module _ {E S : Type 0} (kind : Kind E S) where
  pub parse_some :
      (b : Bytes) (q : Sequence E S) → null b ≡ false → parse kind b q ≡ run kind (feed b q)
  unfolding parse feed run
  parse_some b q n = rw (n, parse) refl
