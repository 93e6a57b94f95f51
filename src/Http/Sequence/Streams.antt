-- ===== src/Http/Sequence/Streams.antt =====
-- The parser gives the same whether bytes come at once or one part after another.
use octopus_mahimahi.Common.{
  ℕ, zero, suc, ◌+◌, ◌*◌, ◌<◌, ◌≡◌, refl, ap, sym, ◌∙◌, subst, false, [], ◌∷◌, ◌++◌, append_assoc,
  Result-cases, Result, ok, ◌>>=◌, >>=-ext, arith, length, length-append, ltb, Bool-cases, inl, inr,
  null,
}
use octopus_mahimahi.Packet.{Bytes}
use octopus_mahimahi.Http.Message.{HttpMessage, first_line_pending, body_pending, read_in_body}
use octopus_mahimahi.Http.Sequence.{Sequence, Kind, parsing_step, parse_loop, parse, work}
use octopus_mahimahi.Http.Sequence.Bodies.{
  Continues, known_ends, known_waits, read_overfull, read_unknown,
}
use octopus_mahimahi.Http.Sequence.Rounds.{
  run, IfOk, by_state, loop_on, loop_stops, loop_fails, loop_same, loop_enough, step-Less, Less,
}
use octopus_mahimahi.Http.Sequence.Follows.{
  parse_some, feed, Follows, first_line_Follows, headers_Follows, body_Follows, complete-Follows,
}

-- What the messages of a kind must do for their parser to take bytes in any parts.
pub record IsStream {E S : Type 0} (kind : Kind E S) (P : HttpMessage E → Type 0) : Type 0 where
  pub new_state : kind.new_message.state ≡ first_line_pending
  pub kept :
      (q : Sequence E S)
      → P q.message_in_progress
      → IfOk (λ r. P r.1.message_in_progress) (parsing_step kind q)
  pub goes_on :
      (more str : Bytes) (m : HttpMessage E)
      → P m
      → m.state ≡ body_pending
      → m.expected_size.0 ≡ false
      → Continues more (read_in_body kind.methods) str m (kind.methods.read_in_complex_body str m)

module _ {E S : Type 0} (kind : Kind E S) (P : HttpMessage E → Type 0) (h : IsStream kind P) where
  body_Continues :
      (more str : Bytes) (m : HttpMessage E)
      → P m
      → m.state ≡ body_pending
      → Continues more (read_in_body kind.methods) str m (read_in_body kind.methods str m)
  body_Continues more str m p s = elim (Bool-cases m.expected_size.0) [
    | inl k ↦ elim (Bool-cases (ltb m.expected_size.1 (length m.body))) [
      | inl o ↦
          subst (Continues more (read_in_body kind.methods) str m)
            (sym (read_overfull kind.methods str m s k (ground (arith, o))))
            (read_overfull kind.methods (str ++ more) m s k (ground (arith, o)))
      | inr o ↦ elim (Bool-cases (ltb (length m.body + length str) m.expected_size.1)) [
        | inl w ↦ known_waits kind.methods more str m s k (ground (arith, w))
        | inr w ↦ known_ends kind.methods more str m s k (ground (arith, o)) (ground (arith, w))
      ]
    ]
    | inr k ↦
        subst (Continues more (read_in_body kind.methods) str m)
          (sym (read_unknown kind.methods str m s k)) (h.goes_on more str m p s k)
  ]

  step-Follows :
      (more : Bytes) (q : Sequence E S)
      → P q.message_in_progress
      → Follows kind more q (parsing_step kind q)
  step-Follows more q p =
      by_state kind (Follows kind more q) q (first_line_Follows kind more q)
        (headers_Follows kind more q)
        (λ s. body_Follows kind more q s (body_Continues more q.buffer q.message_in_progress p s))
        (complete-Follows kind more q)

  work-feed : (more : Bytes) (q : Sequence E S) → work (feed more q) ≡ 2 * length more + work q
  unfolding feed
  work-feed more q = omega (arith, length-append q.buffer more)

  loop-feed :
      (more : Bytes) (f g : ℕ) (q : Sequence E S)
      → P q.message_in_progress
      → work q < f
      → work (feed more q) < g
      → parse_loop kind g (feed more q)
        ≡ (parse_loop kind f q >>= λ q1. parse_loop kind (work (feed more q1) + 1) (feed more q1))
  loop-feed more zero g q p w v = absurd (omega (arith, w))
  loop-feed more (suc f) zero q p w v = absurd (omega (arith, v))
  loop-feed more (suc f) (suc g) q p w v =
      let rest : Sequence E S → Result (Sequence E S) =
        λ q1. parse_loop kind (work (feed more q1) + 1) (feed more q1) in
      let follows = step-Follows more q p in
      elim (Result-cases (parsing_step kind q)) [
        | inl ((on, q1), e) ↦
            let next = subst (IfOk (λ r. P r.1.message_in_progress)) e (h.kept q p) in
            elim (Bool-cases on) [
              | inl t ↦
                  let e1 = e ∙ ap (λ b. ok (b, q1)) t in
                  let less =
                    subst (IfOk (Less kind h.new_state q)) e1 (step-Less kind h.new_state q) in
                  loop_on kind h.new_state g (feed more q) (feed more q1)
                    (subst (Follows kind more q) e1 follows)
                  ∙ loop-feed more f g q1 next (omega (arith, w, less))
                      (omega (arith, work-feed more q, work-feed more q1, v, less))
                  ∙ ap (λ x. x >>= rest) (sym (loop_on kind h.new_state f q q1 e1))
              | inr t ↦
                  let e1 = e ∙ ap (λ b. ok (b, q1)) t in
                  let less =
                    subst (IfOk (Less kind h.new_state q)) e1 (step-Less kind h.new_state q) in
                  loop_same kind h.new_state g (feed more q) (feed more q1)
                    (subst (Follows kind more q) e1 follows)
                  ∙ loop_enough kind h.new_state (suc g) (work (feed more q1) + 1) (feed more q1)
                      (omega (arith, work-feed more q, work-feed more q1, v, less)) (omega arith)
                  ∙ ap (λ x. x >>= rest) (sym (loop_stops kind h.new_state f q q1 e1))
            ]
        | inr (x, e) ↦
            loop_fails kind h.new_state g (feed more q) x (subst (Follows kind more q) e follows)
            ∙ ap (λ y. y >>= rest) (sym (loop_fails kind h.new_state f q x e))
      ]

  feed-append : (a b : Bytes) (q : Sequence E S) → feed (a ++ b) q ≡ feed b (feed a q)
  unfolding feed
  feed-append a b q = ap (λ c. record q { buffer = c }) (sym (append_assoc q.buffer a b))

  null-append : (a b : Bytes) → null a ≡ false → null (a ++ b) ≡ false
  null-append [] b n = ground (arith, n)
  null-append (c ∷ a) b n = refl

  -- Bytes given at once give the same as the first of them and then the others, failures
  -- included, if there are some in both parts.
  pub parse-append :
      (a b : Bytes) (q : Sequence E S)
      → P q.message_in_progress
      → null a ≡ false
      → null b ≡ false
      → parse kind (a ++ b) q ≡ (parse kind a q >>= λ q1. parse kind b q1)
  unfolding feed run
  parse-append a b q p na nb =
      let fed = feed b (feed a q) in
      parse_some kind (a ++ b) q (null-append a b na)
      ∙ ap (λ c. parse_loop kind (work c + 1) c) (feed-append a b q)
      ∙ loop-feed b (work (feed a q) + 1) (work fed + 1) (feed a q) p (omega arith) (omega arith)
      ∙ sym (
          ap (λ x. x >>= λ q1. parse kind b q1) (parse_some kind a q na)
          ∙ >>=-ext (parse_loop kind (work (feed a q) + 1) (feed a q)) _ _
              (λ q1. parse_some kind b q1 nb))
