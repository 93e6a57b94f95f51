-- ===== src/Http/Sequence/Rounds.antt =====
-- Each round of the parser leaves less work, so that the rounds given to the loop are enough.
use octopus_mahimahi.Common.{
  ℕ, zero, suc, ◌+◌, ◌≤◌, ◌<◌, ◌≡◌, refl, ap, sym, ◌∙◌, Bool, true, false, some, subst, Ends,
  Ends-bind, Result-cases, Result, Fault, ok, fail, ◌>>=◌, arith, take, drop, Bool-cases, inl, inr,
  if◌then◌else◌,
}
use octopus_mahimahi.Chunked.{find_in, crlf}
use octopus_mahimahi.Http.Message.{
  HttpMessage, MessageState, first_line_pending, headers_pending, body_pending, complete,
  set_first_line, read_in_body,
}
use octopus_mahimahi.Http.Sequence.{
  Sequence, Kind, have_complete_line, first_line_step, headers_step, take_header, body_step,
  complete_step, parsing_step, parse_loop, work, steps_of,
}
use octopus_mahimahi.Http.Sequence.Lines.{has_line, popped, find_in-length, length-drop}

abbrev pub IfOk {ℓ} : {A : Type ℓ} → (A → Type 0) → Result A → Type 0
IfOk = Ends λ e. Unit

pub IfOk-any {ℓ} : {A : Type ℓ} (m : Result A) → IfOk (λ a. Unit) m
IfOk-any (ok a) = tt
IfOk-any (fail e) = tt

add-one : (n : ℕ) → n + 1 ≡ suc n
add-one n = omega arith

pub steps_of_bound : (s : MessageState) → steps_of s ≤ 2
steps_of_bound first_line_pending = omega arith
steps_of_bound headers_pending = omega arith
steps_of_bound body_pending = omega arith
steps_of_bound complete = omega arith

module _ {E S : Type 0} (kind : Kind E S) where
  abbrev pub round : MessageState → Sequence E S → Result (Bool × Sequence E S)
  round first_line_pending q = first_line_step kind q
  round headers_pending q = headers_step kind q
  round body_pending q = body_step kind q
  round complete q = complete_step kind q

  pub step-round : (q : Sequence E S) → parsing_step kind q ≡ round q.message_in_progress.state q
  unfolding parsing_step
  step-round q = ground arith

  -- A round in a state that is known.
  pub step_in :
      (t : MessageState) (q : Sequence E S)
      → q.message_in_progress.state ≡ t
      → parsing_step kind q ≡ round t q
  step_in t q s = step-round q ∙ ap (λ u. round u q) s

  by_case :
      (P : Result (Bool × Sequence E S) → Type 0) (t : MessageState) (q : Sequence E S)
      → (t ≡ first_line_pending → P (first_line_step kind q))
      → (t ≡ headers_pending → P (headers_step kind q))
      → (t ≡ body_pending → P (body_step kind q))
      → (t ≡ complete → P (complete_step kind q))
      → P (round t q)
  by_case P first_line_pending q f h b c = f refl
  by_case P headers_pending q f h b c = h refl
  by_case P body_pending q f h b c = b refl
  by_case P complete q f h b c = c refl

  -- What holds of a round in each state holds of it.
  pub by_state :
      (P : Result (Bool × Sequence E S) → Type 0) (q : Sequence E S)
      → (q.message_in_progress.state ≡ first_line_pending → P (first_line_step kind q))
      → (q.message_in_progress.state ≡ headers_pending → P (headers_step kind q))
      → (q.message_in_progress.state ≡ body_pending → P (body_step kind q))
      → (q.message_in_progress.state ≡ complete → P (complete_step kind q))
      → P (parsing_step kind q)
  by_state P q f h b c =
      subst P (sym (step-round q)) (by_case P q.message_in_progress.state q f h b c)

  -- The loop with rounds enough.
  unfoldable pub run : Sequence E S → Result (Sequence E S)
  run q = parse_loop kind (work q + 1) q

module _ {E S : Type 0} (kind : Kind E S)
    (new_state : kind.new_message.state ≡ first_line_pending) where
  -- A round that goes on leaves less work, and the last one no more.
  abbrev pub Less : Sequence E S → Bool × Sequence E S → Type 0
  Less q r = if r.0 then work r.1 < work q else work r.1 ≤ work q

  -- A round that takes a line and ends in any state leaves less work.
  shorter :
      (q : Sequence E S) (i : ℕ) (m : HttpMessage E) (d : S)
      → find_in crlf q.buffer ≡ some i
      → work (record q { message_in_progress = m; derived = d; buffer = drop (i + 2) q.buffer })
        < work q
  shorter q i m d h = omega (
    arith,
    length-drop (i + 2) q.buffer,
    find_in-length crlf q.buffer i h,
    steps_of_bound m.state,
  )

  first_line_Less : (q : Sequence E S) → IfOk (Less q) (first_line_step kind q)
  unfolding first_line_step
  first_line_Less q = elim (Bool-cases (have_complete_line q.buffer)) [
    | inl e ↦
        let (i, found) = has_line q.buffer e in
        rw (e, first_line_step)
          (Ends-bind (λ e. Unit) (λ r. Unit) (Less q)
            (kind.initialize_new_message q.message_in_progress q.derived) _ (IfOk-any _)
            λ r h.
              rw (popped q.buffer i found, ◌>>=◌)
                (Ends-bind (λ e. Unit) (λ m. Unit) (Less q) (set_first_line (take i q.buffer) r.0) _
                  (IfOk-any _) λ m k. shorter q i m r.1 found))
    | inr e ↦ rw (e, first_line_step) (omega arith)
  ]

  headers_Less : (q : Sequence E S) → IfOk (Less q) (headers_step kind q)
  unfolding headers_step
  headers_Less q = elim (Bool-cases (have_complete_line q.buffer)) [
    | inl e ↦
        let (i, found) = has_line q.buffer e in
        rw (e, headers_step)
          (rw (popped q.buffer i found, ◌>>=◌)
            (Ends-bind (λ e. Unit) (λ m. Unit) (Less q)
              (take_header kind (take i q.buffer) q.message_in_progress) _ (IfOk-any _)
              λ m k. shorter q i m q.derived found))
    | inr e ↦ rw (e, headers_step) (omega arith)
  ]

  body_Less :
      (q : Sequence E S)
      → q.message_in_progress.state ≡ body_pending
      → IfOk (Less q) (body_step kind q)
  unfolding body_step
  body_Less q s =
      Ends-bind (λ e. Unit) (λ r. Unit) (Less q)
        (read_in_body kind.methods q.buffer q.message_in_progress) _ (IfOk-any _)
        λ r h. ground (arith, length-drop r.0 q.buffer, steps_of_bound r.1.state, ap steps_of s)

  pub step-Less : (q : Sequence E S) → IfOk (Less q) (parsing_step kind q)
  step-Less q =
      by_state kind (IfOk (Less q)) q (λ s. first_line_Less q) (λ s. headers_Less q) (body_Less q)
        λ s. omega (arith, ap steps_of s, ap steps_of new_state)

  pub loop_on :
      (f : ℕ) (q q1 : Sequence E S)
      → parsing_step kind q ≡ ok (true, q1)
      → parse_loop kind (suc f) q ≡ parse_loop kind f q1
  unfolding parse_loop
  loop_on f q q1 e = rw (e, parse_loop) refl

  pub loop_stops :
      (f : ℕ) (q q1 : Sequence E S)
      → parsing_step kind q ≡ ok (false, q1)
      → parse_loop kind (suc f) q ≡ ok q1
  unfolding parse_loop
  loop_stops f q q1 e = rw (e, parse_loop) refl

  pub loop_fails :
      (f : ℕ) (q : Sequence E S) (x : Fault)
      → parsing_step kind q ≡ fail x
      → parse_loop kind (suc f) q ≡ fail x
  unfolding parse_loop
  loop_fails f q x e = rw (e, parse_loop) refl

  pub loop_same :
      (f : ℕ) (q q1 : Sequence E S)
      → parsing_step kind q ≡ parsing_step kind q1
      → parse_loop kind (suc f) q ≡ parse_loop kind (suc f) q1
  unfolding parse_loop
  loop_same f q q1 e = rw (e, parse_loop) refl

  -- Rounds enough give the same as more.
  pub loop_enough :
      (f g : ℕ) (q : Sequence E S)
      → work q < f
      → work q < g
      → parse_loop kind f q ≡ parse_loop kind g q
  unfolding parse_loop
  loop_enough zero g q h k = absurd (omega (arith, h))
  loop_enough (suc f) zero q h k = absurd (omega (arith, k))
  loop_enough (suc f) (suc g) q h k = elim (Result-cases (parsing_step kind q)) [
    | inl (a, e) ↦
        let less = subst (IfOk (Less q)) e (step-Less q) in
        elim (Bool-cases a.0) [
          | inl t ↦
              rw (e, parse_loop)
                (rw t (loop_enough f g a.1 (ground (arith, less, t)) (ground (arith, less, t))))
          | inr t ↦ rw (e, parse_loop) (rw t refl)
        ]
    | inr (x, e) ↦ rw (e, parse_loop) refl
  ]

  pub run_on :
      (q q1 : Sequence E S) → parsing_step kind q ≡ ok (true, q1) → run kind q ≡ run kind q1
  unfolding run
  run_on q q1 e =
      let less = subst (IfOk (Less q)) e (step-Less q) in
      ap (λ n. parse_loop kind n q) (add-one (work q))
      ∙ loop_on (work q) q q1 e
      ∙ loop_enough (work q) (work q1 + 1) q1 less (omega arith)

  pub run_stops : (q q1 : Sequence E S) → parsing_step kind q ≡ ok (false, q1) → run kind q ≡ ok q1
  unfolding run
  run_stops q q1 e = ap (λ n. parse_loop kind n q) (add-one (work q)) ∙ loop_stops (work q) q q1 e

  -- An invariant of the rounds, with what holds behind the last one and the faults that may be.
  pub loop-Ends :
      (F : Fault → Type 0) (P Q : Sequence E S → Type 0)
      → ((q : Sequence E S)
          → P q
          → Ends F (λ r. if r.0 then P r.1 else Q r.1) (parsing_step kind q))
      → (f : ℕ) (q : Sequence E S) → P q
      → work q < f
      → Ends F Q (parse_loop kind f q)
  unfolding parse_loop
  loop-Ends F P Q step zero q p h = absurd (omega (arith, h))
  loop-Ends F P Q step (suc f) q p h = elim (Result-cases (parsing_step kind q)) [
    | inl (a, e) ↦
        let less = subst (IfOk (Less q)) e (step-Less q) in
        let next = subst (Ends F (λ r. if r.0 then P r.1 else Q r.1)) e (step q p) in
        elim (Bool-cases a.0) [
          | inl t ↦
              rw (e, parse_loop)
                (rw t (
                  loop-Ends F P Q step f a.1 (subst (λ b. if b then P a.1 else Q a.1) t next)
                    (ground (arith, less, t))))
          | inr t ↦ rw (e, parse_loop) (rw t (subst (λ b. if b then P a.1 else Q a.1) t next))
        ]
    | inr (x, e) ↦
        rw (e, parse_loop) (subst (Ends F (λ r. if r.0 then P r.1 else Q r.1)) e (step q p))
  ]
