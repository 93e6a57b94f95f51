-- ===== src/Poller/Progress.antt =====
-- A call of poll that succeeds has served an action.
use octopus_mahimahi.Common.{
  ℕ, ◌≡◌, refl, sym, ◌∙◌, ap, subst, true, false, List, [], ◌∷◌, Option, none, some, Result, ok,
  fail, Ends, Ends-bind, Ends-map, arith, ◌==◌, inl, inr, Bool-cases, Option-cases, thrown,
}
use octopus_mahimahi.Http.Request.Demands.{Throws}
use octopus_mahimahi.Poller.{
  Action, Poller, Direction, Events, PollResult, success, timeout, exited, wanted_events, wanted,
  prepare, serve_loop, poll, any_event,
}
use octopus_mahimahi.Poller.Counts.{
  IsMatched, actions, wants, Grows, Served, Counting, any_met, Answers, Grows-trans, Grows-Served,
  Within, Left, serve_loop_lem,
}

module _ {W : Type 0} where
  -- The events of `q` are those that the actions of `p` want.
  record Prepared (w : W) (p q : Poller W) : Type 0 where
    pub matched : IsMatched q
    pub same : actions q ≡ actions p
    pub asked : wanted_events q ≡ wants w (actions p)

  prepare_lem : (w : W) (p : Poller W) → IsMatched p → Ends Throws (Prepared w p) (prepare w p)
  unfolding prepare
  prepare_lem w [] m = record { matched = tt; same = refl; asked = refl }
  prepare_lem w ((a, f) ∷ p) m =
      let same : (f.fd == a.fd) ≡ true = ground (arith, m) in
      rw same (
        Ends-bind Throws (Prepared w p) _ (prepare w p) _ (prepare_lem w p m.1) λ q k. record {
          matched = (m.0, k.matched);
          same = ap (λ l. a ∷ l) k.same;
          asked = ap (λ l. wanted w a ∷ l) k.asked;
        })

  -- What a call of `poll` leaves.
  pub record Polled (all : List (Action W)) (w : W) (r : PollResult × (W × Poller W)) : Type 0 where
    pub matched : IsMatched r.1.1
    pub idle : any_event (wants w all) ≡ false → (r.0 ≡ exited 0) × (r.1.0 ≡ w)
    pub progress : r.0 ≡ success → Grows all w r.1.0 × Served all w r.1.0

  answered :
      (w w1 : W) (events : List Events) (q : Poller W)
      → IsMatched q
      → Counting (actions q) (actions q)
      → any_event (wants w (actions q)) ≡ true
      → Answers (actions q) w (wanted_events q) (some (some events, w1))
      → Ends Throws (Polled (actions q) w) (serve_loop w1 events q)
  answered w w1 events q m c t (g, (n, y)) =
      let self : Within (actions q) (actions q) = record {
        grows = λ w0 w2 h. h;
        served = λ w0 w2 v. v;
      } in
      Ends-map Throws (Left (actions q) q w1 (any_met events (wanted_events q))) _
        (serve_loop w1 events q) (serve_loop_lem (actions q) w1 events q self c n)
        λ r l. record {
          matched = l.1 m;
          idle = λ z. ground (arith, t, z);
          progress = λ s. (
            Grows-trans (actions q) w w1 r.1.0 g (l.0 s).0,
            Grows-Served (actions q) w w1 r.1.0 g ((l.0 s).1 y),
          );
        }

  -- `poll` behind the loop that prepares it.
  abbrev polled :
      (W → List (Option Direction) → ℕ → Option (Option (List Events) × W))
      → ℕ
      → W
      → Poller W
      → Result (PollResult × (W × Poller W))
  polled system_poll timeout_ms w q = elim (any_event (wanted_events q)) [
    | false ↦ ok (exited 0, (w, q))
    | true ↦ elim (system_poll w (wanted_events q) timeout_ms) [
      | none ↦ fail thrown
      | some answer ↦ elim answer.0 [
        | none ↦ ok (timeout, (answer.1, q))
        | some events ↦ serve_loop answer.1 events q
      ]
    ]
  ]

  polled_lem :
      (system_poll : W → List (Option Direction) → ℕ → Option (Option (List Events) × W))
      (timeout_ms : ℕ) (w : W) (q : Poller W)
      → IsMatched q
      → wanted_events q ≡ wants w (actions q)
      → Counting (actions q) (actions q)
      → (any_event (wants w (actions q)) ≡ true
          → Answers
              (actions q)
              w
              (wants w (actions q))
              (system_poll w (wants w (actions q)) timeout_ms))
      → Ends Throws (Polled (actions q) w) (polled system_poll timeout_ms w q)
  polled_lem system_poll timeout_ms w q m x c answers =
      elim (Bool-cases (any_event (wanted_events q))) [
        | inr e ↦
            rw (e, polled)
              record { matched = m; idle = λ z. (refl, refl); progress = λ y. ground (arith, y) }
        | inl e ↦
            let t : any_event (wants w (actions q)) ≡ true = subst (λ l. any_event l ≡ true) x e in
            let h : Answers (actions q) w (wanted_events q)
                (system_poll w (wanted_events q) timeout_ms) =
              subst (λ l. Answers (actions q) w l (system_poll w l timeout_ms)) (sym x)
                (answers t) in
            elim (Option-cases (system_poll w (wanted_events q) timeout_ms)) [
              | inl o ↦ ground (arith, e, o)
              | inr (answer, o) ↦ elim (Option-cases answer.0) [
                | inl z ↦
                    rw (e, polled)
                      (rw o (
                        rw (z, Ends)
                          record {
                            matched = m;
                            idle = λ z. ground (arith, t, z);
                            progress = λ y. ground (arith, y);
                          }))
                | inr (events, z) ↦
                    rw (e, polled)
                      (rw o (
                        rw (z, Ends)
                          (answered w answer.1 events q m c t (
                            subst (Answers (actions q) w (wanted_events q))
                              (o ∙ ap (λ x. some (x, answer.1)) z) h))))
              ]
            ]
      ]

  -- With `pollfd`s that match their actions, callbacks that only add to the counts of reads and writes
  -- or throw, and a system call that answers for each `pollfd` and with an event that is asked for,
  -- `poll` throws an exception or returns with `pollfd`s that match; if no action wants anything it
  -- returns at once with Exit and status 0, and if it returns Success the count of some action is
  -- greater than it was, and none is less.
  pub poll-Progress :
      (system_poll : W → List (Option Direction) → ℕ → Option (Option (List Events) × W))
      (timeout_ms : ℕ) (w : W) (p : Poller W)
      → IsMatched p
      → Counting (actions p) (actions p)
      → (any_event (wants w (actions p)) ≡ true
          → Answers
              (actions p)
              w
              (wants w (actions p))
              (system_poll w (wants w (actions p)) timeout_ms))
      → Ends Throws (Polled (actions p) w) (poll system_poll timeout_ms w p)
  unfolding poll
  poll-Progress system_poll timeout_ms w p m c answers =
      Ends-bind Throws (Prepared w p) (Polled (actions p) w) (prepare w p) _ (prepare_lem w p m)
        λ q k.
          subst (λ l. Ends Throws (Polled l w) (polled system_poll timeout_ms w q)) k.same
            (polled_lem system_poll timeout_ms w q k.matched (k.asked ∙ ap (wants w) (sym k.same))
              (subst (λ l. Counting l l) (sym k.same) c)
              (subst
                (λ l.
                  any_event (wants w l) ≡ true
                  → Answers l w (wants w l) (system_poll w (wants w l) timeout_ms))
                (sym k.same) answers))
