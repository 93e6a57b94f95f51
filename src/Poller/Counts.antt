-- ===== src/Poller/Counts.antt =====
-- What the loop of poll does to the counts of reads and writes.
use octopus_mahimahi.Common.{
  ℕ, ◌≤◌, ◌<◌, ◌≡◌, sym, ◌∙◌, Bool, true, false, ◌||◌, List, [], ◌∷◌, Option, none, some, Ends,
  Ends-bind, arith, length, ◌==◌, ◌⊎◌, inl, inr, Bool-cases, Option-cases,
}
use octopus_mahimahi.Http.Request.Demands.{Throws}
use octopus_mahimahi.Poller.{
  Action, Poller, Direction, Events, PollResult, success, meets, wanted_events, service_count,
  wanted, serve, serve_loop,
}

abbrev pub any_met : List Events → List (Option Direction) → Bool
any_met (e ∷ events) (d ∷ asked) = (e.broken || meets e d) || any_met events asked
any_met events asked = false

module _ {W : Type 0} where
  -- Every action has the `pollfd` of its descriptor.
  abbrev pub IsMatched : Poller W → Type 0
  IsMatched [] = Unit
  IsMatched ((a, f) ∷ p) = (f.fd ≡ a.fd) × IsMatched p

  abbrev pub actions : Poller W → List (Action W)
  actions [] = []
  actions ((a, f) ∷ p) = a ∷ actions p

  -- What the actions want.
  abbrev pub wants : W → List (Action W) → List (Option Direction)
  wants w [] = []
  wants w (a ∷ all) = wanted w a ∷ wants w all

  -- No count of these actions is less than it was.
  abbrev pub Grows : List (Action W) → W → W → Type 0
  Grows [] w w1 = Unit
  Grows (a ∷ all) w w1 = (service_count a w ≤ service_count a w1) × Grows all w w1

  -- The count of one of them is greater than it was.
  abbrev pub Served : List (Action W) → W → W → Type 0
  Served [] w w1 = ⊥
  Served (a ∷ all) w w1 = (service_count a w < service_count a w1) ⊎ Served all w w1

  -- A callback throws, or returns with no count less than it was.
  abbrev pub Counting : List (Action W) → List (Action W) → Type 0
  Counting all [] = Unit
  Counting all (a ∷ part) =
      ((w : W) → Ends Throws (λ r. Grows all w r.1) (a.callback w)) × Counting all part

  -- One event set for each `pollfd`, and one of them is what the action wants or an error.
  abbrev pub Answers :
      List (Action W) → W → List (Option Direction) → Option (Option (List Events) × W) → Type 0
  Answers all w asked none = Unit
  Answers all w asked (some (none, w1)) = Grows all w w1
  Answers all w asked (some (some events, w1)) =
      Grows all w w1 × ((length events ≡ length asked) × (any_met events asked ≡ true))

  pub Grows-refl : (all : List (Action W)) (w : W) → Grows all w w
  Grows-refl [] w = tt
  Grows-refl (a ∷ all) w = (omega arith, Grows-refl all w)

  pub Grows-trans :
      (all : List (Action W)) (w w1 w2 : W) → Grows all w w1 → Grows all w1 w2 → Grows all w w2
  Grows-trans [] w w1 w2 g h = tt
  Grows-trans (a ∷ all) w w1 w2 g h = (omega arith, Grows-trans all w w1 w2 g.1 h.1)

  Served-Grows :
      (all : List (Action W)) (w w1 w2 : W) → Served all w w1 → Grows all w1 w2 → Served all w w2
  Served-Grows [] w w1 w2 s g = absurd s
  Served-Grows (a ∷ all) w w1 w2 (inl lt) g = inl (omega arith)
  Served-Grows (a ∷ all) w w1 w2 (inr s) g = inr (Served-Grows all w w1 w2 s g.1)

  pub Grows-Served :
      (all : List (Action W)) (w w1 w2 : W) → Grows all w w1 → Served all w1 w2 → Served all w w2
  Grows-Served [] w w1 w2 g s = absurd s
  Grows-Served (a ∷ all) w w1 w2 g (inl lt) = inl (omega arith)
  Grows-Served (a ∷ all) w w1 w2 g (inr s) = inr (Grows-Served all w w1 w2 g.1 s)

  -- `part` stands in `all`.
  pub record Within (all part : List (Action W)) : Type 0 where
    pub grows : (w w1 : W) → Grows all w w1 → Grows part w w1
    pub served : (w w1 : W) → Served part w w1 → Served all w w1

  -- What a step with the action `a` leaves.
  abbrev Step : List (Action W) → Action W → W → Option ℕ × (W × Action W) → Type 0
  Step all a w s = ((s.0 ≡ none) → Grows all w s.1.0 × Served all w s.1.0) × (s.1.1.fd ≡ a.fd)

  changed :
      (all part : List (Action W)) (a : Action W) (w w1 : W)
      → Within all (a ∷ part)
      → Grows all w w1
      → (service_count a w == service_count a w1) ≡ false
      → Grows all w w1 × Served all w w1
  changed all part a w w1 i g n =
      let le = (i.grows w w1 g).0 in (g, i.served w w1 (inl (ground (arith, le, n))))

  serve_lem :
      (all part : List (Action W)) (a : Action W) (w : W)
      → Within all (a ∷ part)
      → Ends Throws (λ r. Grows all w r.1) (a.callback w)
      → Ends Throws (Step all a w) (serve w a)
  unfolding serve
  serve_lem all part a w i h =
      Ends-bind Throws (λ r. Grows all w r.1) (Step all a w) (a.callback w) _ h
        λ r g. elim (Bool-cases (service_count a w == service_count a r.1)) [
          | inl e ↦ ground arith
          | inr e ↦ let c = changed all part a w r.1 i g e in ground (arith, c)
        ]

  -- What the loop leaves of `p`, where one of its events is met or none.
  abbrev pub Left : List (Action W) → Poller W → W → Bool → PollResult × (W × Poller W) → Type 0
  Left all p w met r =
      ((r.0 ≡ success) → Grows all w r.1.0 × ((met ≡ true) → Served all w r.1.0))
      × (IsMatched p → IsMatched r.1.1)

  pub serve_loop_lem :
      (all : List (Action W)) (w : W) (events : List Events) (p : Poller W)
      → Within all (actions p)
      → Counting all (actions p)
      → length events ≡ length (wanted_events p)
      → Ends Throws (Left all p w (any_met events (wanted_events p))) (serve_loop w events p)
  unfolding serve_loop
  serve_loop_lem all w [] [] i c n = (λ e. (Grows-refl all w, λ m. ground (arith, m)), λ m. tt)
  serve_loop_lem all w (e ∷ events) [] i c n =
      (λ o. (Grows-refl all w, λ m. ground (arith, m)), λ m. tt)
  serve_loop_lem all w [] ((a, f) ∷ p) i c n = ground (arith, n)
  serve_loop_lem all w (e ∷ events) ((a, f) ∷ p) i c n =
      let rest_within : Within all (actions p) = record {
        grows = λ w0 w1 g. (i.grows w0 w1 g).1;
        served = λ w0 w1 s. i.served w0 w1 (inr s);
      } in
      let n1 : length events ≡ length (wanted_events p) = omega (arith, n) in
      let rest : (w1 : W)
          → Ends Throws (Left all p w1 (any_met events (wanted_events p)))
              (serve_loop w1 events p) =
        λ w1. serve_loop_lem all w1 events p rest_within c.1 n1 in
      elim (Bool-cases e.broken) [
        | inl b ↦ rw b (λ o. ground (arith, o), λ m. m)
        | inr b ↦ elim (Bool-cases (meets e f.events)) [
          | inl m ↦ rw b (
              rw m (
                Ends-bind Throws (Step all a w) _ (serve w a) _
                  (serve_lem all (actions p) a w i (c.0 w))
                  λ s st. elim (Option-cases s.0) [
                    | inl o ↦
                        let (g, v) = st.0 o in
                        rw o (
                          Ends-bind Throws (Left all p s.1.0 (any_met events (wanted_events p))) _
                            (serve_loop s.1.0 events p) _ (rest s.1.0)
                            λ r l. (
                              λ y. (
                                Grows-trans all w s.1.0 r.1.0 g (l.0 y).0,
                                λ m. Served-Grows all w s.1.0 r.1.0 v (l.0 y).0,
                              ),
                              λ k. (k.0 ∙ sym st.1, l.1 k.1),
                            ))
                    | inr (status, o) ↦ rw o (λ y. ground (arith, y), λ k. (k.0 ∙ sym st.1, k.1))
                  ]))
          | inr m ↦ rw b (
              rw m (
                Ends-bind Throws (Left all p w (any_met events (wanted_events p))) _
                  (serve_loop w events p) _ (rest w) λ r l. (l.0, λ k. (k.0, l.1 k.1))))
        ]
      ]
