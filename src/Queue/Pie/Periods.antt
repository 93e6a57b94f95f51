-- ===== src/Queue/Pie/Periods.antt =====
-- The periods of PIE, its arrivals and departures.
use octopus_mahimahi.Common.{
  ℕ, zero, suc, ◌+◌, ◌-◌, ◌≤◌, ◌<◌, ◌/◌, ◌^◌, ◌%◌, ◌≡◌, ◌⊎◌, refl, ap, ap₂, sym, subst, ◌∙◌, inl,
  inr, Bool, true, false, List, [], ◌∷◌, ◌++◌, arith, ok, Returns, Returns-map, Returns-bind, ◌>>◌,
  ltb, Bool-cases, if◌then◌else◌, add64, sub64,
}
use native.Mathlib.Nat.{div-eq_of_lt, div-eq-sub-div}
use octopus_mahimahi.Packet.{QueuedPacket}
use octopus_mahimahi.Queue.Abstract.{Clock}
use octopus_mahimahi.Queue.Fifo.{within, total}
use octopus_mahimahi.Queue.Counts.{
  Fits, limits, with_log, without_front, size_bytes-IsCounted, good_with_packet-IsCounted,
}
use octopus_mahimahi.Queue.Limits.{
  IsValid, IsValid-with_log, accept-IsValid, assert_good-IsValid, without_front-IsValid,
  dequeue-IsValid,
}
use octopus_mahimahi.Queue.{accept, assert_good}
use octopus_mahimahi.Queue.Pie.{
  Doubles, PieQueue, period, update_loop, calculate_drop_prob, drop_early, enqueue, sample_rate,
  count_departure, dequeue,
}

module _ {D G : Type 0} (doubles : Doubles D) (draw : G → D × G) where
  -- What a period leaves alone.
  abbrev Keeps : PieQueue D G → PieQueue D G → Type 0
  Keeps q q' = (q'.base ≡ q.base) × (q'.t_update ≡ q.t_update)

  period-Keeps :
      (b : ℕ) (q : PieQueue D G)
      → Keeps q (period doubles draw b q)
        × ((period doubles draw b q).last_update ≡ add64 q.last_update q.t_update)
  unfolding period
  period-Keeps b q = ground arith

  -- `n` periods, with the packets that are there.
  abbrev pub periods : ℕ → PieQueue D G → PieQueue D G
  periods zero q = q
  periods (suc n) q = periods n (period doubles draw (total q.base.internal_queue) q)

  -- The periods missed up to `now`: a period is due once more than its length has passed.
  abbrev pub missed : ℕ → PieQueue D G → ℕ
  missed now q = (sub64 now q.last_update - 1) / q.t_update

  -- Each period that was missed has been made up for, and no other, and the packets are as before.
  pub record Updates (now : ℕ) (q q' : PieQueue D G) : Type 0 where
    pub made_up : q' ≡ periods (missed now q) q
    pub same_base : q'.base ≡ q.base
    pub up_to_date : sub64 now q'.last_update ≤ q.t_update

  closer : (now last t : ℕ) → t < sub64 now last → sub64 now (add64 last t) ≡ sub64 now last - t
  closer now last t h = omega (arith, h)

  none_missed :
      (now : ℕ) (q : PieQueue D G)
      → 0 < q.t_update
      → sub64 now q.last_update ≤ q.t_update
      → missed now q ≡ 0
  none_missed now q t h = div-eq_of_lt (omega (arith, t, h))

  -- One period fewer is missed after a period.
  missed_next :
      (now : ℕ) (q q1 : PieQueue D G)
      → 0 < q.t_update
      → q.t_update < sub64 now q.last_update
      → sub64 now q1.last_update ≡ sub64 now q.last_update - q.t_update
      → q1.t_update ≡ q.t_update
      → missed now q ≡ suc (missed now q1)
  missed_next now q q1 t y l k =
      let e = sub64 now q.last_update in
      let less : e - 1 - q.t_update ≡ sub64 now q1.last_update - 1 = omega (arith, l, y) in
      let one_more : (e - 1) / q.t_update ≡ suc ((e - 1 - q.t_update) / q.t_update) =
        div-eq-sub-div t (omega (arith, y)) ∙ omega arith in
      one_more ∙ ap₂ (λ n d. suc (n / d)) less (sym k)

  update_loop-Updates :
      (fuel now : ℕ) (q : PieQueue D G)
      → IsValid q.base
      → 0 < q.t_update
      → sub64 now q.last_update < fuel
      → Returns (Updates now q) (update_loop doubles draw fuel now q)
  unfolding update_loop
  update_loop-Updates zero now q v t h = elim h [ ]
  update_loop-Updates (suc fuel) now q v t h =
      elim (Bool-cases (ltb q.t_update (sub64 now q.last_update))) [
        | inr n ↦
            rw (n, update_loop)
              (record {
                made_up = ap (λ n. periods n q) (sym (none_missed now q t (ground (arith, n))));
                same_base = refl;
                up_to_date = ground (arith, n);
              })
        | inl y ↦
            let q1 = period doubles draw (total q.base.internal_queue) q in
            let (k, l) = period-Keeps (total q.base.internal_queue) q in
            let less : sub64 now q1.last_update ≡ sub64 now q.last_update - q.t_update =
              ap (sub64 now) l ∙ closer now q.last_update q.t_update (ground (arith, y)) in
            rw (y, update_loop)
              (rw (size_bytes-IsCounted v.counted) (
                Returns-map (Updates now q1) (Updates now q) (update_loop doubles draw fuel now q1)
                  (update_loop-Updates fuel now q1 (subst IsValid (sym k.0) v)
                    (omega (arith, k.1, t)) (ground (arith, less, y, t, h)))
                  λ q' u. record {
                    made_up =
                        u.made_up
                        ∙ ap (λ n. periods n q)
                            (sym (missed_next now q q1 t (ground (arith, y)) less k.1));
                    same_base = u.same_base ∙ k.0;
                    up_to_date = omega (arith, u.up_to_date, k.1);
                  }))
      ]

  -- At a valid queue with a positive period, `calculate_drop_prob` returns: its fuel is enough. Each
  -- period missed since the last update, and no other, has been made up for, one after the other with
  -- the packets that are there; no more than a period is left, and the packets are as before.
  pub calculate_drop_prob-Updates :
      (now : ℕ) (q : PieQueue D G)
      → IsValid q.base
      → 0 < q.t_update
      → Returns (Updates now q) (calculate_drop_prob doubles draw now q)
  unfolding calculate_drop_prob
  calculate_drop_prob-Updates now q v t =
      update_loop-Updates (sub64 now q.last_update + 1) now q v t (omega arith)

  drop_early-base :
      (q : PieQueue D G)
      → IsValid q.base
      → Returns (λ r. r.1.base ≡ q.base) (drop_early doubles draw q)
  unfolding drop_early
  drop_early-base q v = ground (arith, size_bytes-IsCounted v.counted)

  -- What an arrival leaves: a valid queue of the packets held, or of these and the new one.
  pub record Arrives (q : PieQueue D G) (p : QueuedPacket) (q' : PieQueue D G) : Type 0 where
    pub valid : IsValid q'.base
    pub kept :
        (q'.base.internal_queue ≡ q.base.internal_queue)
        ⊎ (q'.base.internal_queue ≡ q.base.internal_queue ++ p ∷ [])

  settle-Arrives :
      (p : QueuedPacket) (q q1 : PieQueue D G)
      → q1.base ≡ q.base
      → IsValid q1.base
      → Fits p
      → within (limits q1.base) (q1.base.internal_queue ++ p ∷ []) ≡ true
      → (r : Bool × PieQueue D G) → r.1.base ≡ q1.base
      → Returns (Arrives q p) (
          let q3 : PieQueue D G = if r.0 then r.1 else record r.1 { base = accept p r.1.base } in
          assert_good q3.base >> ok q3)
  unfolding accept
  settle-Arrives p q q1 s v f w (true, q2) e =
      let v2 = subst IsValid (sym e) v in
      rw (assert_good-IsValid v2)
        (record { valid = v2; kept = inl (ap (λ b. b.internal_queue) (e ∙ s)) })
  settle-Arrives p q q1 s v f w (false, q2) e =
      let v2 =
        accept-IsValid p (subst IsValid (sym e) v) f
          (subst (λ b. within (limits b) (b.internal_queue ++ p ∷ []) ≡ true) (sym e) w) in
      rw (assert_good-IsValid v2)
        (record { valid = v2; kept = inr (ap (λ b. b.internal_queue ++ p ∷ []) (e ∙ s)) })

  -- The arrival of a packet that fits at a valid queue, with a positive period, returns a
  -- valid queue, within its limits, of the packets held before, or of these and the new one.
  -- No assertion fails, whatever the draws.
  pub enqueue_pie :
      (now : ℕ) (p : QueuedPacket) (q : PieQueue D G)
      → IsValid q.base
      → Fits p
      → 0 < q.t_update
      → Returns (Arrives q p) (enqueue doubles draw now p q)
  unfolding enqueue
  enqueue_pie now p q v f t =
      Returns-bind (Updates now q) (Arrives q p) (calculate_drop_prob doubles draw now q) _
        (calculate_drop_prob-Updates now q v t)
        λ q1 u.
          let v1 = subst IsValid (sym u.same_base) v in
          let same = ap (λ b. b.internal_queue) u.same_base in
          rw (good_with_packet-IsCounted p v1.counted f)
            (elim (Bool-cases (within (limits q1.base) (q1.base.internal_queue ++ p ∷ []))) [
              | inr w ↦ rw w (record { valid = v1; kept = inl same })
              | inl w ↦ rw w (
                  Returns-bind (λ r. r.1.base ≡ q1.base) (Arrives q p) (drop_early doubles draw q1)
                    _ (drop_early-base q1 v1) (settle-Arrives p q q1 u.same_base v1 f w))
            ])

  count_departure-Keeps :
      (now b : ℕ) (ret : QueuedPacket) (q : PieQueue D G)
      → Keeps q (count_departure doubles draw now b ret q)
  unfolding count_departure sample_rate
  count_departure-Keeps now b ret q = ground arith

  -- A departure from a valid queue that holds `p` before `rest`, with a positive period, hands out `p`
  -- and leaves a valid queue of `rest`.
  pub dequeue_pie :
      (clock : Clock) (q : PieQueue D G) (p : QueuedPacket) (rest : List QueuedPacket)
      → IsValid q.base
      → q.base.internal_queue ≡ p ∷ rest
      → 0 < q.t_update
      → Returns
          (λ r. (r.0 ≡ p) × IsValid r.1.base × (r.1.base.internal_queue ≡ rest))
          (dequeue doubles draw clock q)
  unfolding dequeue
  dequeue_pie clock q p rest v e t =
      let (l, d) = dequeue-IsValid p rest v e (clock 0) in
      let base' = with_log (without_front q.base rest) l in
      let v1 = IsValid-with_log l (without_front-IsValid p rest v e) in
      let q1 = record q { base = base' } in
      let q2 = count_departure doubles draw (clock 1 % 2 ^ 32) (total rest) p q1 in
      let k = count_departure-Keeps (clock 1 % 2 ^ 32) (total rest) p q1 in
      rw d (
        rw (size_bytes-IsCounted v1.counted) (
          Returns-bind (Updates (clock 2) q2) _ (calculate_drop_prob doubles draw (clock 2) q2) _
            (calculate_drop_prob-Updates (clock 2) q2 (subst IsValid (sym k.0) v1)
              (omega (arith, k.1, t)))
            λ q3 u. (
              refl,
              subst IsValid (sym (u.same_base ∙ k.0)) v1,
              ap (λ b. b.internal_queue) (u.same_base ∙ k.0),
            )))
