-- ===== src/Queue/Codel/Departures.antt =====
-- The departures from CoDel.
use octopus_mahimahi.Common.{
  ℕ, suc, ◌+◌, ◌<◌, ◌≡◌, ◌≢◌, inl, inr, refl, ap, sym, subst, ◌∙◌, true, false, Bool, ◌&&◌, List,
  [], ◌∷◌, drop, Option, arith, ok, Result, Returns, Returns-bind, Returns-map, length, leb,
  Bool-cases, if◌then◌else◌, sub64,
}
use octopus_mahimahi.Packet.{QueuedPacket}
use octopus_mahimahi.Queue.Abstract.{Clock}
use octopus_mahimahi.Queue.Counts.{with_log, log_dequeue-with_log}
use octopus_mahimahi.Queue.Limits.{IsValid, without_front-IsValid, IsValid-with_log}
use octopus_mahimahi.Queue.{LogLine}
use octopus_mahimahi.Queue.Codel.{CodelQueue, drop_loop, start_dropping, dequeue}
use octopus_mahimahi.Queue.Codel.Control.{
  above, standing, standing-more, taken, dodequeue-standing, Drops, Drops-none, drop_loop-Drops,
  start_dropping-Drops,
}

-- A departure: the packet at the front leaves, and some of the next ones are gone.
pub record Dequeues (p : QueuedPacket) (rest : List QueuedPacket) (r : QueuedPacket × CodelQueue)
    : Type 0 where
  pub first : r.0 ≡ p
  pub valid : IsValid r.1.base
  pub gone : ℕ
  pub packets : r.1.base.internal_queue ≡ drop gone rest

module _ (quotient : ℕ → ℕ → ℕ) where
  -- What `dequeue` does after its first call of `dodequeue`.
  drops : ℕ → Bool → CodelQueue → Result CodelQueue
  drops now ok_to_drop q =
      if q.dropping
      then (let q' = if ok_to_drop then q else record q { dropping = false } in
          drop_loop quotient (length q'.base.internal_queue + 1) now q')
      else if ok_to_drop
      then start_dropping quotient now q
      else ok q

  drops-Drops :
      (now : ℕ) (b : Bool) (q : CodelQueue)
      → IsValid q.base
      → (b ≡ true → q.base.internal_queue ≢ [])
      → Returns (Drops q.base.internal_queue) (drops now b q)
  unfolding drops
  drops-Drops now true q v ne = elim (Bool-cases q.dropping) [
    | inl d ↦ rw d (
        drop_loop-Drops quotient (length q.base.internal_queue + 1) now
          (record q { dropping = true }) v (omega arith) (λ h. ne refl))
    | inr d ↦ rw d (start_dropping-Drops quotient now (record q { dropping = false }) v (ne refl))
  ]
  drops-Drops now false q v ne = elim (Bool-cases q.dropping) [
    | inl d ↦ rw d (
        drop_loop-Drops quotient (length q.base.internal_queue + 1) now
          (record q { dropping = false }) v (omega arith) (λ h. absurd (ground (arith, h))))
    | inr d ↦ rw d (Drops-none (record q { dropping = false }) v)
  ]

  drop_loop-still :
      (fuel now : ℕ) (q : CodelQueue)
      → q.dropping ≡ false
      → drop_loop quotient (fuel + 1) now q ≡ ok q
  unfolding drop_loop
  drop_loop-still fuel now q d =
      let test : (leb q.drop_next now && q.dropping) ≡ false = ground (arith, d) in
      let more : fuel + 1 ≡ suc fuel = omega arith in rw more (rw (test, drop_loop) refl)

  drops-still :
      (now : ℕ) (q : CodelQueue)
      → Returns
          (λ q2.
            (q2.base ≡ q.base) × (q2.dropping ≡ false) × (q2.first_above_time ≡ q.first_above_time))
          (drops now false q)
  unfolding drops
  drops-still now q = elim (Bool-cases q.dropping) [
    | inl d ↦
        rw
          (
            d,
            drop_loop-still (length q.base.internal_queue) now (record q { dropping = false }) refl,
          )
          (refl, refl, refl)
    | inr d ↦ rw d (refl, refl, refl)
  ]

  -- A departure is what `drops` leaves, with its line in the log.
  dequeue-drops :
      (P Q : QueuedPacket × CodelQueue → Type 0) (clock : Clock) (q : CodelQueue) (p : QueuedPacket)
      (rest : List QueuedPacket)
      → IsValid q.base
      → q.base.internal_queue ≡ p ∷ rest
      → Returns
          (λ q2. IsValid q2.base × P (p, q2))
          (drops (clock 0) (standing (clock 0) q p rest) (taken (clock 0) q p rest))
      → ((q2 : CodelQueue) (l : Option (List LogLine))
          → IsValid (with_log q2.base l)
          → P (p, q2)
          → Q (p, record q2 { base = with_log q2.base l }))
      → Returns Q (dequeue quotient clock q)
  unfolding dequeue drops
  dequeue-drops P Q clock q p rest v e h k =
      let s = standing (clock 0) q p rest in
      let q1 = taken (clock 0) q p rest in
      rw (dodequeue-standing (clock 0) q p rest v e) (
        Returns-bind (λ q2. IsValid q2.base × P (p, q2)) Q (drops (clock 0) s q1) _ h
          λ q2 d.
            let (l, r) =
              log_dequeue-with_log (clock 1) p q2.base (rw e at v.fit).0
                (omega (arith, d.0.bytes, d.0.small)) in
            rw r (k q2 l (IsValid-with_log l d.0) d.1))

  -- A departure from a valid queue that holds `p` before `rest` hands out `p`, and leaves a valid
  -- queue of `rest` without some of its oldest packets.
  pub dequeue-Dequeues :
      (clock : Clock) (q : CodelQueue) (p : QueuedPacket) (rest : List QueuedPacket)
      → IsValid q.base
      → q.base.internal_queue ≡ p ∷ rest
      → Returns (Dequeues p rest) (dequeue quotient clock q)
  dequeue-Dequeues clock q p rest v e =
      dequeue-drops (λ r. Drops rest r.1) (Dequeues p rest) clock q p rest v e
        (Returns-map (Drops rest) _ _
          (drops-Drops (clock 0) _ (taken (clock 0) q p rest) (without_front-IsValid p rest v e)
            (standing-more (clock 0) q p rest))
          λ q2 d. (d.valid, d))
        λ q2 l w d. record { first = refl; valid = w; gone = d.gone; packets = d.packets }

  -- A front packet that has not waited for the target leaves as from a FIFO, and ends the dropping.
  pub dequeue_fresh :
      (clock : Clock) (q : CodelQueue) (p : QueuedPacket) (rest : List QueuedPacket)
      → IsValid q.base
      → q.base.internal_queue ≡ p ∷ rest
      → sub64 (clock 0) p.arrival_time < q.target
      → Returns
          (λ r.
            (r.0 ≡ p)
            × (r.1.base.internal_queue ≡ rest)
            × (r.1.dropping ≡ false)
            × (r.1.first_above_time ≡ 0))
          (dequeue quotient clock q)
  dequeue_fresh clock q p rest v e f =
      let now = clock 0 in
      let q1 = taken now q p rest in
      let still : above now q p rest ≡ false = ground arith in
      let no_drop : standing now q p rest ≡ false = ground (arith, still) in
      let since : q1.first_above_time ≡ 0 = rw still refl in
      dequeue-drops
        (λ r.
          (r.1.base.internal_queue ≡ rest) × (r.1.dropping ≡ false) × (r.1.first_above_time ≡ 0))
        _ clock q p rest v e
        (subst
          (λ b.
            Returns
              (λ q2.
                IsValid q2.base
                × ((q2.base.internal_queue ≡ rest)
                    × (q2.dropping ≡ false)
                    × (q2.first_above_time ≡ 0)))
              (drops now b q1))
          (sym no_drop)
          (Returns-map _ _ (drops now false q1) (drops-still now q1) λ q2 h. (
            subst IsValid (sym h.0) (without_front-IsValid p rest v e),
            (ap (λ b. b.internal_queue) h.0, h.1, h.2 ∙ since),
          )))
        λ q2 l w h. (refl, h.0, h.1, h.2)
