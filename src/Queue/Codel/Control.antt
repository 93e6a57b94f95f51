-- ===== src/Queue/Codel/Control.antt =====
-- What CoDel decides of the packet at the front, and which packets it drops.
use octopus_mahimahi.Common.{
  ℕ, zero, suc, ◌<◌, ◌≡◌, ◌≢◌, inl, inr, refl, ap, sym, subst, ◌∙◌, true, false, Bool, ◌&&◌, List,
  [], ◌∷◌, not, null, drop, arith, ok, Returns, Returns-map, length, leb, ltb, ◌==◌, Bool-cases,
  List-cases, if◌then◌else◌, add64, sub64,
}
use octopus_mahimahi.Packet.{QueuedPacket}
use octopus_mahimahi.Queue.Fifo.{total}
use octopus_mahimahi.Queue.Counts.{
  packet_size, size_bytes-IsCounted, forget-without_front, without_front,
}
use octopus_mahimahi.Queue.Limits.{IsValid, without_front-IsValid, assert_good-IsValid}
use octopus_mahimahi.Queue.{empty, pop_front}
use octopus_mahimahi.Queue.Codel.{CodelQueue, dodequeue, drop_loop, start_dropping, count_drop}

-- A packet `p` before `rest` has waited for the target, and more than one packet's bytes wait.
abbrev pub above : ℕ → CodelQueue → QueuedPacket → List QueuedPacket → Bool
above now q p rest =
    not (null rest)
    && (not (ltb (sub64 now p.arrival_time) q.target) && ltb packet_size (total rest))

-- Packets have waited for the target throughout an interval.
abbrev pub standing : ℕ → CodelQueue → QueuedPacket → List QueuedPacket → Bool
standing now q p rest =
    above now q p rest && (not (q.first_above_time == 0) && leb q.first_above_time now)

abbrev pub above_since : ℕ → CodelQueue → QueuedPacket → List QueuedPacket → ℕ
above_since now q p rest =
    if above now q p rest
    then (if q.first_above_time == 0 then add64 now q.interval else q.first_above_time)
    else 0

abbrev pub taken : ℕ → CodelQueue → QueuedPacket → List QueuedPacket → CodelQueue
taken now q p rest = record q {
  base = without_front q.base rest;
  first_above_time = above_since now q p rest;
}

pub standing-more :
    (now : ℕ) (q : CodelQueue) (p : QueuedPacket) (rest : List QueuedPacket)
    → standing now q p rest ≡ true
    → rest ≢ []
standing-more now q p [] h = ground (arith, h)
standing-more now q p (x ∷ rest) h = ground arith

module _ (now : ℕ) (q : CodelQueue) (p : QueuedPacket) (rest : List QueuedPacket)
    (v : IsValid q.base) (e : q.base.internal_queue ≡ p ∷ rest) where
  pub dodequeue-standing : dodequeue now q ≡ ok ((p, standing now q p rest), taken now q p rest)
  unfolding dodequeue pop_front empty
  dodequeue-standing = ground (
    arith,
    e,
    forget-without_front p rest v.counted e q.base.log,
    assert_good-IsValid (without_front-IsValid p rest v e),
    size_bytes-IsCounted (without_front-IsValid p rest v e).counted,
  )

-- Some of the oldest packets have gone.
pub record Drops (ps : List QueuedPacket) (q' : CodelQueue) : Type 0 where
  pub valid : IsValid q'.base
  pub gone : ℕ
  pub packets : q'.base.internal_queue ≡ drop gone ps

pub Drops-none : (q : CodelQueue) → IsValid q.base → Drops q.base.internal_queue q
Drops-none q v = record { valid = v; gone = 0; packets = refl }

Drops-front :
    (ps rest : List QueuedPacket) (p : QueuedPacket) {q' : CodelQueue}
    → ps ≡ p ∷ rest
    → Drops rest q'
    → Drops ps q'
Drops-front ps rest p e d = record {
  valid = d.valid;
  gone = suc d.gone;
  packets = rw (e, d.packets) refl;
}

module _ (quotient : ℕ → ℕ → ℕ) where
  count_drop-base :
      (b : Bool) (q : CodelQueue)
      → ((count_drop quotient b q).base ≡ q.base)
        × ((count_drop quotient b q).dropping ≡ (b && q.dropping))
  count_drop-base true q = (refl, refl)
  count_drop-base false q = (refl, refl)

  -- The loop does not come to an empty queue, and has fuel for all packets.
  pub drop_loop-Drops :
      (fuel now : ℕ) (q : CodelQueue)
      → IsValid q.base
      → length q.base.internal_queue < fuel
      → (q.dropping ≡ true → q.base.internal_queue ≢ [])
      → Returns (Drops q.base.internal_queue) (drop_loop quotient fuel now q)
  unfolding drop_loop
  drop_loop-Drops zero now q v b ne = elim b [ ]
  drop_loop-Drops (suc fuel) now q v b ne = elim (Bool-cases (leb q.drop_next now && q.dropping)) [
    | inr n ↦ rw (n, drop_loop) (Drops-none q v)
    | inl y ↦ elim (List-cases q.base.internal_queue) [
      | inl e ↦ absurd (ne (ground arith) e)
      | inr (p, rest, e) ↦
          let s = standing now q p rest in
          let q1 = count_drop quotient s (taken now q p rest) in
          let c = count_drop-base s (taken now q p rest) in
          rw (y, drop_loop)
            (rw (dodequeue-standing now q p rest v e) (
              Returns-map (Drops q1.base.internal_queue) (Drops q.base.internal_queue) _
                (drop_loop-Drops fuel now q1 (rw c.0 (without_front-IsValid p rest v e))
                  (rw c.0 (omega (arith, ap length e)))
                  (λ h z.
                    standing-more now q p rest (ground (arith, h, c.1))
                      (sym (ap (λ b. b.internal_queue) c.0) ∙ z)))
                λ q' d.
                  Drops-front q.base.internal_queue rest p e
                    (subst (λ ps. Drops ps q') (ap (λ b. b.internal_queue) c.0) d)))
    ]
  ]

  pub start_dropping-Drops :
      (now : ℕ) (q : CodelQueue)
      → IsValid q.base
      → q.base.internal_queue ≢ []
      → Returns (Drops q.base.internal_queue) (start_dropping quotient now q)
  unfolding start_dropping
  start_dropping-Drops now q v ne = elim (List-cases q.base.internal_queue) [
    | inl e ↦ absurd (ne e)
    | inr (p, rest, e) ↦
        rw (dodequeue-standing now q p rest v e)
          (record { valid = without_front-IsValid p rest v e; gone = 1; packets = rw e refl })
  ]
