-- ===== src/Queue/DropHead/Outcome.antt =====
-- What a drophead queue does on arrival.
use octopus_mahimahi.Common.{
  ℕ, suc, ◌+◌, ◌≡◌, refl, ap₂, sym, subst, ◌∙◌, true, false, List, [], ◌∷◌, ◌++◌, Option, arith,
  Result, ok, fail, assertion, Returns, Returns-map, drop, length, Bool-cases, inl, inr,
  if◌then◌else◌, length-append,
}
use octopus_mahimahi.Packet.{QueuedPacket}
use octopus_mahimahi.Queue.Abstract.{Clock}
use octopus_mahimahi.Queue.Fifo.{Limits, within}
use octopus_mahimahi.Queue.Counts.{
  Fits, limits, IsCounted, good-IsCounted, with_log, IsCounted-with_log, without_front,
  without_front-IsCounted, dequeue-front, accept-IsCounted,
}
use octopus_mahimahi.Queue.Limits.{IsValid, IsSized, room}
use octopus_mahimahi.Queue.{DroppingQueue, LogLine, accept, good, dequeue}
use octopus_mahimahi.Queue.DropHead.{drop_loop, enqueue}

-- The end of an arrival: the packets `ps`, with the counters exact and the limits as before.
abbrev Holds : Limits → List QueuedPacket → DroppingQueue → Type 0
Holds l ps q = IsCounted q × (q.internal_queue ≡ ps) × (limits q ≡ l)

drop_loop_good :
    (fuel k : ℕ) (clock : Clock) (q : DroppingQueue)
    → IsCounted q
    → within (limits q) q.internal_queue ≡ true
    → drop_loop (suc fuel) k clock q ≡ ok q
unfolding drop_loop
drop_loop_good fuel k clock q v w = rw (good-IsCounted v, w)

drop_loop_step :
    (fuel k : ℕ) (clock : Clock) (q q' : DroppingQueue) (p : QueuedPacket)
    → good q ≡ ok false
    → dequeue (clock k) q ≡ ok (p, q')
    → drop_loop (suc fuel) k clock q ≡ drop_loop fuel (k + 1) clock q'
unfolding drop_loop
drop_loop_step fuel k clock q q' p g d = rw (g, d)

drop_loop_fail :
    (fuel k : ℕ) (clock : Clock) (q : DroppingQueue)
    → good q ≡ ok false
    → dequeue (clock k) q ≡ fail assertion
    → drop_loop (suc fuel) k clock q ≡ fail assertion
unfolding drop_loop
drop_loop_fail fuel k clock q g d = rw (g, d)

-- `dequeue` asserts the limits itself, so the loop makes one round at most.
drop_loop_round :
    (fuel k : ℕ) (clock : Clock) (q : DroppingQueue) (p : QueuedPacket) (rest : List QueuedPacket)
    → IsCounted q
    → q.internal_queue ≡ p ∷ rest
    → within (limits q) q.internal_queue ≡ false
    → (l : Option (List LogLine)) × (drop_loop (suc (suc fuel)) k clock q ≡ (
        if within (limits q) rest then ok (with_log (without_front q rest) l) else fail assertion))
drop_loop_round fuel k clock q p rest v e w =
    let (l, r) = dequeue-front p rest v e (clock k) in
    (
      l,
      elim (Bool-cases (within (limits q) rest)) [
        | inl u ↦ rw u (
            drop_loop_step (suc fuel) k clock q (with_log (without_front q rest) l) p bad
              (rw u at r)
            ∙ drop_loop_good fuel (k + 1) clock (with_log (without_front q rest) l)
                (IsCounted-with_log l (without_front-IsCounted p rest v e)) u)
        | inr u ↦ rw u (drop_loop_fail (suc fuel) k clock q bad (rw u at r))
      ],
    )
  where
    bad : good q ≡ ok false
    bad = rw w at (good-IsCounted v)

-- What an arrival leaves of the packets, the new one included: all if they are within the limits,
-- else all but the oldest if those are. If not, the process aborts.
pub outcome : Limits → List QueuedPacket → Result (List QueuedPacket)
outcome l [] = ok []
outcome l (p ∷ rest) =
    if within l (p ∷ rest) then ok (p ∷ rest) else if within l rest then ok rest else fail assertion

-- The queue `r` as a result holds the packets `ps` as a result, counts them, and has the limits `l`.
abbrev pub Agrees : Limits → Result (List QueuedPacket) → Result DroppingQueue → Type 0
Agrees l (ok ps) r = Returns (Holds l ps) r
Agrees l (fail e) r = r ≡ fail e

within-nil : (l : Limits) → within l [] ≡ true
within-nil l = ground arith

drop_loop-Agrees :
    (fuel k : ℕ) (clock : Clock) (q : DroppingQueue) (ps : List QueuedPacket)
    → IsCounted q
    → q.internal_queue ≡ ps
    → Agrees (limits q) (outcome (limits q) ps) (drop_loop (suc (suc fuel)) k clock q)
unfolding outcome
drop_loop-Agrees fuel k clock q [] v e =
    rw (drop_loop_good (suc fuel) k clock q v (rw e (within-nil (limits q)))) (v, e, refl)
drop_loop-Agrees fuel k clock q (p ∷ rest) v e = elim (Bool-cases (within (limits q) (p ∷ rest))) [
  | inl w ↦ rw (w, drop_loop_good (suc fuel) k clock q v (rw e w)) (v, e, refl)
  | inr w ↦
      let (l, r) = drop_loop_round fuel k clock q p rest v e (rw e w) in
      rw (w, r)
        (elim (Bool-cases (within (limits q) rest)) [
          | inl u ↦ rw u (IsCounted-with_log l (without_front-IsCounted p rest v e), refl, refl)
          | inr u ↦ rw u refl
        ])
]

-- At a valid queue and a packet that fits, `enqueue` ends as `outcome` says: all the packets
-- stay if they are within the limits, all but the oldest if only these are, and else it
-- aborts.
pub enqueue-Agrees :
    (clock : Clock) (p : QueuedPacket) (q : DroppingQueue)
    → IsValid q
    → Fits p
    → Agrees (limits q) (outcome (limits q) (q.internal_queue ++ p ∷ [])) (enqueue clock p q)
unfolding enqueue accept
enqueue-Agrees clock p q v f =
    let fuel : length (q.internal_queue ++ p ∷ []) + 1 ≡ suc (suc (length q.internal_queue)) =
      omega (arith, length-append q.internal_queue (p ∷ [])) in
    rw fuel (
      drop_loop-Agrees (length q.internal_queue) 0 clock (accept p q) (q.internal_queue ++ p ∷ [])
        (accept-IsCounted p v.counted f (omega (arith, room v))) refl)

-- A new packet beyond a limit on packets alone displaces the oldest.
pub newest : Limits → List QueuedPacket → List QueuedPacket
newest l ps = if within l ps then ps else drop 1 ps

outcome_packets :
    (l : Limits) (ps : List QueuedPacket) (p : QueuedPacket)
    → l.bytes ≡ 0
    → within l ps ≡ true
    → (outcome l (ps ++ p ∷ []) ≡ ok (newest l (ps ++ p ∷ [])))
      × (within l (newest l (ps ++ p ∷ [])) ≡ true)
unfolding outcome newest
outcome_packets l [] p b w = ground arith
outcome_packets l (x ∷ ps) p b w = ground (arith, length-append ps (p ∷ []))

-- At a valid queue with no limit on bytes, the arrival of a packet that fits returns a valid
-- queue, which holds the newest packets.
pub enqueue_newest :
    (clock : Clock) (p : QueuedPacket) (q : DroppingQueue)
    → IsValid q
    → Fits p
    → q.byte_limit ≡ 0
    → Returns
        (λ q'. IsValid q' × (q'.internal_queue ≡ newest (limits q) (q.internal_queue ++ p ∷ [])))
        (enqueue clock p q)
enqueue_newest clock p q v f b =
    let (o, w) = outcome_packets (limits q) q.internal_queue p b v.inside in
    Returns-map _ _ (enqueue clock p q) (rw o at (enqueue-Agrees clock p q v f)) λ q' h. (
      record {
        counted = h.0;
        inside = ap₂ within h.2 h.1 ∙ w;
        sized = subst IsSized (sym h.2) v.sized;
      },
      h.1,
    )
