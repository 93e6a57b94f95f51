-- ===== src/Queue/DropTail/Refine.antt =====
-- A valid droptail queue behaves as the bounded queue of its packets.
use octopus_mahimahi.Common.{
  ℕ, ◌<◌, ◌≡◌, ◌≢◌, refl, true, false, List, [], ◌∷◌, ◌++◌, Option, arith, fail, undefined, Returns,
  Returns-map, Bool-cases, List-cases, inl, inr,
}
use octopus_mahimahi.Packet.{QueuedPacket, size}
use octopus_mahimahi.Packet.Fields.{packet_header_total, packet_header_short}
use octopus_mahimahi.Queue.Abstract.{Clock, IsQueue, Kept, Kept-self, Kept-append_left}
use octopus_mahimahi.Queue.Fifo
use octopus_mahimahi.Queue.Fifo.{Limits, within, total}
use octopus_mahimahi.Queue.Counts.{
  Fits, limits, size_bytes-IsCounted, size_packets-IsCounted, good_with_packet-IsCounted,
  IsCounted-with_log, with_log, log_arrival-with_log,
}
use octopus_mahimahi.Queue.Limits.{
  IsValid, room, assert_good-IsValid, IsValid-with_log, accept-IsValid, without_front-IsValid,
  dequeue-IsValid,
}
use octopus_mahimahi.Queue.{
  DroppingQueue, LogLine, enqueue_udp, enqueue_tcp, drop_udp, drop_tcp, accept, empty,
  set_bandwidth, dequeue,
}
use octopus_mahimahi.Queue.DropTail.{enqueue, queue}

-- The state after an arrival: what `Fifo.push` says of the packets, the same limits, and valid.
pub record Arrived (q : DroppingQueue) (p : QueuedPacket) (q' : DroppingQueue) : Type 0 where
  pub valid : IsValid q'
  pub packets : q'.internal_queue ≡ Fifo.push (limits q) q.internal_queue p
  pub same_limits : limits q' ≡ limits q

module _ (ts : ℕ) (p : QueuedPacket) {q : DroppingQueue} (v : IsValid q) (f : Fits p) where
  pub Arrived-accept :
      (l : Option (List LogLine))
      → within (limits q) (q.internal_queue ++ p ∷ []) ≡ true
      → Arrived q p (accept p (with_log q l))
  unfolding accept Fifo.push
  Arrived-accept l w = record {
    valid = accept-IsValid p (IsValid-with_log l v) f w;
    packets = rw w;
    same_limits = refl;
  }

  pub Arrived-drop :
      (l : Option (List LogLine))
      → within (limits q) (q.internal_queue ++ p ∷ []) ≡ false
      → Arrived q p (with_log q l)
  unfolding Fifo.push
  Arrived-drop l w = record { valid = IsValid-with_log l v; packets = rw w; same_limits = refl }

  -- An arrival that fits at a valid queue returns a valid queue with the same limits, whose
  -- packets are those of the bounded FIFO after the same arrival.
  pub enqueue_refines : Returns (Arrived q p) (enqueue ts p q)
  unfolding enqueue
  enqueue_refines =
      let (h, eh) = packet_header_total p.contents f.0 in
      let (l, el) =
        log_arrival-with_log enqueue_udp enqueue_tcp ts h p q (omega (arith, v.bytes, room v)) in
      let eg = good_with_packet-IsCounted p (IsCounted-with_log l v.counted) f in
      elim (Bool-cases (within (limits q) (q.internal_queue ++ p ∷ []))) [
        | inl w ↦
            rw (eh, el, eg, w, assert_good-IsValid (Arrived-accept l w).valid) (Arrived-accept l w)
        | inr w ↦
            let (m, em) =
              log_arrival-with_log drop_udp drop_tcp ts h p (with_log q l)
                (omega (arith, v.bytes, room v)) in
            rw (eh, el, eg, w, em, assert_good-IsValid (Arrived-drop m w).valid) (Arrived-drop m w)
      ]

-- An arrival of fewer than 43 bytes is read past its end, whatever the queue.
pub enqueue_short :
    (ts : ℕ) (p : QueuedPacket) (q : DroppingQueue) → size p < 43 → enqueue ts p q ≡ fail undefined
unfolding enqueue
enqueue_short ts p q h = rw (packet_header_short p.contents h)

pub Kept-push :
    (l : Limits) (ps : List QueuedPacket) (p : QueuedPacket)
    → Kept (Fifo.push l ps p) (ps ++ p ∷ [])
unfolding Fifo.push
Kept-push l ps p = elim (Bool-cases (within l (ps ++ p ∷ []))) [
  | inl w ↦ rw w (Kept-self (ps ++ p ∷ []))
  | inr w ↦ rw w (Kept-append_left ps (p ∷ []))
]

pub queue-enqueue :
    (c : Clock) (p : QueuedPacket) (q : DroppingQueue)
    → IsValid q
    → Fits p
    → Returns
        (λ q'. IsValid q' × Kept q'.internal_queue (q.internal_queue ++ p ∷ []))
        (enqueue (c 0) p q)
queue-enqueue c p q v f =
    Returns-map (Arrived q p) _ (enqueue (c 0) p q) (enqueue_refines (c 0) p v f)
      λ q' a. (a.valid, rw a.packets (Kept-push (limits q) q.internal_queue p))

pub queue-dequeue :
    (c : Clock) (q : DroppingQueue)
    → IsValid q
    → q.internal_queue ≢ []
    → Returns
        (λ r. IsValid r.1 × Kept (r.0 ∷ r.1.internal_queue) q.internal_queue)
        (dequeue (c 0) q)
queue-dequeue c q v ne = elim (List-cases q.internal_queue) [
  | inl e ↦ absurd (ne e)
  | inr (p, rest, e) ↦
      let (l, r) = dequeue-IsValid p rest v e (c 0) in
      rw (r, e) (IsValid-with_log l (without_front-IsValid p rest v e), Kept-self (p ∷ rest))
]

-- A droptail queue keeps the contract of the link.
unfoldable pub laws : IsQueue queue
unfolding empty set_bandwidth
laws = record {
  IsValid = IsValid;
  packets = λ q. q.internal_queue;
  fit = λ q v. v.fit;
  empty_lem = λ q. refl;
  size_bytes_lem = λ q v. size_bytes-IsCounted v.counted;
  size_packets_lem = λ q v. size_packets-IsCounted v.counted;
  enqueue_lem = λ c p q v f s. queue-enqueue c p q v f;
  dequeue_lem = queue-dequeue;
  set_bandwidth_lem = λ b q v. (
    record {
      counted = record { bytes = v.bytes; packets = v.packets; fit = v.fit; small = v.small };
      inside = v.inside;
      sized = v.sized;
    },
    refl,
  );
}
