-- ===== src/Queue/Codel/Refine.antt =====
-- CoDel accepts as the bounded FIFO, and keeps the contract of the link.
use octopus_mahimahi.Common.{
  ℕ, zero, suc, ◌<◌, ◌^◌, ◌≡◌, ◌≢◌, inl, inr, refl, List, [], ◌∷◌, ◌++◌, drop, Option, none, arith,
  ok, Returns, Returns-map, Bool-cases, List-cases, Option-cases,
}
use octopus_mahimahi.Packet.{QueuedPacket, size, PacketHeader, is_udp}
use octopus_mahimahi.Packet.Fields.{packet_header_total}
use octopus_mahimahi.Queue.Abstract.{Clock, IsQueue, Kept, Kept-self, keep, skip}
use octopus_mahimahi.Queue.Fifo.{within}
use octopus_mahimahi.Queue.Counts.{
  Fits, limits, size_bytes-IsCounted, size_packets-IsCounted, good_with_packet-IsCounted, with_log,
  line, print-with_log,
}
use octopus_mahimahi.Queue.Limits.{IsValid, assert_good-IsValid}
use octopus_mahimahi.Queue.DropTail.Refine.{Arrived, Arrived-accept, Arrived-drop, Kept-push}
use octopus_mahimahi.Queue.{
  DroppingQueue, LogLine, enqueue_udp_seq, enqueue_tcp, size_bytes, empty, set_bandwidth,
}
use octopus_mahimahi.Queue.Codel.{CodelQueue, log_enqueue, enqueue, dequeue, queue}
use octopus_mahimahi.Queue.Codel.Departures.{Dequeues, dequeue-Dequeues}

log_enqueue-with_log :
    (ts : ℕ) (p : QueuedPacket) (q : DroppingQueue)
    → Fits p
    → q.queue_size_in_bytes < 2 ^ 31
    → (l : Option (List LogLine)) × (log_enqueue ts p q ≡ ok (with_log q l))
unfolding log_enqueue size_bytes
log_enqueue-with_log ts p q f b = elim (Option-cases q.log) [
  | inl e ↦ (none, ground arith)
  | inr (lines, e) ↦
      let (h, r) = packet_header_total p.contents f.0 in
      elim (Bool-cases (is_udp h)) [
        | inl u ↦ (
          line enqueue_udp_seq (udp_values h) lines,
          ground (arith, r, print-with_log enqueue_udp_seq (udp_values h) q e),
        )
        | inr u ↦ (
          line enqueue_tcp tcp_values lines,
          ground (arith, r, print-with_log enqueue_tcp tcp_values q e),
        )
      ]
]
  where
    tcp_values : List ℕ
    tcp_values = ts ∷ size p ∷ q.queue_size_in_bytes ∷ []

    udp_values : PacketHeader → List ℕ
    udp_values h = ts ∷ size p ∷ q.queue_size_in_bytes ∷ h.seq ∷ []

-- An arrival that fits at a valid queue returns a valid queue with the packets of the bounded FIFO
-- after the same arrival; the control state is not touched.
pub enqueue-Arrived :
    (c : Clock) (p : QueuedPacket) (q : CodelQueue)
    → IsValid q.base
    → Fits p
    → Returns (λ q'. Arrived q.base p q'.base × (q' ≡ record q { base = q'.base })) (enqueue c p q)
unfolding enqueue
enqueue-Arrived c p q v f =
    elim (Bool-cases (within (limits q.base) (q.base.internal_queue ++ p ∷ []))) [
      | inl w ↦
          let (l, e) = log_enqueue-with_log (c 0) p q.base f (omega (arith, v.bytes, v.small)) in
          let a = Arrived-accept (c 0) p v f l w in
          rw (good_with_packet-IsCounted p v.counted f, w, e, assert_good-IsValid a.valid) (a, refl)
      | inr w ↦
          let a = Arrived-drop (c 0) p v f q.base.log w in
          rw (good_with_packet-IsCounted p v.counted f, w, assert_good-IsValid a.valid) (a, refl)
    ]

Kept-drop : (n : ℕ) (ps : List QueuedPacket) → Kept (drop n ps) ps
Kept-drop zero ps = Kept-self ps
Kept-drop (suc n) [] = Kept-self []
Kept-drop (suc n) (p ∷ ps) = skip (Kept-drop n ps)

module _ (quotient : ℕ → ℕ → ℕ) where
  pub queue-dequeue :
      (c : Clock) (q : CodelQueue)
      → IsValid q.base
      → q.base.internal_queue ≢ []
      → Returns
          (λ r. IsValid r.1.base × Kept (r.0 ∷ r.1.base.internal_queue) q.base.internal_queue)
          (dequeue quotient c q)
  queue-dequeue c q v ne = elim (List-cases q.base.internal_queue) [
    | inl e ↦ absurd (ne e)
    | inr (p, rest, e) ↦
        Returns-map (Dequeues p rest) _ (dequeue quotient c q)
          (dequeue-Dequeues quotient c q p rest v e)
          λ r d. (d.valid, rw (e, d.first, d.packets) (keep (Kept-drop d.gone rest)))
  ]

  -- CoDel keeps the contract of the link.
  unfoldable pub laws : IsQueue (queue quotient)
  unfolding empty set_bandwidth
  laws = record {
    IsValid = λ q. IsValid q.base;
    packets = λ q. q.base.internal_queue;
    fit = λ q v. v.fit;
    empty_lem = λ q. refl;
    size_bytes_lem = λ q v. size_bytes-IsCounted v.counted;
    size_packets_lem = λ q v. size_packets-IsCounted v.counted;
    enqueue_lem = λ c p q v f s.
        Returns-map _ _ (enqueue c p q) (enqueue-Arrived c p q v f)
          λ q' a. (a.0.valid, rw a.0.packets (Kept-push (limits q.base) q.base.internal_queue p));
    dequeue_lem = queue-dequeue;
    set_bandwidth_lem = λ b q v. (
      record {
        counted = record { bytes = v.bytes; packets = v.packets; fit = v.fit; small = v.small };
        inside = v.inside;
        sized = v.sized;
      },
      refl,
    );
  }
