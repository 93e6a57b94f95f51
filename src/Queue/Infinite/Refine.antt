-- ===== src/Queue/Infinite/Refine.antt =====
-- The infinite queue is a queue of all its packets, as long as their sizes fit an `int`.
use octopus_mahimahi.Common.{
  ◌+◌, ◌<◌, ◌^◌, ◌≡◌, ◌≢◌, refl, List, [], ◌∷◌, ◌++◌, arith, Returns, Returns-map, length, All,
  All-append, length-append, List-cases, inl, inr, ap,
}
use octopus_mahimahi.Packet.{QueuedPacket, size}
use octopus_mahimahi.Queue.Abstract.{IsQueue, Kept, Kept-self}
use octopus_mahimahi.Queue.Fifo.{total, total-append}
use octopus_mahimahi.Queue.Counts.{Fits, length-le-total}
use octopus_mahimahi.Queue.Infinite.{
  InfiniteQueue, enqueue, dequeue, empty, size_bytes, size_packets, queue,
}

pub record IsValid (q : InfiniteQueue) : Type 0 where
  pub bytes : q.queue_size_in_bytes ≡ total q.internal_queue
  pub packets : q.queue_size_in_packets ≡ length q.internal_queue
  pub fit : All Fits q.internal_queue
  pub small : total q.internal_queue < 2 ^ 31

-- Packets leave in the order in which they came, and none is lost.
pub enqueue-IsValid :
    (p : QueuedPacket) {q : InfiniteQueue}
    → IsValid q
    → Fits p
    → total q.internal_queue + size p < 2 ^ 31
    → IsValid (enqueue p q) × ((enqueue p q).internal_queue ≡ q.internal_queue ++ p ∷ [])
unfolding enqueue
enqueue-IsValid p {q} v f s = (
  record {
    bytes = omega (arith, total-append q.internal_queue (p ∷ []), v.bytes);
    packets = omega (
      arith,
      length-append q.internal_queue (p ∷ []),
      v.packets,
      length-le-total q.internal_queue v.fit,
    );
    fit = All-append Fits q.internal_queue (p ∷ []) v.fit (f, tt);
    small = omega (arith, total-append q.internal_queue (p ∷ []));
  },
  refl,
)

pub dequeue-IsValid :
    {q : InfiniteQueue} (p : QueuedPacket) (rest : List QueuedPacket)
    → IsValid q
    → q.internal_queue ≡ p ∷ rest
    → Returns (λ r. (r.0 ≡ p) × IsValid r.1 × (r.1.internal_queue ≡ rest)) (dequeue q)
unfolding dequeue empty
dequeue-IsValid {q} p rest v e =
    rw (e, empty)
      (
        refl,
        record {
          bytes = ground (arith, ap total e, v.bytes, v.small);
          packets =
              ground
                (arith, ap length e, v.packets, length-le-total q.internal_queue v.fit, v.small);
          fit = (rw e at v.fit).1;
          small = omega (arith, ap total e, v.small);
        },
        refl,
      )

pub queue-dequeue :
    (q : InfiniteQueue)
    → IsValid q
    → q.internal_queue ≢ []
    → Returns (λ r. IsValid r.1 × Kept (r.0 ∷ r.1.internal_queue) q.internal_queue) (dequeue q)
queue-dequeue q v ne = elim (List-cases q.internal_queue) [
  | inl e ↦ absurd (ne e)
  | inr (p, rest, e) ↦
      Returns-map _ _ (dequeue q) (dequeue-IsValid p rest v e)
        λ r h. (h.1, rw (h.0, h.2, e) (Kept-self (p ∷ rest)))
]

-- The infinite queue keeps the contract of the link.
unfoldable pub laws : IsQueue queue
unfolding empty size_bytes size_packets
laws = record {
  IsValid = IsValid;
  packets = λ q. q.internal_queue;
  fit = λ q v. v.fit;
  empty_lem = λ q. refl;
  size_bytes_lem = λ q v. ground (arith, v.bytes, v.small);
  size_packets_lem =
      λ q v. ground (arith, v.packets, v.small, length-le-total q.internal_queue v.fit);
  enqueue_lem = λ c p q v f s.
      let (w, e) = enqueue-IsValid p v f s in (w, rw e (Kept-self (q.internal_queue ++ p ∷ [])));
  dequeue_lem = λ c q v ne. queue-dequeue q v ne;
  set_bandwidth_lem = λ b q v. (v, refl);
}
