-- ===== src/Queue/Codel/Tests.antt =====
-- Tests of CoDel, and instances of its theorems.
use octopus_mahimahi.Common.{
  ℕ, ◌+◌, ◌≡◌, refl, inr, false, List, [], ◌∷◌, none, arith, Returns, length, replicate,
}
use octopus_mahimahi.Packet.{QueuedPacket, queued}
use octopus_mahimahi.Queue.Abstract.{Clock}
use octopus_mahimahi.Queue.Fifo.{total}
use octopus_mahimahi.Queue.Limits.{IsValid}
use octopus_mahimahi.Queue.DropTail.Refine.{Arrived}
use octopus_mahimahi.Queue.Codel.{CodelQueue, enqueue, dequeue}
use octopus_mahimahi.Queue.Codel.Departures.{Dequeues, dequeue-Dequeues, dequeue_fresh}
use octopus_mahimahi.Queue.Codel.Refine.{enqueue-Arrived}

abbrev packet : ℕ → ℕ → QueuedPacket
packet n t = queued (replicate n 0) t

-- The clock stands at 50.
abbrev clock : Clock
clock k = 50 + k

abbrev quotient : ℕ → ℕ → ℕ
quotient interval count = interval

abbrev three : List QueuedPacket
three = packet 800 1 ∷ packet 900 2 ∷ packet 800 3 ∷ []

-- The target is 5, the interval 10, and packets have waited since 20.
abbrev codel : CodelQueue
codel = record {
  base = record {
    queue_size_in_bytes = total three;
    queue_size_in_packets = length three;
    internal_queue = three;
    packet_limit = 10;
    byte_limit = 0;
    log = none;
    bandwidth = 0;
  };
  target = 5;
  interval = 10;
  first_above_time = 20;
  drop_next = 0;
  count = 0;
  lastcount = 0;
  dropping = false;
}

codel-IsValid : IsValid codel.base
codel-IsValid = record {
  counted = record { bytes = refl; packets = refl; fit = omega arith; small = omega arith };
  inside = refl;
  sized = inr (omega arith);
}

dequeue-Dequeues_example :
    Returns
      (Dequeues (packet 800 1) (packet 900 2 ∷ packet 800 3 ∷ []))
      (dequeue quotient clock codel)
dequeue-Dequeues_example =
    dequeue-Dequeues quotient clock codel (packet 800 1) (packet 900 2 ∷ packet 800 3 ∷ [])
      codel-IsValid refl

-- At 4 the first packet has waited for 3.
dequeue_fresh_example :
    Returns
      (λ r.
        (r.0 ≡ packet 800 1)
        × (r.1.base.internal_queue ≡ packet 900 2 ∷ packet 800 3 ∷ [])
        × (r.1.dropping ≡ false)
        × (r.1.first_above_time ≡ 0))
      (dequeue quotient (λ k. 4) codel)
dequeue_fresh_example =
    dequeue_fresh quotient (λ k. 4) codel (packet 800 1) (packet 900 2 ∷ packet 800 3 ∷ [])
      codel-IsValid refl (omega arith)

enqueue-Arrived_example :
    Returns
      (λ q'. Arrived codel.base (packet 70 9) q'.base × (q' ≡ record codel { base = q'.base }))
      (enqueue clock (packet 70 9) codel)
enqueue-Arrived_example = enqueue-Arrived clock (packet 70 9) codel codel-IsValid (omega arith)
