-- ===== src/Queue/Tests.antt =====
-- Tests of the queues, and instances of their theorems.
use octopus_mahimahi.Common.{
  ℕ, ◌+◌, ◌≡◌, refl, inl, inr, List, [], ◌∷◌, Option, none, arith, ok, fail, assertion, undefined,
  Returns, length, replicate,
}
use octopus_mahimahi.Packet.{QueuedPacket, queued}
use octopus_mahimahi.Queue.Abstract.{Clock}
use octopus_mahimahi.Queue.Fifo.{total}
use octopus_mahimahi.Queue.Counts.{limits, with_log, without_front}
use octopus_mahimahi.Queue.Limits.{IsValid, dequeue-IsValid}
use octopus_mahimahi.Queue.DropTail
use octopus_mahimahi.Queue.DropTail.Refine.{Arrived, enqueue_refines, enqueue_short}
use octopus_mahimahi.Queue.DropHead
use octopus_mahimahi.Queue.DropHead.Outcome.{
  Agrees, outcome, newest, enqueue-Agrees, enqueue_newest,
}
use octopus_mahimahi.Queue.{
  DroppingQueue, LogLine, dequeue, accept, good, size_bytes, size_packets, good_with, empty,
  pop_front, log_dequeue, assert_good, forget,
}

abbrev packet : ℕ → ℕ → QueuedPacket
packet n t = queued (replicate n 0) t

abbrev clock : Clock
clock k = 9 + k

abbrev holding : ℕ → ℕ → List QueuedPacket → DroppingQueue
holding packets bytes ps = record {
  queue_size_in_bytes = total ps;
  queue_size_in_packets = length ps;
  internal_queue = ps;
  packet_limit = packets;
  byte_limit = bytes;
  log = none;
  bandwidth = 0;
}

-- Two packets, which is the limit.
abbrev pair : List QueuedPacket
pair = packet 50 1 ∷ packet 60 2 ∷ []

abbrev full : DroppingQueue
full = holding 2 0 pair

full-IsValid : IsValid full
full-IsValid = record {
  counted = record { bytes = refl; packets = refl; fit = omega arith; small = omega arith };
  inside = refl;
  sized = inr (omega arith);
}

-- 110 bytes, and the limit is 130.
abbrev heavy : DroppingQueue
heavy = holding 0 130 pair

heavy-IsValid : IsValid heavy
heavy-IsValid = record {
  counted = record { bytes = refl; packets = refl; fit = omega arith; small = omega arith };
  inside = refl;
  sized = inl (omega arith);
}

enqueue_refines_example :
    Returns (Arrived full (packet 70 3)) (DropTail.enqueue 9 (packet 70 3) full)
enqueue_refines_example = enqueue_refines 9 (packet 70 3) full-IsValid (omega arith)

short_packet : DropTail.enqueue 9 (packet 32 3) full ≡ fail undefined
short_packet = enqueue_short 9 (packet 32 3) full (omega arith)

dequeue-IsValid_example :
    (l : Option (List LogLine)) × (dequeue 9 full
      ≡ ok (packet 50 1, with_log (without_front full (packet 60 2 ∷ [])) l))
dequeue-IsValid_example = dequeue-IsValid (packet 50 1) (packet 60 2 ∷ []) full-IsValid refl 9

enqueue-Agrees_example :
    Agrees
      (limits full)
      (outcome (limits full) (packet 50 1 ∷ packet 60 2 ∷ packet 70 3 ∷ []))
      (DropHead.enqueue clock (packet 70 3) full)
enqueue-Agrees_example = enqueue-Agrees clock (packet 70 3) full full-IsValid (omega arith)

enqueue_newest_example :
    Returns
      (λ q'.
        IsValid q'
        × (q'.internal_queue ≡ newest (limits full) (packet 50 1 ∷ packet 60 2 ∷ packet 70 3 ∷ [])))
      (DropHead.enqueue clock (packet 70 3) full)
enqueue_newest_example = enqueue_newest clock (packet 70 3) full full-IsValid (omega arith) refl

-- 180 bytes: to come down to 130 both packets of the queue have to go.
heavy_aborts : DropHead.enqueue clock (packet 80 3) heavy ≡ fail assertion
unfolding DropHead.enqueue accept good size_bytes size_packets good_with dequeue empty pop_front
    log_dequeue assert_good forget
heavy_aborts = refl
