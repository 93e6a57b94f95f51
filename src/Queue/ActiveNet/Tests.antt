-- ===== src/Queue/ActiveNet/Tests.antt =====
-- Tests of the queue, and instances of its theorems.
use octopus_mahimahi.Common.{
  ℕ, ◌+◌, ◌-◌, ◌*◌, ◌^◌, ◌≡◌, refl, inr, true, false, List, [], ◌∷◌, Option, none, some, arith, ok,
  fail, assertion, Returns, length, ◌>>=◌, replicate,
}
use octopus_mahimahi.Packet.{
  QueuedPacket, queued, PacketHeader, is_udp, packet_header, byte_at, word_at,
}
use octopus_mahimahi.Packet.Fields.{frame}
use octopus_mahimahi.Queue.Fifo.{total}
use octopus_mahimahi.Queue.Counts.{IsCounted}
use octopus_mahimahi.Queue.Limits.{IsValid}
use octopus_mahimahi.Queue.{LogLine}
use octopus_mahimahi.Queue.ActiveNet.{ActiveNetQueue, drop_stale_frames, enqueue, dequeue}
use octopus_mahimahi.Queue.ActiveNet.Stale.{Erases, drop_stale_frames-Erases}
use octopus_mahimahi.Queue.ActiveNet.Arrivals.{Arrives, enqueue-Arrives, enqueue_other_aborts}

-- The packet of a message, at a position in it and of a priority. Protocol 17 is UDP.
abbrev header : ℕ → ℕ → ℕ → PacketHeader
header msg pos prio = record {
  seq = 7;
  msg_field = pos * 2 ^ 30 + msg;
  wildcard = prio * 2 ^ 29;
  ip_field = 17 * 2 ^ 16;
  udp_field = 0;
}

abbrev packet : ℕ → ℕ → ℕ → QueuedPacket
packet msg pos prio =
    queued (frame (replicate 12 0) (replicate 8 0) (replicate 4 0) (header msg pos prio) []) 1

-- A packet of another protocol.
abbrev other : QueuedPacket
other = queued (replicate 44 0) 1

abbrev holding : Option (List LogLine) → List QueuedPacket → ActiveNetQueue
holding log ps = record {
  base = record {
    queue_size_in_bytes = total ps;
    queue_size_in_packets = length ps;
    internal_queue = ps;
    packet_limit = 2;
    byte_limit = 0;
    log = log;
    bandwidth = 0;
  };
  msg_in_drop = 2 ^ 32 - 1;
}

-- The first and the last packet of message 3, of priority 2.
abbrev frames : List QueuedPacket
frames = packet 3 2 2 ∷ packet 3 1 2 ∷ []

abbrev full : ActiveNetQueue
full = holding (some []) frames

full-IsValid : IsValid full.base
full-IsValid = record {
  counted = record { bytes = refl; packets = refl; fit = omega arith; small = omega arith };
  inside = refl;
  sized = inr (omega arith);
}

drop_stale_frames-Erases_example : Returns (Erases 2 5 0 frames full) (drop_stale_frames 9 2 5 full)
drop_stale_frames-Erases_example = drop_stale_frames-Erases 9 2 5 full [] full-IsValid.counted refl

abbrev zeros : PacketHeader
zeros = record { seq = 0; msg_field = 0; wildcard = 0; ip_field = 0; udp_field = 0 }

header_read : packet_header (packet 5 3 1).contents ≡ ok (header 5 3 1)
unfolding packet_header word_at byte_at
header_read = refl

header-is_udp : is_udp (header 5 3 1) ≡ true
unfolding is_udp
header-is_udp = refl

zeros-is_udp : is_udp zeros ≡ false
unfolding is_udp
zeros-is_udp = refl

-- Message 5, of priority 1, makes message 3 go.
enqueue-Arrives_example :
    Returns (Arrives full (packet 5 3 1)) (enqueue (λ k. 9) (packet 5 3 1) full)
enqueue-Arrives_example =
    enqueue-Arrives (λ k. 9) (packet 5 3 1) (header 5 3 1) full [] full-IsValid (omega arith)
      header_read header-is_udp refl

-- Four packets, and the limit is two.
abbrev others : ActiveNetQueue
others = holding none (other ∷ other ∷ other ∷ [])

others-IsCounted : IsCounted others.base
others-IsCounted = record { bytes = refl; packets = refl; fit = omega arith; small = omega arith }

zeros_read : packet_header other.contents ≡ ok zeros
unfolding packet_header word_at byte_at
zeros_read = refl

enqueue_other_aborts_example : (enqueue (λ k. 9) other others >>= dequeue 9) ≡ fail assertion
enqueue_other_aborts_example =
    enqueue_other_aborts (λ k. 9) 9 other other (other ∷ other ∷ []) zeros others others-IsCounted
      (omega arith) (omega arith) refl zeros_read zeros-is_udp refl refl
