-- ===== src/Queue/DropTail.antt =====
-- src/packet/drop_tail_packet_queue.hh: a packet that does not fit is dropped.
pub mod Refine
use octopus_mahimahi.Common.{ℕ, ◌≡◌, List, Result, ok, ◌>>=◌, ◌>>◌, if◌then◌else◌}
use octopus_mahimahi.Packet.{QueuedPacket, packet_header}
use octopus_mahimahi.Queue.Abstract.{PacketQueue}
use octopus_mahimahi.Queue.{
  DroppingQueue, enqueue_udp, enqueue_tcp, drop_udp, drop_tcp, log_arrival, good_with_packet,
  accept, assert_good, dequeue, empty, size_bytes, size_packets, set_bandwidth,
}

unfoldable pub enqueue : ℕ → QueuedPacket → DroppingQueue → Result DroppingQueue
enqueue ts p q = do
  header ← packet_header p.contents
  q1 ← log_arrival enqueue_udp enqueue_tcp ts header p q
  fits ← good_with_packet p q1
  q2 ← if fits then ok (accept p q1) else log_arrival drop_udp drop_tcp ts header p q1
  assert_good q2
  ok q2

-- Each operation reads the clock once.
abbrev pub queue : PacketQueue DroppingQueue
queue = record {
  enqueue = λ clock p q. enqueue (clock 0) p q;
  dequeue = λ clock q. dequeue (clock 0) q;
  empty = empty;
  size_bytes = size_bytes;
  size_packets = size_packets;
  set_bandwidth = set_bandwidth;
}
