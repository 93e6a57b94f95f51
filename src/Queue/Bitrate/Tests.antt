-- ===== src/Queue/Bitrate/Tests.antt =====
-- Tests of the Octopus queue, and instances of its theorems.
use octopus_mahimahi.Common.{
  ◌+◌, ◌-◌, ◌*◌, ◌/◌, ◌%◌, ◌^◌, ◌≡◌, refl, inr, false, [], ◌∷◌, none, some, arith, ok, Returns,
  replicate,
}
use octopus_mahimahi.Packet.{
  QueuedPacket, queued, PacketHeader, packet_header, byte_at, word_at, is_octopus, is_udp,
}
use octopus_mahimahi.Packet.Fields.{frame}
use octopus_mahimahi.Queue.Fifo.{total}
use octopus_mahimahi.Queue.Limits.{IsValid}
use octopus_mahimahi.Queue.Bitrate.{BitrateQueue, measured_rate, enqueue}
use octopus_mahimahi.Queue.Bitrate.Departures.{fair_share}
use octopus_mahimahi.Queue.Bitrate.Arrivals.{Takes, enqueue-Takes}
use octopus_mahimahi.Queue.Bitrate.Share.{IsShare, fair_share-IsShare}

-- Half of the bandwidth is 500; the peers leave 700.
fair_share-IsShare_example : IsShare 600 300 1000 (fair_share 600 300 1000)
fair_share-IsShare_example =
    fair_share-IsShare 600 300 1000 (omega arith) (omega arith) (omega arith)

-- Packets of 1000, 1000 and 500 bytes in 200 ms, and the rate is not theirs: it is computed from the
-- first packet with its size negated, and is as if there were no packet in between.
rate_of_first :
    measured_rate 210 (10, 1000) ((90, 1000) ∷ (210, 500) ∷ [])
    ≡ ok (some ((2 ^ 64 - 1000 * 8) / (210 - 10) % 2 ^ 32))
unfolding measured_rate
rate_of_first = refl

-- A message of one packet, of protocol 17, to port 80.
abbrev header : PacketHeader
header = record {
  seq = 7;
  msg_field = 3 * 2 ^ 30 + 4;
  wildcard = 0;
  ip_field = 17 * 2 ^ 16;
  udp_field = 80;
}

abbrev packet : QueuedPacket
packet = queued (frame (replicate 12 0) (replicate 8 0) (replicate 4 0) header []) 1

header_read : packet_header packet.contents ≡ ok header
unfolding packet_header word_at byte_at
header_read = refl

abbrev start : BitrateQueue
start = record {
  base = record {
    queue_size_in_bytes = 0;
    queue_size_in_packets = 0;
    internal_queue = [];
    packet_limit = 2;
    byte_limit = 0;
    log = none;
    bandwidth = 1000;
  };
  frame_counter = [];
  msg_in_drop = [];
  prio_to_droppers = [];
  enqueue_trace = [];
  enqueue_rate = [];
}

start-IsValid : IsValid start.base
start-IsValid = record {
  counted = record { bytes = refl; packets = refl; fit = omega arith; small = omega arith };
  inside = refl;
  sized = inr (omega arith);
}

enqueue-Takes_example : Returns (Takes start packet) (enqueue 9 packet start)
enqueue-Takes_example =
    enqueue-Takes 9 packet header start start-IsValid (omega arith) header_read (λ s. refl)
      (omega arith) tt

-- A packet of zeros, of which the protocol is not UDP.
abbrev other : QueuedPacket
other = queued (replicate 44 0) 1

abbrev two : BitrateQueue
two = record start {
  base = record start.base {
    queue_size_in_bytes = total (other ∷ packet ∷ []);
    queue_size_in_packets = 2;
    internal_queue = other ∷ packet ∷ [];
  };
}

abbrev zeros : PacketHeader
zeros = record { seq = 0; msg_field = 0; wildcard = 0; ip_field = 0; udp_field = 0 }

zeros_read : packet_header other.contents ≡ ok zeros
unfolding packet_header word_at byte_at
zeros_read = refl

zeros-is_octopus : is_octopus zeros ≡ false
unfolding is_octopus is_udp
zeros-is_octopus = refl
