-- ===== src/Link/Tests.antt =====
-- A link over the infinite queue, and instances of the link's theorems.
use octopus_mahimahi.Common.{
  ℕ, ◌*◌, ◌/◌, ◌≡◌, refl, false, true, [], ◌∷◌, none, arith, fail, thrown, Returns, replicate,
}
use octopus_mahimahi.Packet.{QueuedPacket, queued}
use octopus_mahimahi.Queue.Abstract.{Clock}
use octopus_mahimahi.Queue.Counts.{packet_size}
use octopus_mahimahi.Queue.Infinite.{InfiniteQueue, queue}
use octopus_mahimahi.Queue.Infinite.Refine.{laws}
use octopus_mahimahi.Link.State.{LinkQueue, max_rate}
use octopus_mahimahi.Link.Held.{CanSend}
use octopus_mahimahi.Link.Trace.{next_time}
use octopus_mahimahi.Link.Deliver.{Delivers, deliver-Delivers}
use octopus_mahimahi.Link.Rationalize.{IsLink, Rationalizes, rationalize-Rationalizes}
use octopus_mahimahi.Link.Arrivals.{
  Receives, read_packet-Receives, read_packet_large, Waits, wait_time-Waits,
}
use octopus_mahimahi.Queue.Infinite
use octopus_mahimahi.Link.State.{
  next_delivery_time, time_at, back, size_of, measure_rate, trim_trace,
}
use octopus_mahimahi.Link.{
  deliver, rationalize, read_packet, wait_time, rationalize_loop, use_a_delivery_opportunity,
  record_departure_opportunity, load, send, complete, record_departure,
}

abbrev packet : QueuedPacket
packet = queued (replicate 60 0) 3

abbrev rate : ℕ → ℕ → ℕ
rate bytes ms = bytes * 8 / ms

abbrev clocks : ℕ → ℕ → Clock
clocks i j k = 20

-- Opportunities at 5, 10, 15, … ms, and one packet, which came at 3 ms.
abbrev link : LinkQueue InfiniteQueue
link = record {
  next_delivery = 0;
  schedule = 5 ∷ 10 ∷ [];
  base_timestamp = 0;
  packet_queue = record {
    queue_size_in_bytes = 60;
    queue_size_in_packets = 1;
    internal_queue = packet ∷ [];
  };
  packet_in_transit = queued [] 0;
  packet_in_transit_bytes_left = 0;
  output_queue = [];
  log = none;
  throughput_graph = none;
  delay_graph = none;
  repeat = true;
  finished = false;
  dequeue_trace = [];
  empty_times = 0;
  dequeue_rate = max_rate;
}

link-CanSend : CanSend laws 5 link
unfolding laws
link-CanSend = record {
  valid = record { bytes = refl; packets = refl; fit = omega arith; small = omega arith };
  small = omega arith;
  whole = omega arith;
  timely = omega arith;
}

link-IsLink : IsLink laws rate link
unfolding next_time
link-IsLink = record {
  timed = record {
    rising = omega arith;
    lasting = omega arith;
    short = omega arith;
    inside = omega arith;
    room = omega arith;
  };
  can_send = link-CanSend;
}

deliver-Delivers_example :
    Returns
      (Delivers laws rate 5 packet_size link)
      (deliver queue rate 1505 5 packet_size (clocks 0) link)
deliver-Delivers_example =
    deliver-Delivers laws rate 1505 5 packet_size (clocks 0) link link-CanSend (omega arith)

rationalize-Rationalizes_example :
    Returns (Rationalizes laws rate 12 link) (rationalize queue rate 12 clocks link)
rationalize-Rationalizes_example =
    rationalize-Rationalizes laws rate 12 clocks link link-IsLink (omega arith)

read_packet-Receives_example :
    Returns
      (Receives laws rate (replicate 50 1) 4 link)
      (read_packet queue rate (replicate 50 1) 4 clocks (clocks 0 0) link)
unfolding laws
read_packet-Receives_example =
    read_packet-Receives laws rate (replicate 50 1) 4 clocks (clocks 0 0) link link-IsLink
      (omega arith) (omega arith) (omega arith)

read_packet_large_example :
    read_packet queue rate (replicate 1505 1) 4 clocks (clocks 0 0) link ≡ fail thrown
read_packet_large_example =
    read_packet_large laws rate (replicate 1505 1) 4 clocks (clocks 0 0) link (omega arith)

wait_time-Waits_example : Returns (Waits laws rate 7 link) (wait_time queue rate 7 clocks link)
wait_time-Waits_example = wait_time-Waits laws rate 7 clocks link link-IsLink (omega arith)

-- By 7 ms the packet has left.
output_lem :
    Returns (λ q. q.output_queue ≡ replicate 60 0 ∷ []) (rationalize queue rate 7 clocks link)
unfolding rationalize rationalize_loop use_a_delivery_opportunity record_departure_opportunity
    deliver load send complete record_departure Infinite.dequeue Infinite.empty next_delivery_time
    time_at back size_of measure_rate trim_trace
output_lem = refl
