-- ===== src/Link.antt =====
-- src/frontend/link_queue.hh and .cc: the emulated link. A trace says at which times the link can
-- carry PACKET_SIZE bytes; the packets wait in a queue that the link knows by its interface.
pub mod State
pub mod Held
pub mod Deliver
pub mod Trace
pub mod Rationalize
pub mod Arrivals
pub mod Construct
mod Tests
use octopus_mahimahi.Common.{
  ◌%◌, ◌^◌, null, check, ℕ, zero, suc, ◌+◌, ◌-◌, ◌*◌, ◌≡◌, ◌≤◌, Bool, true, false, List, [], ◌∷◌,
  ◌++◌, Option, none, some, Result, ok, fail, thrown, assert, out_of_fuel, ◌>>=◌, ◌>>◌, length, leb,
  ltb, ◌==◌, not, ◌||◌, if◌then◌else◌, min, add32, sub32, add64, sub64,
}
use octopus_mahimahi.Packet.{Bytes, QueuedPacket, size, queued}
use octopus_mahimahi.Queue.Abstract.{Clock, PacketQueue}
use octopus_mahimahi.Queue.Counts.{packet_size}
use State.{
  LinkQueue, LinkLine, arrival, drop, opportunity, departure, log_line, count, no_time, max_rate,
  next_delivery_time, measure_rate, trim_trace, back, Loaded, idle, busy, size_of,
}

-- `ops` is the queue behind the link. `rate bytes ms` is the conversion to `uint32_t` of the double
-- `bytes * 8.0 / ms`, of an `int` and a `uint64_t`.
module _ {Q : Type 0} (ops : PacketQueue Q) (rate : ℕ → ℕ → ℕ) where
  unfoldable pub record_arrival : ℕ → ℕ → LinkQueue Q → LinkQueue Q
  record_arrival arrival_time pkt_size q = record q {
    log = log_line (arrival arrival_time pkt_size) q.log;
    throughput_graph = count 1 pkt_size q.throughput_graph;
  }

  unfoldable pub record_drop : ℕ → ℕ → ℕ → LinkQueue Q → LinkQueue Q
  record_drop time pkts_dropped bytes_dropped q = record q {
    log = log_line (drop time pkts_dropped bytes_dropped) q.log;
  }

  unfoldable pub record_departure_opportunity : LinkQueue Q → Result (LinkQueue Q)
  record_departure_opportunity q = do
    log' ← elim q.log [
      | none ↦ ok none
      | some lines ↦ do t ← next_delivery_time q; ok (some (lines ++ opportunity t ∷ []))
    ]
    ok (record q { log = log'; throughput_graph = count 0 packet_size q.throughput_graph })

  unfoldable pub record_departure : ℕ → QueuedPacket → LinkQueue Q → Result (LinkQueue Q)
  record_departure departure_time packet q = do
    let delay = sub64 departure_time packet.arrival_time
    log' ← elim q.log [
      | none ↦ ok none
      | some lines ↦ do
        n ← ops.size_packets q.packet_queue
        ok (some (lines ++ departure departure_time (size packet) delay n ∷ []))
    ]
    ok (record q {
      log = log';
      throughput_graph = count 2 (size packet) q.throughput_graph;
      delay_graph = count 0 delay q.delay_graph;
    })

  unfoldable pub use_a_delivery_opportunity : LinkQueue Q → Result (LinkQueue Q)
  use_a_delivery_opportunity q = do
    q1 ← record_departure_opportunity q
    next ← size_of q.schedule (add32 q.next_delivery 1)
    last ← back q.schedule
    let q2 = record q1 {
      next_delivery = next;
      packet_queue = ops.set_bandwidth q1.dequeue_rate q1.packet_queue;
    }
    ok (
        if next == 0
        then (if q2.repeat
            then record q2 { base_timestamp = add64 q2.base_timestamp last }
            else record q2 { finished = true })
        else q2)

  -- The packet in transit has been sent whole.
  unfoldable pub complete : ℕ → LinkQueue Q → Result (LinkQueue Q)
  complete this_delivery_time q = do
    let packet_size = size q.packet_in_transit
    q1 ← record_departure this_delivery_time q.packet_in_transit q
    ok (record q1 {
      output_queue = q1.output_queue ++ q1.packet_in_transit.contents ∷ [];
      packet_in_transit = record q1.packet_in_transit { contents = [] };
      empty_times = 0;
      dequeue_rate = measure_rate rate this_delivery_time packet_size q1.dequeue_trace;
      dequeue_trace =
          trim_trace this_delivery_time
            (q1.dequeue_trace ++ (this_delivery_time, packet_size) ∷ []);
    })

  -- The first part of the inner loop: a packet in transit, or none and it breaks.
  unfoldable pub load : Clock → LinkQueue Q → Result (Loaded Q)
  load clock q =
      if q.packet_in_transit_bytes_left == 0
      then (if ops.empty q.packet_queue
          then ok (
              idle (record q {
                empty_times = add32 q.empty_times 1;
                dequeue_trace = [];
                dequeue_rate = max_rate;
              }))
          else do
            (p, rest) ← ops.dequeue clock q.packet_queue
            ok (
                busy (record q {
                  packet_queue = rest;
                  packet_in_transit = p;
                  packet_in_transit_bytes_left = size p % 2 ^ 32;
                })))
      else ok (busy q)

  -- The second part: `left` bytes of the opportunity are left.
  unfoldable pub send : ℕ → ℕ → LinkQueue Q → Result (ℕ × LinkQueue Q)
  send this_delivery_time left q = do
    assert (leb q.packet_in_transit.arrival_time this_delivery_time)
    assert (leb q.packet_in_transit_bytes_left packet_size)
    assert (ltb 0 q.packet_in_transit_bytes_left)
    assert (leb q.packet_in_transit_bytes_left (size q.packet_in_transit))
    let amount_to_send = min left q.packet_in_transit_bytes_left
    let rest = q.packet_in_transit_bytes_left - amount_to_send
    let q1 = record q { packet_in_transit_bytes_left = rest }
    q2 ← if rest == 0 then complete this_delivery_time q1 else ok q1
    ok (left - amount_to_send, q2)

  -- `while ( bytes_left_in_this_delivery > 0 )`. Each round sends a byte or more, so that
  -- PACKET_SIZE + 1 rounds are enough. A round's readings of the clock go by the fuel left.
  unfoldable pub deliver : ℕ → ℕ → ℕ → (ℕ → Clock) → LinkQueue Q → Result (LinkQueue Q)
  deliver zero this_delivery_time left clocks q = fail out_of_fuel
  deliver (suc fuel) this_delivery_time left clocks q = elim (left == 0) [
    | true ↦ ok q
    | false ↦ do
      l ← load (clocks fuel) q
      elim l [
        | idle q1 ↦ ok q1
        | busy q1 ↦ do
          (left', q2) ← send this_delivery_time left q1
          deliver fuel this_delivery_time left' clocks q2
      ]
  ]

  -- `while ( next_delivery_time() <= now )`
  unfoldable pub rationalize_loop : ℕ → ℕ → (ℕ → ℕ → Clock) → LinkQueue Q → Result (LinkQueue Q)
  rationalize_loop zero now clocks q = fail out_of_fuel
  rationalize_loop (suc fuel) now clocks q = do
    this_delivery_time ← next_delivery_time q
    elim (leb this_delivery_time now) [
      | false ↦ ok q
      | true ↦ do
        q1 ← use_a_delivery_opportunity q
        q2 ← deliver (suc packet_size) this_delivery_time packet_size (clocks fuel) q1
        rationalize_loop fuel now clocks q2
    ]

  -- Each pass through the trace takes a millisecond or more.
  unfoldable pub rationalize : ℕ → (ℕ → ℕ → Clock) → LinkQueue Q → Result (LinkQueue Q)
  rationalize now clocks q = rationalize_loop (suc ((now + 1) * length q.schedule)) now clocks q

  -- `read_packet` behind its call of `rationalize`.
  unfoldable pub arrive : Bytes → ℕ → Clock → LinkQueue Q → Result (LinkQueue Q)
  arrive contents now clock q = do
    let q1 = record_arrival now (length contents) q
    bytes_before ← ops.size_bytes q1.packet_queue
    packets_before ← ops.size_packets q1.packet_queue
    queue' ← ops.enqueue clock (queued contents now) q1.packet_queue
    bytes_after ← ops.size_bytes queue'
    packets_after ← ops.size_packets queue'
    assert (leb packets_after (add32 packets_before 1))
    assert (leb bytes_after (bytes_before + length contents))
    let q2 = record q1 { packet_queue = queue' }
    let missing_packets = sub32 (add32 packets_before 1) packets_after
    let missing_bytes = sub32 (add32 bytes_before (length contents)) bytes_after
    ok (
        if ltb 0 missing_packets || ltb 0 missing_bytes
        then record_drop now missing_packets missing_bytes q2
        else q2)

  -- `clocks` is for `rationalize`, `clock` for the arrival in the queue.
  unfoldable pub read_packet :
      Bytes → ℕ → (ℕ → ℕ → Clock) → Clock → LinkQueue Q → Result (LinkQueue Q)
  read_packet contents now clocks clock q = do
    check thrown (leb (length contents) packet_size)
    q1 ← rationalize now clocks q
    arrive contents now clock q1

  unfoldable pub wait_time : ℕ → (ℕ → ℕ → Clock) → LinkQueue Q → Result (ℕ × LinkQueue Q)
  wait_time now clocks q = do
    q1 ← rationalize now clocks q
    next ← next_delivery_time q1
    ok (if leb next now then (0, q1) else (sub64 next now % 2 ^ 32, q1))

-- `while ( not output_queue_.empty() )`: what is written to the descriptor, and the link after it.
write_loop : {Q : Type 0} → List Bytes → List Bytes → LinkQueue Q → List Bytes × LinkQueue Q
write_loop [] written q = (written, record q { output_queue = [] })
write_loop (b ∷ rest) written q = write_loop rest (written ++ b ∷ []) q

unfoldable pub write_packets : {Q : Type 0} → LinkQueue Q → List Bytes × LinkQueue Q
unfolding write_loop
write_packets q = write_loop q.output_queue [] q

unfoldable pub pending_output : {Q : Type 0} → LinkQueue Q → Bool
pending_output q = not (null q.output_queue)
