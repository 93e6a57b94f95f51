-- ===== src/Queue/Counts.antt =====
-- The counters of a queue: exact, and in the range of an `int`. What the shared operations do then.
use octopus_mahimahi.Common.{
  ℕ, ◌+◌, ◌^◌, ◌≤◌, ◌<◌, ◌≡◌, inl, inr, refl, ap, ap₂, List, [], ◌∷◌, ◌++◌, Option, none, some, ok,
  fail, assertion, arith, length, All, All-append, if◌then◌else◌, add32, sub64, length-append,
  Option-cases, Bool-cases,
}
use octopus_mahimahi.Packet.{QueuedPacket, size, PacketHeader, is_udp, msg_no}
use octopus_mahimahi.Packet.Fields.{packet_header_total}
use octopus_mahimahi.Queue.Fifo.{Limits, within, total, total-append}
use octopus_mahimahi.Queue.{
  DroppingQueue, LogLine, Event, dequeue_udp, dequeue_tcp, print, size_bytes, size_packets,
  good_with, good, good_with_packet, assert_good, accept, forget, pop_front, log_dequeue,
  log_arrival, dequeue, empty,
}

abbrev pub packet_size : ℕ
packet_size = 1504

-- A packet that the link accepts, long enough to hold the header that the queues read.
abbrev pub Fits : QueuedPacket → Type 0
Fits p = (43 ≤ size p) × (size p ≤ packet_size)

abbrev pub limits : DroppingQueue → Limits
limits q = record { packets = q.packet_limit; bytes = q.byte_limit }

pub record IsCounted (q : DroppingQueue) : Type 0 where
  pub bytes : q.queue_size_in_bytes ≡ total q.internal_queue
  pub packets : q.queue_size_in_packets ≡ length q.internal_queue
  pub fit : All Fits q.internal_queue
  pub small : total q.internal_queue < 2 ^ 31

pub length-le-total : (ps : List QueuedPacket) → All Fits ps → length ps ≤ total ps
length-le-total [] h = omega arith
length-le-total (p ∷ ps) h = omega (arith, length-le-total ps h.1)

pub size_bytes-IsCounted :
    {q : DroppingQueue} → IsCounted q → size_bytes q ≡ ok (total q.internal_queue)
unfolding size_bytes
size_bytes-IsCounted v = ground arith

pub size_packets-IsCounted :
    {q : DroppingQueue} → IsCounted q → size_packets q ≡ ok (length q.internal_queue)
unfolding size_packets
size_packets-IsCounted {q} v = ground (arith, length-le-total q.internal_queue v.fit)

pub good-IsCounted :
    {q : DroppingQueue} → IsCounted q → good q ≡ ok (within (limits q) q.internal_queue)
unfolding good good_with
good-IsCounted v = rw (size_bytes-IsCounted v, size_packets-IsCounted v)

-- The test before an insertion is the limits' own, of the packets with the new one.
pub good_with_packet-IsCounted :
    {q : DroppingQueue} (p : QueuedPacket)
    → IsCounted q
    → Fits p
    → good_with_packet p q ≡ ok (within (limits q) (q.internal_queue ++ p ∷ []))
unfolding good_with_packet good_with
good_with_packet-IsCounted {q} p v f =
    rw
      (
        size_bytes-IsCounted v,
        size_packets-IsCounted v,
        total-append q.internal_queue (p ∷ []),
        length-append q.internal_queue (p ∷ []),
      )
      (ap₂ (λ b n. ok (good_with q b n)) bytes packets)
  where
    bytes : add32 (total q.internal_queue) (size p) ≡ total q.internal_queue + (size p + 0)
    bytes = omega arith

    packets : add32 (length q.internal_queue) 1 ≡ length q.internal_queue + 1
    packets = omega (arith, length-le-total q.internal_queue v.fit)

pub accept-IsCounted :
    {q : DroppingQueue} (p : QueuedPacket)
    → IsCounted q
    → Fits p
    → total q.internal_queue + size p < 2 ^ 31
    → IsCounted (accept p q)
unfolding accept
accept-IsCounted {q} p v f s = record {
  bytes = omega (arith, total-append q.internal_queue (p ∷ []), v.bytes);
  packets = omega (
    arith,
    length-append q.internal_queue (p ∷ []),
    v.packets,
    length-le-total q.internal_queue v.fit,
  );
  fit = All-append Fits q.internal_queue (p ∷ []) v.fit (f, tt);
  small = omega (arith, total-append q.internal_queue (p ∷ []));
}

-- A print keeps all but the log.
abbrev pub with_log : DroppingQueue → Option (List LogLine) → DroppingQueue
with_log q l = record q { log = l }

pub IsCounted-with_log :
    {q : DroppingQueue} (l : Option (List LogLine)) → IsCounted q → IsCounted (with_log q l)
IsCounted-with_log l v = record {
  bytes = v.bytes;
  packets = v.packets;
  fit = v.fit;
  small = v.small;
}

-- What `print` leaves in the log.
abbrev pub line : Event → List ℕ → List LogLine → Option (List LogLine)
line event values lines = some (lines ++ record { event = event; values = values } ∷ [])

pub print-with_log :
    (event : Event) (values : List ℕ) (q : DroppingQueue) {lines : List LogLine}
    → q.log ≡ some lines
    → print event values q ≡ ok (with_log q (line event values lines))
unfolding print
print-with_log event values q e = ground arith

-- A departure is logged if the size is in range and the packet holds a header.
pub log_dequeue-with_log :
    (ts : ℕ) (p : QueuedPacket) (q : DroppingQueue)
    → Fits p
    → q.queue_size_in_bytes < 2 ^ 31
    → (l : Option (List LogLine)) × (log_dequeue ts p q ≡ ok (with_log q l))
unfolding log_dequeue size_bytes
log_dequeue-with_log ts p q f b = elim (Option-cases q.log) [
  | inl e ↦ (none, ground arith)
  | inr (lines, e) ↦
      let (h, r) = packet_header_total p.contents f.0 in
      elim (Bool-cases (is_udp h)) [
        | inl u ↦ (
          line dequeue_udp (udp_values h) lines,
          ground (arith, r, print-with_log dequeue_udp (udp_values h) q e),
        )
        | inr u ↦ (
          line dequeue_tcp tcp_values lines,
          ground (arith, r, print-with_log dequeue_tcp tcp_values q e),
        )
      ]
]
  where
    tcp_values : List ℕ
    tcp_values = ts ∷ size p ∷ q.queue_size_in_bytes ∷ sub64 ts p.arrival_time ∷ []

    udp_values : PacketHeader → List ℕ
    udp_values h = ts ∷ size p ∷ q.queue_size_in_bytes ∷ sub64 ts p.arrival_time ∷ h.seq ∷ []

pub log_arrival-with_log :
    (udp tcp : Event) (ts : ℕ) (h : PacketHeader) (p : QueuedPacket) (q : DroppingQueue)
    → q.queue_size_in_bytes < 2 ^ 31
    → (l : Option (List LogLine)) × (log_arrival udp tcp ts h p q ≡ ok (with_log q l))
unfolding log_arrival size_bytes
log_arrival-with_log udp tcp ts h p q b = elim (Option-cases q.log) [
  | inl e ↦ (none, ground arith)
  | inr (lines, e) ↦ elim (Bool-cases (is_udp h)) [
    | inl u ↦ (line udp udp_values lines, ground (arith, print-with_log udp udp_values q e))
    | inr u ↦ (line tcp tcp_values lines, ground (arith, print-with_log tcp tcp_values q e))
  ]
]
  where
    tcp_values : List ℕ
    tcp_values = ts ∷ size p ∷ q.queue_size_in_bytes ∷ []

    udp_values : List ℕ
    udp_values = ts ∷ size p ∷ q.queue_size_in_bytes ∷ h.seq ∷ msg_no h ∷ []

-- What is left when the oldest packet has gone.
abbrev pub without_front : DroppingQueue → List QueuedPacket → DroppingQueue
without_front q rest = record q {
  queue_size_in_bytes = total rest;
  queue_size_in_packets = length rest;
  internal_queue = rest;
}

module _ {q : DroppingQueue} (p : QueuedPacket) (rest : List QueuedPacket) (v : IsCounted q)
    (e : q.internal_queue ≡ p ∷ rest) where
  pub without_front-IsCounted : IsCounted (without_front q rest)
  without_front-IsCounted = record {
    bytes = refl;
    packets = refl;
    fit = (rw e at v.fit).1;
    small = omega (arith, ap total e, v.small);
  }

  pub forget-without_front :
      (l : Option (List LogLine))
      → forget p (record q { internal_queue = rest; log = l }) ≡ with_log (without_front q rest) l
  unfolding forget
  forget-without_front l =
      ground (arith, ap total e, ap length e, length-le-total q.internal_queue v.fit)

  -- `dequeue` hands out the oldest packet and keeps the others in order; its last assertion is that
  -- they are within the limits.
  pub dequeue-front :
      (ts : ℕ)
      → (l : Option (List LogLine)) × (dequeue ts q ≡ (
          if within (limits q) rest
          then ok (p, with_log (without_front q rest) l)
          else fail assertion))
  unfolding dequeue pop_front empty assert_good
  dequeue-front ts =
      let (l, r) =
        log_dequeue-with_log ts p (record q { internal_queue = rest }) (rw e at v.fit).0
          (omega (arith, v.bytes, v.small)) in
      (
        l,
        ground (
          arith,
          r,
          forget-without_front l,
          good-IsCounted (IsCounted-with_log l without_front-IsCounted),
        ),
      )
