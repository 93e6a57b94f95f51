-- ===== src/Queue.antt =====
-- src/packet/dropping_packet_queue.hh and .cc: the base class of the queues with limits.
pub mod Abstract
pub mod Fifo
pub mod Counts
pub mod Limits
pub mod DropTail
pub mod DropHead
pub mod Infinite
pub mod Codel
pub mod ActiveNet
pub mod Bitrate
pub mod Pie
pub mod Construct
mod Tests
use octopus_mahimahi.Common.{
  ℕ, zero, suc, ◌+◌, ◌-◌, ◌%◌, ◌^◌, ◌≡◌, Bool, true, false, not, ◌&&◌, List, [], ◌∷◌, ◌++◌, Option,
  none, some, Result, ok, fail, ◌>>=◌, ◌>>◌, assert, check, undefined, length, null, leb, ltb, ◌==◌,
  if◌then◌else◌, add32, sub32, sub64,
}
use octopus_mahimahi.Packet.{Bytes, QueuedPacket, size, PacketHeader, packet_header, is_udp, msg_no}

-- The formats of the lines that the queues print to `log_fd_`.
pub data Event : Type 0 where
  enqueue_udp enqueue_tcp drop_udp drop_tcp dequeue_udp dequeue_tcp : Event
  enqueue_udp_seq drop_tail_udp dequeue_udp_wildcard enqueue_octopus_port : Event
  enqueue_other enqueue_octopus dequeue_octopus : Event
  sema_drop_frame sema_drop_bitrate sema_drop_priority : Event

-- A line, as its format and the numbers that it prints.
pub record LogLine : Type 0 where
  pub event : Event
  pub values : List ℕ

-- The two sizes are `int`s, as bit patterns. `log` is `log_fd_`: `none` is the null pointer.
pub record DroppingQueue : Type 0 where
  pub queue_size_in_bytes : ℕ
  pub queue_size_in_packets : ℕ
  pub internal_queue : List QueuedPacket
  pub packet_limit : ℕ
  pub byte_limit : ℕ
  pub log : Option (List LogLine)
  pub bandwidth : ℕ

-- `fprintf( log_fd_, … )`; with a null pointer it has no meaning.
unfoldable pub print : Event → List ℕ → DroppingQueue → Result DroppingQueue
print event values q = elim q.log [
  | none ↦ fail undefined
  | some lines ↦
      ok (record q { log = some (lines ++ record { event = event; values = values } ∷ []) })
]

-- An `int` of that pattern is not negative.
abbrev pub non_negative : ℕ → Bool
non_negative w = ltb w (2 ^ 31)

unfoldable pub size_bytes : DroppingQueue → Result ℕ
size_bytes q = do assert (non_negative q.queue_size_in_bytes); ok q.queue_size_in_bytes

unfoldable pub size_packets : DroppingQueue → Result ℕ
size_packets q = do assert (non_negative q.queue_size_in_packets); ok q.queue_size_in_packets

unfoldable pub empty : DroppingQueue → Bool
empty q = null q.internal_queue

unfoldable pub good_with : DroppingQueue → ℕ → ℕ → Bool
good_with q size_in_bytes size_in_packets =
    (if q.byte_limit == 0 then true else leb size_in_bytes q.byte_limit)
    && (if q.packet_limit == 0 then true else leb size_in_packets q.packet_limit)

unfoldable pub good : DroppingQueue → Result Bool
good q = do b ← size_bytes q; n ← size_packets q; ok (good_with q b n)

-- The test of every `enqueue`, `good_with( size_bytes() + p.contents.size(), size_packets() + 1 )`,
-- whose arguments are converted to `unsigned int`.
unfoldable pub good_with_packet : QueuedPacket → DroppingQueue → Result Bool
good_with_packet p q = do
  b ← size_bytes q
  n ← size_packets q
  ok (good_with q (add32 b (size p)) (add32 n 1))

unfoldable pub assert_good : DroppingQueue → Result (Unit {0})
assert_good q = do b ← good q; assert b

unfoldable pub accept : QueuedPacket → DroppingQueue → DroppingQueue
accept p q = record q {
  queue_size_in_bytes = add32 q.queue_size_in_bytes (size p);
  queue_size_in_packets = add32 q.queue_size_in_packets 1;
  internal_queue = q.internal_queue ++ p ∷ [];
}

-- The two size updates of a removal.
unfoldable pub forget : QueuedPacket → DroppingQueue → DroppingQueue
forget p q = record q {
  queue_size_in_bytes = sub32 q.queue_size_in_bytes (size p);
  queue_size_in_packets = sub32 q.queue_size_in_packets 1;
}

-- `internal_queue_.front()` and `pop_front()`: an empty deque has neither.
unfoldable pub pop_front : DroppingQueue → Result (QueuedPacket × DroppingQueue)
pop_front q = elim q.internal_queue [
  | [] ↦ fail undefined
  | p ∷ rest ↦ ok (p, record q { internal_queue = rest })
]

-- The line of a departure, printed if there is a log.
unfoldable pub log_dequeue : ℕ → QueuedPacket → DroppingQueue → Result DroppingQueue
log_dequeue ts p q = elim q.log [
  | none ↦ ok q
  | some _ ↦ do
    header ← packet_header p.contents
    b ← size_bytes q
    if is_udp header
        then print dequeue_udp (ts ∷ size p ∷ b ∷ sub64 ts p.arrival_time ∷ header.seq ∷ []) q
        else print dequeue_tcp (ts ∷ size p ∷ b ∷ sub64 ts p.arrival_time ∷ []) q
]

unfoldable pub dequeue : ℕ → DroppingQueue → Result (QueuedPacket × DroppingQueue)
dequeue ts q = do
  assert (not (empty q))
  (ret, q1) ← pop_front q
  q2 ← log_dequeue ts ret q1
  let q3 = forget ret q2
  assert_good q3
  ok (ret, q3)

unfoldable pub set_bandwidth : ℕ → DroppingQueue → DroppingQueue
set_bandwidth b q = record q { bandwidth = b }

-- The line of an arrival: `udp` for a UDP packet, `tcp` for another, printed if there is a log.
unfoldable pub log_arrival :
    Event → Event → ℕ → PacketHeader → QueuedPacket → DroppingQueue → Result DroppingQueue
log_arrival udp tcp ts header p q = elim q.log [
  | none ↦ ok q
  | some _ ↦ do
    b ← size_bytes q
    if is_udp header
        then print udp (ts ∷ size p ∷ b ∷ header.seq ∷ msg_no header ∷ []) q
        else print tcp (ts ∷ size p ∷ b ∷ []) q
]
