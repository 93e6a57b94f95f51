-- ===== src/Queue/Infinite.antt =====
-- src/packet/infinite_packet_queue.hh: every packet is kept.
pub mod Refine
use octopus_mahimahi.Common.{
  ℕ, ◌≡◌, Bool, not, List, [], ◌∷◌, ◌++◌, Result, ok, fail, undefined, ◌>>=◌, ◌>>◌, assert, null,
  add32, sub32,
}
use octopus_mahimahi.Packet.{QueuedPacket, size}
use octopus_mahimahi.Queue.Abstract.{PacketQueue}
use octopus_mahimahi.Queue.{non_negative}

pub record InfiniteQueue : Type 0 where
  pub queue_size_in_bytes : ℕ
  pub queue_size_in_packets : ℕ
  pub internal_queue : List QueuedPacket

unfoldable pub enqueue : QueuedPacket → InfiniteQueue → InfiniteQueue
enqueue p q = record {
  queue_size_in_bytes = add32 q.queue_size_in_bytes (size p);
  queue_size_in_packets = add32 q.queue_size_in_packets 1;
  internal_queue = q.internal_queue ++ p ∷ [];
}

unfoldable pub empty : InfiniteQueue → Bool
empty q = null q.internal_queue

-- `front()` and `pop()` after the assertion that there is a packet.
unfoldable pub dequeue : InfiniteQueue → Result (QueuedPacket × InfiniteQueue)
dequeue q = do
  assert (not (empty q))
  elim q.internal_queue [
    | [] ↦ fail undefined
    | p ∷ rest ↦ ok (
      p,
      record {
        queue_size_in_bytes = sub32 q.queue_size_in_bytes (size p);
        queue_size_in_packets = sub32 q.queue_size_in_packets 1;
        internal_queue = rest;
      },
    )
  ]

unfoldable pub size_bytes : InfiniteQueue → Result ℕ
size_bytes q = do assert (non_negative q.queue_size_in_bytes); ok q.queue_size_in_bytes

unfoldable pub size_packets : InfiniteQueue → Result ℕ
size_packets q = do assert (non_negative q.queue_size_in_packets); ok q.queue_size_in_packets

-- `set_bandwidth` is the base class's, which does nothing.
abbrev pub queue : PacketQueue InfiniteQueue
queue = record {
  enqueue = λ clock p q. ok (enqueue p q);
  dequeue = λ clock q. dequeue q;
  empty = empty;
  size_bytes = size_bytes;
  size_packets = size_packets;
  set_bandwidth = λ bandwidth q. q;
}
