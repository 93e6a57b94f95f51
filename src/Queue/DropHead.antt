-- ===== src/Queue/DropHead.antt =====
-- src/packet/drop_head_packet_queue.hh: the oldest packets make room for the new one.
pub mod Outcome
use octopus_mahimahi.Common.{
  ℕ, zero, suc, ◌+◌, ◌≡◌, Bool, true, false, List, Result, ok, fail, out_of_fuel, ◌>>=◌, length,
  if◌then◌else◌,
}
use octopus_mahimahi.Packet.{QueuedPacket}
use octopus_mahimahi.Queue.Abstract.{Clock}
use octopus_mahimahi.Queue.{DroppingQueue, good, accept, dequeue}

-- `while ( not good() ) dequeue();`, the `k`-th `dequeue` with the `k`-th reading of the clock.
unfoldable pub drop_loop : ℕ → ℕ → Clock → DroppingQueue → Result DroppingQueue
drop_loop zero k clock q = fail out_of_fuel
drop_loop (suc fuel) k clock q = do
  g ← good q
  elim g [ true ↦ ok q | false ↦ do (_, q') ← dequeue (clock k) q; drop_loop fuel (k + 1) clock q' ]

-- Each round takes a packet out, and an empty queue has none to take.
unfoldable pub enqueue : Clock → QueuedPacket → DroppingQueue → Result DroppingQueue
unfolding drop_loop
enqueue clock p q = let q1 = accept p q in drop_loop (length q1.internal_queue + 1) 0 clock q1
