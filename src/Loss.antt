-- ===== src/Loss.antt =====
-- src/frontend/loss_queue.hh and .cc, and src/frontend/meter_queue.hh and .cc: queues that pass packets on at
-- once, with losses or with a count of the bytes.
pub mod Passed
pub mod Switching
mod Tests
use octopus_mahimahi.Common.{
  ℕ, ◌-◌, ◌^◌, ◌≡◌, Bool, true, false, not, List, [], ◌∷◌, ◌++◌, Option, none, some, length, null,
  if◌then◌else◌,
}
use octopus_mahimahi.Packet.{Bytes}

-- `numeric_limits<uint16_t>::max()`
abbrev pub max_wait : ℕ
max_wait = 2 ^ 16 - 1

-- `G` is the state of `default_random_engine`.
pub record LossQueue (G : Type 0) : Type 0 where
  pub packet_queue : List Bytes
  pub prng : G

-- `while ( not packet_queue_.empty() )`: what is written, and the queue after it.
unfoldable pub write_loop : List Bytes → List Bytes → List Bytes × List Bytes
write_loop written [] = (written, [])
write_loop written (contents ∷ rest) = write_loop (written ++ contents ∷ []) rest

module _ {G : Type 0} where
  -- `drop_packet` is the virtual method.
  unfoldable pub read_packet : (Bytes → G → Bool × G) → Bytes → LossQueue G → LossQueue G
  read_packet drop_packet contents q =
      let (dropped, g) = drop_packet contents q.prng in
      if not dropped
      then record { packet_queue = q.packet_queue ++ contents ∷ []; prng = g }
      else record q { prng = g }

  unfoldable pub write_packets : LossQueue G → List Bytes × LossQueue G
  write_packets q =
      let (written, left) = write_loop [] q.packet_queue in
      (written, record q { packet_queue = left })

  unfoldable pub wait_time : LossQueue G → ℕ
  wait_time q = if null q.packet_queue then max_wait else 0

  unfoldable pub pending_output : LossQueue G → Bool
  pending_output q = not (null q.packet_queue)

  -- `IIDLoss::drop_packet`; `drop_dist` is the draw of the `bernoulli_distribution`.
  unfoldable pub drop_iid : (G → Bool × G) → Bytes → G → Bool × G
  drop_iid drop_dist packet g = drop_dist g

-- `graph` has the values handed to `add_value_now( 0, … )`, if there is a graph.
pub record MeterQueue : Type 0 where
  pub packet_queue : List Bytes
  pub graph : Option (List ℕ)

unfoldable pub meter_packet : Bytes → MeterQueue → MeterQueue
meter_packet contents q = record {
  packet_queue = q.packet_queue ++ contents ∷ [];
  graph = elim q.graph [ none ↦ none | some values ↦ some (values ++ length contents ∷ []) ];
}

unfoldable pub write_metered : MeterQueue → List Bytes × MeterQueue
write_metered q =
    let (written, left) = write_loop [] q.packet_queue in
    (written, record q { packet_queue = left })

unfoldable pub meter_wait_time : MeterQueue → ℕ
meter_wait_time q = if null q.packet_queue then max_wait else 0
