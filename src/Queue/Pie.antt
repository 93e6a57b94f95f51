-- ===== src/Queue/Pie.antt =====
-- src/packet/pie_packet_queue.hh and .cc: PIE, which drops packets at random as they arrive.
pub mod Periods
mod Tests
use octopus_mahimahi.Common.{
  ℕ, zero, suc, ◌+◌, ◌-◌, ◌*◌, ◌/◌, ◌%◌, ◌^◌, ◌≡◌, Bool, true, false, not, ◌&&◌, ◌||◌, List, [],
  ◌∷◌, Option, Result, ok, fail, undefined, out_of_fuel, ◌>>=◌, ◌>>◌, leb, ltb, ◌==◌, if◌then◌else◌,
  add32, sub32, add64, sub64,
}
use octopus_mahimahi.Packet.{QueuedPacket, size}
use octopus_mahimahi.Queue.Abstract.{Clock, PacketQueue}
use octopus_mahimahi.Queue.Counts.{packet_size}
use octopus_mahimahi.Queue.{
  DroppingQueue, size_bytes, size_packets, empty, good_with_packet, assert_good, accept,
  set_bandwidth,
}
use octopus_mahimahi.Queue

-- What the queue uses of `double`: the conversion of an `int`, a quotient of two numbers for its
-- literals, and the operations.
pub record Doubles (D : Type 0) : Type 0 where
  pub of_int : ℕ → D
  pub literal : ℕ → ℕ → D
  pub plus : D → D → D
  pub times : D → D → D
  pub over : D → D → D
  pub less : D → D → Bool
  pub same : D → D → Bool

-- `G` is the state of the random engine. The numbers are `uint32_t`s, but for `last_update`.
pub record PieQueue (D G : Type 0) : Type 0 where
  pub base : DroppingQueue
  pub qdelay_ref : ℕ
  pub max_burst : ℕ
  pub alpha : D
  pub beta : D
  pub t_update : ℕ
  pub dq_threshold : ℕ
  pub drop_prob : D
  pub burst_allowance : ℕ
  pub qdelay_old : ℕ
  pub current_qdelay : ℕ
  pub dq_count : ℕ
  pub dq_tstamp : ℕ
  pub avg_dq_rate : ℕ
  pub prng : G
  pub last_update : ℕ

-- `DQ_COUNT_INVALID`
abbrev pub dq_count_invalid : ℕ
dq_count_invalid = 2 ^ 32 - 1

-- `draw` is `uniform_generator_( prng_ )`.
module _ {D G : Type 0} (doubles : Doubles D) (draw : G → D × G) where
  -- The new probability before the decay, and whether it is still to be updated.
  unfoldable pub raise_prob : ℕ → ℕ → Bool → PieQueue D G → D × Bool
  raise_prob current old update_prob q =
      let p =
        doubles.plus (doubles.times q.alpha (doubles.of_int (sub32 current q.qdelay_ref)))
          (doubles.times q.beta (doubles.of_int (sub32 current old))) in
      let scaled =
        if doubles.less q.drop_prob (doubles.literal 1 100)
        then doubles.over p (doubles.literal 128 1)
        else if doubles.less q.drop_prob (doubles.literal 1 10)
        then doubles.over p (doubles.literal 32 1)
        else doubles.over p (doubles.literal 16 1) in
      let raised = doubles.plus q.drop_prob scaled in
      if doubles.less raised (doubles.literal 0 1)
      then (doubles.literal 0 1, update_prob)
      else if doubles.less (doubles.literal 1 1) raised
      then (doubles.literal 1 1, false)
      else (raised, update_prob)

  -- One period of `calculate_drop_prob`, with `b` bytes in the queue.
  unfoldable pub period : ℕ → PieQueue D G → PieQueue D G
  period b q =
      let old = q.current_qdelay in
      let current = if ltb 0 q.avg_dq_rate then b / q.avg_dq_rate else 0 in
      let update_prob = not ((current == 0) && not (b == 0)) in
      let (prob, update') = raise_prob current old update_prob q in
      let decayed =
        if (current == 0) && (old == 0) && update'
        then doubles.times prob (doubles.literal 98 100)
        else prob in
      let burst = sub32 q.burst_allowance q.t_update in
      let q1 = record q {
        qdelay_old = old;
        current_qdelay = current;
        drop_prob = decayed;
        burst_allowance = if ltb burst (2 ^ 31) then burst else 0;
        last_update = add64 q.last_update q.t_update;
      } in
      if doubles.same decayed (doubles.literal 0 1)
        && ltb current (q.qdelay_ref / 2)
        && ltb old (q.qdelay_ref / 2)
        && ltb 0 q.avg_dq_rate
      then record q1 { dq_count = dq_count_invalid; avg_dq_rate = 0; burst_allowance = q.max_burst }
      else q1

  -- `while (now - last_update_ > t_update_)`
  unfoldable pub update_loop : ℕ → ℕ → PieQueue D G → Result (PieQueue D G)
  update_loop zero now q = fail out_of_fuel
  update_loop (suc fuel) now q = elim (ltb q.t_update (sub64 now q.last_update)) [
    | false ↦ ok q
    | true ↦ do b ← size_bytes q.base; update_loop fuel now (period b q)
  ]

  -- Each round takes `t_update_` milliseconds or more off the time that is left.
  unfoldable pub calculate_drop_prob : ℕ → PieQueue D G → Result (PieQueue D G)
  calculate_drop_prob now q = update_loop (sub64 now q.last_update + 1) now q

  unfoldable pub drop_early : PieQueue D G → Result (Bool × PieQueue D G)
  drop_early q =
      if ltb 0 q.burst_allowance
      then ok (false, q)
      else if ltb q.qdelay_old (q.qdelay_ref / 2) && doubles.less q.drop_prob (doubles.literal 2 10)
      then ok (false, q)
      else do
        b ← size_bytes q.base
        ok (
            if ltb b (2 * packet_size)
            then (false, q)
            else (doubles.less (draw q.prng).0 q.drop_prob, record q { prng = (draw q.prng).1 }))

  unfoldable pub enqueue : ℕ → QueuedPacket → PieQueue D G → Result (PieQueue D G)
  enqueue now p q = do
    q1 ← calculate_drop_prob now q
    fits ← good_with_packet p q1.base
    if not fits then ok q1 else do
      (early, q2) ← drop_early q1
      let q3 = if early then q2 else record q2 { base = accept p q2.base }
      assert_good q3.base
      ok q3

  -- The rate at which packets leave, once more than `dq_threshold_` bytes have.
  unfoldable pub sample_rate : ℕ → ℕ → PieQueue D G → PieQueue D G
  sample_rate now b q =
      let dtime = sub32 now q.dq_tstamp in
      if not (ltb q.dq_threshold q.dq_count) || not (ltb 0 dtime)
      then q
      else (let sample = q.dq_count / dtime in
          let rate =
            if q.avg_dq_rate == 0
            then sample
            else add32 (sub32 q.avg_dq_rate (q.avg_dq_rate / 2 ^ 3)) (sample / 2 ^ 3) in
          record q {
            avg_dq_rate = rate;
            dq_count = if ltb b q.dq_threshold then dq_count_invalid else 0;
            dq_tstamp = if ltb b q.dq_threshold then q.dq_tstamp else now;
            burst_allowance = q.burst_allowance - dtime;
          })

  -- What `dequeue` does with its counters, of a queue that has `b` bytes now.
  unfoldable pub count_departure : ℕ → ℕ → QueuedPacket → PieQueue D G → PieQueue D G
  count_departure now b ret q =
      let q1 =
        if leb q.dq_threshold b && (q.dq_count == dq_count_invalid)
        then record q { dq_tstamp = now; dq_count = 0 }
        else q in
      if q1.dq_count == dq_count_invalid
      then q1
      else sample_rate now b (record q1 { dq_count = add32 q1.dq_count (size ret) })

  -- The readings of the clock are those of the base class, of `dequeue` and of `calculate_drop_prob`.
  unfoldable pub dequeue : Clock → PieQueue D G → Result (QueuedPacket × PieQueue D G)
  dequeue clock q = do
    (ret, base') ← Queue.dequeue (clock 0) q.base
    b ← size_bytes base'
    q1 ←
        calculate_drop_prob (clock 2)
          (count_departure (clock 1 % 2 ^ 32) b ret (record q { base = base' }))
    ok (ret, q1)
