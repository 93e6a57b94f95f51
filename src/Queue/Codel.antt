-- ===== src/Queue/Codel.antt =====
-- src/packet/codel_packet_queue.hh and .cc: controlled delay, which drops as packets leave.
pub mod Control
pub mod Departures
pub mod Refine
mod Tests
use octopus_mahimahi.Common.{
  ℕ, zero, suc, ◌+◌, ◌*◌, ◌%◌, ◌^◌, ◌≡◌, Bool, true, false, ◌&&◌, List, [], ◌∷◌, Option, none, some,
  Result, ok, fail, out_of_fuel, ◌>>=◌, ◌>>◌, length, leb, ltb, ◌==◌, if◌then◌else◌, add32, sub32,
  add64, sub64,
}
use octopus_mahimahi.Packet.{QueuedPacket, size, packet_header, is_udp}
use octopus_mahimahi.Queue.Abstract.{Clock, PacketQueue}
use octopus_mahimahi.Queue.Counts.{packet_size}
use octopus_mahimahi.Queue.{
  DroppingQueue, enqueue_udp_seq, enqueue_tcp, print, size_bytes, size_packets, empty,
  good_with_packet, assert_good, accept, forget, pop_front, log_dequeue, set_bandwidth,
}

-- `base` has the fields of the base class.
pub record CodelQueue : Type 0 where
  pub base : DroppingQueue
  pub target : ℕ
  pub interval : ℕ
  pub first_above_time : ℕ
  pub drop_next : ℕ
  pub count : ℕ
  pub lastcount : ℕ
  pub dropping : Bool

-- The front packet, and whether it may be dropped.
unfoldable pub dodequeue : ℕ → CodelQueue → Result ((QueuedPacket × Bool) × CodelQueue)
dodequeue now q = do
  (p, rest) ← pop_front q.base
  let base' = forget p rest
  assert_good base'
  if empty base' then ok ((p, false), record q { base = base'; first_above_time = 0 }) else do
    let sojourn_time = sub64 now p.arrival_time
    below ←
        if ltb sojourn_time q.target
        then ok true
        else do b ← size_bytes base'; ok (leb b packet_size)
    ok (
        if below
        then ((p, false), record q { base = base'; first_above_time = 0 })
        else if q.first_above_time == 0
        then ((p, false), record q { base = base'; first_above_time = add64 now q.interval })
        else ((p, leb q.first_above_time now), record q { base = base' }))

-- The line of an arrival, printed if there is a log.
unfoldable pub log_enqueue : ℕ → QueuedPacket → DroppingQueue → Result DroppingQueue
log_enqueue ts p q = elim q.log [
  | none ↦ ok q
  | some _ ↦ do
    header ← packet_header p.contents
    b ← size_bytes q
    if is_udp header
        then print enqueue_udp_seq (ts ∷ size p ∷ b ∷ header.seq ∷ []) q
        else print enqueue_tcp (ts ∷ size p ∷ b ∷ []) q
]

unfoldable pub enqueue : Clock → QueuedPacket → CodelQueue → Result CodelQueue
enqueue clock p q = do
  fits ← good_with_packet p q.base
  base' ←
      if fits then (do logged ← log_enqueue (clock 0) p q.base; ok (accept p logged)) else ok q.base
  assert_good base'
  ok (record q { base = base' })

-- `quotient interval count` is the conversion to `uint64_t` of the double `interval / sqrt( count )`.
module _ (quotient : ℕ → ℕ → ℕ) where
  unfoldable pub control_law : ℕ → ℕ → CodelQueue → ℕ
  control_law t count q = add64 t (quotient q.interval count)

  -- What the loop does with the second result of `dodequeue`.
  abbrev pub count_drop : Bool → CodelQueue → CodelQueue
  count_drop ok_to_drop q =
      let count' = add32 q.count 1 in
      (if ok_to_drop
        then record q { count = count'; drop_next = control_law q.drop_next count' q }
        else record q { count = count'; dropping = false })

  -- `while ( now >= drop_next_ && dropping_ )`
  unfoldable pub drop_loop : ℕ → ℕ → CodelQueue → Result CodelQueue
  drop_loop zero now q = fail out_of_fuel
  drop_loop (suc fuel) now q = elim (leb q.drop_next now && q.dropping) [
    | false ↦ ok q
    | true ↦ do
      ((p, ok_to_drop), q1) ← dodequeue now q
      drop_loop fuel now (count_drop ok_to_drop q1)
  ]

  -- The first drop: the branch of `dequeue` in which the queue was not dropping.
  unfoldable pub start_dropping : ℕ → CodelQueue → Result CodelQueue
  start_dropping now q = do
    (_, q1) ← dodequeue now q
    let delta = sub32 q1.count q1.lastcount
    let count' =
        if ltb 1 delta && ltb (sub64 now q1.drop_next) (16 * q1.interval % 2 ^ 32) then delta else 1
    ok (record q1 {
      dropping = true;
      count = count';
      drop_next = control_law now count' q1;
      lastcount = count';
    })

  -- The packet that is returned is the first `r`: those in the loop and in the last branch are
  -- other variables.
  unfoldable pub dequeue : Clock → CodelQueue → Result (QueuedPacket × CodelQueue)
  dequeue clock q = do
    let now = clock 0
    ((p, ok_to_drop), q1) ← dodequeue now q
    q2 ←
        if q1.dropping
        then (let q' = if ok_to_drop then q1 else record q1 { dropping = false } in
            drop_loop (length q'.base.internal_queue + 1) now q')
        else if ok_to_drop
        then start_dropping now q1
        else ok q1
    base' ← log_dequeue (clock 1) p q2.base
    ok (p, record q2 { base = base' })

  abbrev pub queue : PacketQueue CodelQueue
  queue = record {
    enqueue = enqueue;
    dequeue = dequeue;
    empty = λ q. empty q.base;
    size_bytes = λ q. size_bytes q.base;
    size_packets = λ q. size_packets q.base;
    set_bandwidth = λ bandwidth q. record q { base = set_bandwidth bandwidth q.base };
  }
