-- ===== src/Queue/Bitrate/Departures.antt =====
-- `dequeuefront` and `dequeue` of the Octopus queue.
use octopus_mahimahi.Common.{
  signed_lt, ℕ, zero, suc, ◌+◌, ◌/◌, ◌^◌, Bool, true, false, not, ◌&&◌, List, [], ◌∷◌, none, some,
  Result, ok, fail, thrown, out_of_fuel, ◌>>=◌, ◌>>◌, assert, length, take, replicate, leb, ltb,
  ◌==◌, if◌then◌else◌, add32, sub32, sub64, find, put, erase, value_or, touch,
}
use octopus_mahimahi.Packet.{
  QueuedPacket, size, first, last, mid, solo, PacketHeader, packet_header, is_octopus, msg_no,
  pkt_pos, priority, slack_time, bitrate, dstport,
}
use octopus_mahimahi.Queue.Abstract.{Clock}
use octopus_mahimahi.Queue.{
  dequeue_octopus, sema_drop_bitrate, sema_drop_priority, Event, print, empty, forget, pop_front,
}
use octopus_mahimahi.Queue.Bitrate.{BitrateQueue, counters, minus_one, log_line}

-- The sum of the rates, as a `uint32_t`.
abbrev pub sum_rates : List (ℕ × ℕ) → ℕ
sum_rates [] = 0
sum_rates ((port, rate) ∷ m) = add32 rate (sum_rates m)

unfoldable pub fair_share : ℕ → ℕ → ℕ → ℕ
fair_share own_rate peer_rate bandwidth =
    let half = bandwidth / 2 in
    if peer_rate == 0
    then bandwidth
    else if leb half peer_rate && leb half own_rate
    then half
    else if leb peer_rate half && leb own_rate half
    then half
    else if leb peer_rate half && leb half own_rate
    then sub32 bandwidth peer_rate
    else if leb half peer_rate && leb own_rate half
    then add32 own_rate 500
    else 0

-- The newest message that pre-empts one of the priorities given, or -1.
abbrev pub latest_dropper : List ℕ → ℕ
latest_dropper droppers = newest minus_one droppers
  where
    newest : ℕ → List ℕ → ℕ
    newest so_far [] = so_far
    newest so_far (d ∷ ds) = newest (if signed_lt so_far d then d else so_far) ds

-- `sojourn_time >= header.slack_time()`, of an `int64_t`.
abbrev pub waited : ℕ → ℕ → Bool
waited sojourn_time slack = ltb sojourn_time (2 ^ 63) && leb slack sojourn_time

-- The packet is to be dropped, and the rest of its message with it.
unfoldable pub drop_message :
    Event
    → List ℕ
    → ℕ
    → PacketHeader
    → QueuedPacket
    → BitrateQueue
    → Result (QueuedPacket × BitrateQueue)
drop_message event values port header pkt q = do
  base' ← elim q.base.log [ none ↦ ok q.base | some _ ↦ print event values q.base ]
  ok (
    record pkt { is_drop = true },
    record q { base = base'; msg_in_drop = put port (msg_no header) q.msg_in_drop },
  )

-- The decision of `dequeuefront` on a packet with a header, of which the message has arrived whole or
-- has not.
unfoldable pub judge :
    ℕ → ℕ → PacketHeader → QueuedPacket → BitrateQueue → Result (QueuedPacket × BitrateQueue)
judge ts port header pkt q =
    let own_rate = value_or 0 port q.enqueue_rate in
    let peer_rate = sub32 (sum_rates q.enqueue_rate) own_rate in
    let share = fair_share own_rate peer_rate q.base.bandwidth in
    let whole : Bool = elim (find (msg_no header) (counters port q)) [
      | none ↦ false
      | some n ↦ n == 2
    ] in
    let droppers = value_or (replicate 8 0) port q.prio_to_droppers in
    let dropper = latest_dropper (take (priority header + 1) droppers) in
    let sojourn_time = sub64 ts pkt.arrival_time in
    let q1 = record q { enqueue_rate = touch 0 port q.enqueue_rate } in
    let q2 = record q1 { prio_to_droppers = put port droppers q.prio_to_droppers } in
    let q3 = record q1 { msg_in_drop = touch 0 port q.msg_in_drop } in
    elim whole [
      | true ↦
          if ltb share (bitrate header) && waited sojourn_time (slack_time header)
          then drop_message sema_drop_bitrate
              (ts ∷ header.seq ∷ msg_no header ∷ bitrate header ∷ share ∷ slack_time header ∷ [])
              port header pkt q2
          else if signed_lt (msg_no header) dropper && waited sojourn_time (slack_time header)
          then drop_message sema_drop_priority
              (ts ∷ header.seq ∷ msg_no header ∷ priority header ∷ dropper ∷ slack_time header ∷ [])
              port header pkt q2
          else ok (pkt, q2)
      | false ↦
          if msg_no header == value_or 0 port q.msg_in_drop
          then ok (record pkt { is_drop = true }, q3)
          else ok (pkt, q3)
    ]

-- An end of a message has left.
unfoldable pub uncount_frame : ℕ → PacketHeader → BitrateQueue → Result BitrateQueue
uncount_frame port header q =
    let m = counters port q in
    let msg = msg_no header in
    let less : Result BitrateQueue = elim (find msg m) [
      | none ↦ fail thrown
      | some n ↦ ok (record q {
        frame_counter =
            put port (if sub32 n 1 == 0 then erase msg m else put msg (sub32 n 1) m)
              q.frame_counter;
      })
    ] in
    elim (pkt_pos header) [
      | first ↦ less
      | last ↦ less
      | mid ↦ ok q
      | solo ↦ do
        assert (value_or 0 msg m == 2)
        ok (record q { frame_counter = put port (erase msg m) q.frame_counter })
    ]

unfoldable pub dequeuefront : ℕ → BitrateQueue → Result (QueuedPacket × BitrateQueue)
dequeuefront ts q = do
  (pkt, rest) ← pop_front q.base
  let q1 = record q { base = forget pkt rest }
  header ← packet_header pkt.contents
  if not (is_octopus header) then ok (pkt, q1) else do
    let port = dstport header
    (pkt', q2) ← judge ts port header pkt q1
    q3 ← uncount_frame port header q2
    ok (pkt', q3)

-- `while ( !internal_queue_.empty() )`, with the packet at hand. A round that goes on takes a packet
-- out of the queue.
unfoldable pub skip_loop :
    ℕ → ℕ → Clock → QueuedPacket → BitrateQueue → Result (QueuedPacket × BitrateQueue)
skip_loop zero k clock pkt q = fail out_of_fuel
skip_loop (suc fuel) k clock pkt q = elim (empty q.base) [
  | true ↦ ok (pkt, q)
  | false ↦ do
    header ← packet_header pkt.contents
    elim (is_octopus header && pkt.is_drop) [
      | false ↦ ok (pkt, q)
      | true ↦ do (pkt', q1) ← dequeuefront (clock k) q; skip_loop fuel (k + 1) clock pkt' q1
    ]
]

-- The first reading of the clock is the one for the log.
unfoldable pub dequeue : Clock → BitrateQueue → Result (QueuedPacket × BitrateQueue)
dequeue clock q = do
  assert (not (empty q.base))
  (first_pkt, q1) ← dequeuefront (clock 1) q
  (pkt, q2) ← skip_loop (length q1.base.internal_queue + 1) 2 clock first_pkt q1
  header ← packet_header pkt.contents
  base' ←
      if is_octopus header
      then log_line dequeue_octopus
          (λ b.
            clock 0
            ∷ size pkt
            ∷ b
            ∷ sub64 (clock 0) pkt.arrival_time
            ∷ header.seq
            ∷ msg_no header
            ∷ bitrate header
            ∷ q2.base.bandwidth
            ∷ header.wildcard
            ∷ [])
          q2.base
      else ok q2.base
  ok (pkt, record q2 { base = base' })
