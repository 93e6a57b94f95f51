-- ===== src/Queue/Construct.antt =====
-- The constructors of the queues and to_string: src/packet/dropping_packet_queue.cc, codel_packet_queue.cc,
-- pie_packet_queue.cc and infinite_packet_queue.hh.
pub mod New
mod Tests
use octopus_mahimahi.Common.{
  ℕ, zero, suc, ◌+◌, ◌/◌, ◌%◌, ◌^◌, ◌≡◌, Bool, true, false, not, ◌&&◌, ◌||◌, List, [], ◌∷◌, ◌++◌,
  Option, none, some, Result, ok, fail, thrown, ◌>>=◌, ◌>>◌, check, length, null, take, ltb, ◌==◌,
  if◌then◌else◌, codes, same_bytes,
}
use octopus_mahimahi.Packet.{Bytes}
use octopus_mahimahi.Chunked.{find_in, substr, myatoi}
use octopus_mahimahi.Http.Tokenize.{substr_of}
use octopus_mahimahi.Queue.{LogLine, DroppingQueue}
use octopus_mahimahi.Queue.Codel.{CodelQueue}
use octopus_mahimahi.Queue.Infinite.{InfiniteQueue}
use octopus_mahimahi.Queue.Pie.{Doubles, PieQueue, dq_count_invalid}

unfoldable pub get_arg : Bytes → Bytes → Result Bytes
get_arg args name = elim (find_in name args) [
  | none ↦ ok []
  | some at_name ↦ do
    let offset = at_name + length name
    next ← substr_of offset 1 args
    check thrown (same_bytes next (codes "="))
    value ← substr (offset + 1) args
    let digit_string = elim (find_in (b',' ∷ []) value) as (λ _. Bytes) [
      | none ↦ value
      | some offset2 ↦ take offset2 value
    ]
    check thrown (not (null digit_string))
    ok digit_string
]

-- `fopen( …, "w" )` of the log file, if one is named: whether it can be opened is `opens`.
abbrev pub open_log : (Bytes → Bool) → Bytes → Option (List LogLine)
open_log opens name = if not (null name) && opens name then some [] else none

-- `::to_string( n )`; ten rounds are enough for 32 bits.
unfoldable pub decimal : ℕ → ℕ → Bytes → Bytes
decimal zero n digits = digits
decimal (suc fuel) n digits =
    let longer = decimal fuel (n / 10) ((n % 10 + b'0') ∷ digits) in
    if ltb n 10 then (n + b'0') ∷ digits else longer

-- `type` is the name of the class derived.
unfoldable pub to_string : Bytes → DroppingQueue → Bytes
to_string type q =
    let bytes =
      if not (q.byte_limit == 0) then codes "bytes=" ++ decimal 10 q.byte_limit [] else [] in
    let comma = if not (q.byte_limit == 0) then codes ", " else [] in
    let packets =
      if not (q.packet_limit == 0)
      then comma ++ (codes "packets=" ++ decimal 10 q.packet_limit [])
      else [] in
    type ++ (codes " [" ++ (bytes ++ (packets ++ codes "]")))

-- `InfinitePacketQueue( args )`
unfoldable pub infinite_queue : Bytes → Result InfiniteQueue
infinite_queue args = do
  check thrown (null args)
  ok (record { queue_size_in_bytes = 0; queue_size_in_packets = 0; internal_queue = [] })

module _ (strtol : Bytes → ℕ → Option (ℕ × ℕ)) where
  -- The number of an argument, an `unsigned int`, which is 0 if it is not given.
  unfoldable pub number_arg : Bytes → Bytes → Result ℕ
  number_arg args name = do
    argv ← get_arg args name
    elim (null argv) [ true ↦ ok 0 | false ↦ do n ← myatoi strtol argv 10; ok (n % 2 ^ 32) ]

  -- `DroppingPacketQueue( args )`; `bandwidth_` is not set, and starts as anything.
  unfoldable pub dropping_queue : (Bytes → Bool) → ℕ → Bytes → Result DroppingQueue
  dropping_queue opens bandwidth args = do
    packet_limit ← number_arg args (codes "packets")
    byte_limit ← number_arg args (codes "bytes")
    check thrown (not (packet_limit == 0 && byte_limit == 0))
    log_file ← get_arg args (codes "log_file")
    ok (record {
      queue_size_in_bytes = 0;
      queue_size_in_packets = 0;
      internal_queue = [];
      packet_limit = packet_limit;
      byte_limit = byte_limit;
      log = open_log opens log_file;
      bandwidth = bandwidth;
    })

  -- `CODELPacketQueue( args )`
  unfoldable pub codel_queue : (Bytes → Bool) → ℕ → Bytes → Result CodelQueue
  codel_queue opens bandwidth args = do
    base ← dropping_queue opens bandwidth args
    target ← number_arg args (codes "target")
    interval ← number_arg args (codes "interval")
    check thrown (not (target == 0 || interval == 0))
    ok (record {
      base = base;
      target = target;
      interval = interval;
      first_above_time = 0;
      drop_next = 0;
      count = 0;
      lastcount = 0;
      dropping = false;
    })

  -- `PIEPacketQueue( args )`, at the time `now`; `prng` is the engine with its random seed.
  unfoldable pub pie_queue :
      {D G : Type 0} → Doubles D → G → ℕ → (Bytes → Bool) → ℕ → Bytes → Result (PieQueue D G)
  pie_queue doubles prng now opens bandwidth args = do
    base ← dropping_queue opens bandwidth args
    qdelay_ref ← number_arg args (codes "qdelay_ref")
    max_burst ← number_arg args (codes "max_burst")
    check thrown (not (qdelay_ref == 0 || max_burst == 0))
    ok (record {
      base = base;
      qdelay_ref = qdelay_ref;
      max_burst = max_burst;
      alpha = doubles.literal 125 1000;
      beta = doubles.literal 125 100;
      t_update = 30;
      dq_threshold = 16384;
      drop_prob = doubles.literal 0 1;
      burst_allowance = 0;
      qdelay_old = 0;
      current_qdelay = 0;
      dq_count = dq_count_invalid;
      dq_tstamp = 0;
      avg_dq_rate = 0;
      prng = prng;
      last_update = now;
    })
