-- ===== src/Link/Construct.antt =====
-- The constructor of src/frontend/link_queue.cc: the trace file and the rates computed from it.
pub mod Valid
mod Tests
use octopus_mahimahi.Common.{
  ℕ, zero, suc, ◌+◌, ◌-◌, ◌*◌, ◌/◌, ◌%◌, ◌^◌, ◌≡◌, Bool, true, false, not, ◌||◌, List, [], ◌∷◌,
  ◌++◌, Option, none, some, Result, ok, fail, thrown, undefined, out_of_fuel, ◌>>=◌, ◌>>◌, assert,
  check, length, null, get_elem?, last_or, replicate, leb, ltb, ◌==◌, if◌then◌else◌, add64, sub64,
  sub32, signed_lt,
}
use octopus_mahimahi.Packet.{Bytes, queued}
use octopus_mahimahi.Chunked.{myatoi}
use octopus_mahimahi.Queue.Bitrate.{sign_extend}
use octopus_mahimahi.Queue.Counts.{packet_size}
use octopus_mahimahi.Link.State.{LinkLine, LinkQueue, back, max_rate}

-- The lines that `getline` gives, from the line begun so far.
unfoldable pub getlines : Bytes → Bytes → List Bytes
getlines line [] = if null line then [] else line ∷ []
getlines line (c ∷ s) = elim (c == 10) [
  | true ↦ line ∷ getlines [] s
  | false ↦ getlines (line ++ c ∷ []) s
]

-- `schedule_[ i ]`
unfoldable pub element : List ℕ → ℕ → Result ℕ
element schedule i = elim (get_elem? schedule i) [ none ↦ fail undefined | some t ↦ ok t ]

-- `int cycle = schedule_.back()`, as a bit pattern.
abbrev pub cycle_of : List ℕ → ℕ
cycle_of schedule = last_or 0 schedule % 2 ^ 32

-- The inner loop, down from `left`, over the start of the trace at most once: two rounds more than
-- members are enough.
unfoldable pub left_loop : ℕ → List ℕ → ℕ → ℕ → ℕ → Result ℕ
left_loop zero schedule i left offset = fail out_of_fuel
left_loop (suc fuel) schedule i left offset = do
  here ← element schedule left
  there ← element schedule i
  elim (ltb (sub64 there 50) (add64 here offset)) [
    | false ↦ ok left
    | true ↦ elim (left == 0) [
      | true ↦
          left_loop fuel schedule i ((length schedule - 1) % 2 ^ 32)
            (sign_extend (sub32 0 (cycle_of schedule)))
      | false ↦ left_loop fuel schedule i (left - 1) offset
    ]
  ]

-- The inner `interval`, an `int`.
abbrev pub interval_of : List ℕ → ℕ → ℕ → ℕ → ℕ → ℕ
interval_of schedule i left there here =
    (if ltb left i
      then sub64 there here
      else add64 (sub64 there here) (sign_extend (cycle_of schedule)))
    % 2 ^ 32

-- One round of the loop over a trace of 100 ms or more.
unfoldable pub bitrate_at : List ℕ → ℕ → Result ℕ
bitrate_at schedule i = do
  left ← left_loop (length schedule + 2) schedule i i 0
  here ← element schedule left
  there ← element schedule i
  let num_pkts = if ltb left i then i - left else i + length schedule - left
  let interval = interval_of schedule i left there here
  check undefined (not (interval == 0))
  ok (packet_size * num_pkts * 8 % 2 ^ 32 / interval)

-- The rounds from `i` on, `n` of them.
unfoldable pub bitrate_loop : List ℕ → ℕ → ℕ → Result (List ℕ)
bitrate_loop schedule i zero = ok []
bitrate_loop schedule i (suc n) = do
  b ← bitrate_at schedule i
  bs ← bitrate_loop schedule (suc i) n
  ok (b ∷ bs)

-- The rounds of a loop from 0 to `(int)schedule_.size()`: none if that is negative.
abbrev pub rounds : List ℕ → ℕ
rounds schedule = let size = length schedule % 2 ^ 32 in if signed_lt size 0 then 0 else size

-- `bitrate_`
unfoldable pub bitrates : List ℕ → Result (List ℕ)
bitrates schedule = do
  last ← back schedule
  elim (signed_lt (last % 2 ^ 32) 100) [
    | true ↦ do
      check undefined (not (last == 0))
      let rate = packet_size * length schedule * 8 % 2 ^ 64 / last % 2 ^ 32
      ok (replicate (rounds schedule) rate)
    | false ↦ bitrate_loop schedule 0 (rounds schedule)
  ]

-- The log file: `none` if none is asked for, else whether it could be opened. What the constructor
-- writes at its top is left out of the log.
unfoldable pub open_log : Option Bool → Result (Option (List LinkLine))
open_log none = ok none
open_log (some good) = do check thrown good; ok (some [])

abbrev pub graph : Bool → Option (List (ℕ × ℕ))
graph wanted = if wanted then some [] else none

module _ (strtol : Bytes → ℕ → Option (ℕ × ℕ)) where
  -- The loop over the lines of the trace.
  unfoldable pub load_loop : List Bytes → List ℕ → Result (List ℕ)
  load_loop [] schedule = ok schedule
  load_loop (line ∷ lines) schedule = do
    check thrown (not (null line))
    n ← myatoi strtol line 10
    let ms = n % 2 ^ 64
    check thrown (null schedule || leb (last_or 0 schedule) ms)
    load_loop lines (schedule ++ ms ∷ [])

  -- `LinkQueue( … )`. `root` is what `assert_not_root` finds, and `file` the trace, if it can be read.
  unfoldable pub link_queue :
      {Q : Type 0}
      → Bool
      → Option Bytes
      → Option Bool
      → Bool
      → Bool
      → Bool
      → Q
      → Result (LinkQueue Q)
  link_queue root none logfile repeat graph_throughput graph_delay packet_queue = fail thrown
  link_queue root (some trace) logfile repeat graph_throughput graph_delay packet_queue = do
    check thrown (not root)
    schedule ← load_loop (getlines [] trace) []
    bitrate ← bitrates schedule
    assert (length bitrate == length schedule)
    check thrown (not (null schedule))
    last ← back schedule
    check thrown (not (last == 0))
    log ← open_log logfile
    ok (record {
      next_delivery = 0;
      schedule = schedule;
      base_timestamp = 0;
      packet_queue = packet_queue;
      packet_in_transit = queued [] 0;
      packet_in_transit_bytes_left = 0;
      output_queue = [];
      log = log;
      throughput_graph = graph graph_throughput;
      delay_graph = graph graph_delay;
      repeat = repeat;
      finished = false;
      dequeue_trace = [];
      empty_times = 0;
      dequeue_rate = max_rate;
    })
