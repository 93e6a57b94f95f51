-- ===== src/Link/State.antt =====
-- The state of the link, its log lines, and the helpers that need no queue.
use mathlib.Core.Option
use octopus_mahimahi.Common.{
  ℕ, ◌-◌, ◌%◌, ◌^◌, Bool, true, false, List, [], ◌∷◌, ◌++◌, Option, none, some, Result, ok, fail,
  thrown, undefined, ◌>>=◌, length, leb, ltb, ◌==◌, ◌&&◌, if◌then◌else◌, add32, sub32, add64, sub64,
  get_elem?, last_or,
}
use octopus_mahimahi.Packet.{Bytes, QueuedPacket}

-- The lines of the log, by their marks `+`, `d`, `#` and `-`.
pub data LinkLine : Type 0 where
  arrival : ℕ → ℕ → LinkLine
  drop : ℕ → ℕ → ℕ → LinkLine
  opportunity : ℕ → LinkLine
  departure : ℕ → ℕ → ℕ → ℕ → LinkLine

-- The log and the two graphs are what has been written to them, `none` for a null pointer. Of a
-- graph these are the calls of `add_value_now` and `set_max_value_now`, by curve and amount.
pub record LinkQueue (Q : Type 0) : Type 0 where
  pub next_delivery : ℕ
  pub schedule : List ℕ
  pub base_timestamp : ℕ
  pub packet_queue : Q
  pub packet_in_transit : QueuedPacket
  pub packet_in_transit_bytes_left : ℕ
  pub output_queue : List Bytes
  pub log : Option (List LinkLine)
  pub throughput_graph : Option (List (ℕ × ℕ))
  pub delay_graph : Option (List (ℕ × ℕ))
  pub repeat : Bool
  pub finished : Bool
  pub dequeue_trace : List (ℕ × ℕ)
  pub empty_times : ℕ
  pub dequeue_rate : ℕ

abbrev pub log_line : LinkLine → Option (List LinkLine) → Option (List LinkLine)
log_line x = Option.map (λ lines. lines ++ x ∷ [])

abbrev pub count : ℕ → ℕ → Option (List (ℕ × ℕ)) → Option (List (ℕ × ℕ))
count num amount = Option.map (λ calls. calls ++ (num, amount) ∷ [])

-- `-1` as a `uint64_t`, and 0xffffffff.
abbrev pub no_time : ℕ
no_time = 2 ^ 64 - 1

abbrev pub max_rate : ℕ
max_rate = 2 ^ 32 - 1

-- `schedule_.at( i )`, which throws out of range.
unfoldable pub time_at : List ℕ → ℕ → Result ℕ
time_at schedule i = elim (get_elem? schedule i) [ none ↦ fail thrown | some t ↦ ok t ]

-- `schedule_.back()`
unfoldable pub back : List ℕ → Result ℕ
back [] = fail undefined
back (t ∷ ts) = ok (last_or t ts)

-- `i % schedule_.size()`
unfoldable pub size_of : List ℕ → ℕ → Result ℕ
size_of [] i = fail undefined
size_of (t ∷ ts) i = ok (i % length (t ∷ ts))

unfoldable pub next_delivery_time : {Q : Type 0} → LinkQueue Q → Result ℕ
next_delivery_time q = elim q.finished [
  | true ↦ ok no_time
  | false ↦ do t ← time_at q.schedule q.next_delivery; ok (add64 t q.base_timestamp)
]

-- The bytes of the trace, added up as an `int`.
unfoldable pub total_byte : List (ℕ × ℕ) → ℕ
total_byte [] = 0
total_byte ((_, bytes) ∷ trace) = add32 bytes (total_byte trace)

-- The rate over the trace and the packet just sent, with at least five samples.
unfoldable pub measure_rate : (ℕ → ℕ → ℕ) → ℕ → ℕ → List (ℕ × ℕ) → ℕ
measure_rate rate now packet_size [] = max_rate
measure_rate rate now packet_size ((first, bytes) ∷ trace) =
    if leb 4 (length ((first, bytes) ∷ trace))
    then (if now == first
        then max_rate
        else rate (add32 (sub32 (total_byte ((first, bytes) ∷ trace)) bytes) packet_size)
            (sub64 now first))
    else max_rate

-- The oldest samples go, while there are five or more and the oldest is more than 50 ms old.
unfoldable pub trim_trace : ℕ → List (ℕ × ℕ) → List (ℕ × ℕ)
trim_trace now [] = []
trim_trace now ((first, bytes) ∷ trace) =
    if leb 5 (length ((first, bytes) ∷ trace)) && ltb first (sub64 now 50)
    then trim_trace now trace
    else (first, bytes) ∷ trace

-- What the first part of the inner loop finds.
pub data Loaded (Q : Type 0) : Type 0 where
  idle : LinkQueue Q → Loaded Q
  busy : LinkQueue Q → Loaded Q
