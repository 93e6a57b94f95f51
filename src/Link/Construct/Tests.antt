-- ===== src/Link/Construct/Tests.antt =====
-- A link made from a short trace, and an instance of the theorem.
use octopus_mahimahi.Common.{
  ℕ, ◌+◌, ◌-◌, ◌*◌, ◌/◌, ◌≡◌, refl, true, false, List, [], ◌∷◌, ◌++◌, Option, none, some, ok, fail,
  undefined, Returns, arith, codes, length,
}
use octopus_mahimahi.Packet.{Bytes}
use octopus_mahimahi.Chunked.{myatoi}
use octopus_mahimahi.Queue.Infinite.{InfiniteQueue}
use octopus_mahimahi.Queue.Infinite.Refine.{laws}
use octopus_mahimahi.Link.State.{back}
use octopus_mahimahi.Link.Construct.{
  getlines, element, left_loop, bitrate_at, bitrate_loop, bitrates, link_queue,
}
use octopus_mahimahi.Link.Construct.Valid.{IsTrace, Reads, Starts, link_queue-Starts}

abbrev decimal : ℕ → Bytes → ℕ
decimal n [] = n
decimal n (c ∷ s) = decimal (n * 10 + (c - 48)) s

-- Decimal digits, all of them.
abbrev strtol : Bytes → ℕ → Option (ℕ × ℕ)
strtol s base = some (decimal 0 s, length s)

abbrev rate : ℕ → ℕ → ℕ
rate bytes ms = bytes * 8 / ms

abbrev trace : Bytes
trace = codes "40" ++ 10 ∷ codes "90" ++ 10 ∷ codes "90" ++ 10 ∷ codes "150"

abbrev times : List ℕ
times = 40 ∷ 90 ∷ 90 ∷ 150 ∷ []

abbrev no_packets : InfiniteQueue
no_packets = record { queue_size_in_bytes = 0; queue_size_in_packets = 0; internal_queue = [] }

rates_of_trace : bitrates times ≡ ok (320 ∷ 240 ∷ 481 ∷ 200 ∷ [])
unfolding bitrates bitrate_loop bitrate_at left_loop element back
rates_of_trace = refl

-- No time at all, and only the time 0: the rates are computed before the tests.
rates_of_empty : bitrates [] ≡ fail undefined
unfolding bitrates back
rates_of_empty = refl

rates_of_zero : bitrates (0 ∷ []) ≡ fail undefined
unfolding bitrates back
rates_of_zero = refl

times-IsTrace : IsTrace times
times-IsTrace = record {
  rising = omega arith;
  lasting = omega arith;
  small = omega arith;
  some_time = omega arith;
  short = omega arith;
}

trace-Reads : Reads strtol (getlines [] trace) times
unfolding getlines myatoi
trace-Reads = (refl, (refl, (refl, (refl, (refl, (refl, (refl, (refl, tt))))))))

link_queue-Starts_example :
    Returns
      (Starts strtol laws rate times)
      (link_queue strtol false (some trace) none true false false no_packets)
unfolding laws
link_queue-Starts_example =
    link_queue-Starts strtol laws rate trace times none true false false no_packets trace-Reads
      times-IsTrace (λ e. ground (arith, e))
      (record { bytes = refl; packets = refl; fit = tt; small = omega arith }) refl
