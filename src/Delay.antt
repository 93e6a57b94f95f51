-- ===== src/Delay.antt =====
-- src/frontend/delay_queue.hh and .cc: every packet is held for the same time.
pub mod Runs
mod Tests
use octopus_mahimahi.Common.{
  ℕ, zero, suc, ◌+◌, ◌-◌, ◌%◌, ◌^◌, ◌≡◌, Bool, List, [], ◌∷◌, ◌++◌, leb, ltb, ◌==◌, if◌then◌else◌,
  add64, sub64,
}
use octopus_mahimahi.Packet.{Bytes}
use octopus_mahimahi.Queue.Abstract.{Clock}

-- The pairs are of a release timestamp and contents.
pub record DelayQueue : Type 0 where
  pub delay_ms : ℕ
  pub packet_queue : List (ℕ × Bytes)

unfoldable pub read_packet : ℕ → Bytes → DelayQueue → DelayQueue
read_packet now contents q = record q {
  packet_queue = q.packet_queue ++ (add64 now q.delay_ms, contents) ∷ [];
}

-- The loop: what is written, and what stays. The clock is read before each packet.
unfoldable pub write_loop : ℕ → Clock → List (ℕ × Bytes) → List Bytes × List (ℕ × Bytes)
write_loop k clock [] = ([], [])
write_loop k clock ((release, contents) ∷ rest) =
    let (written, left) = write_loop (k + 1) clock rest in
    if leb release (clock k) then (contents ∷ written, left) else ([], (release, contents) ∷ rest)

unfoldable pub write_packets : Clock → DelayQueue → List Bytes × DelayQueue
write_packets clock q =
    let (written, left) = write_loop 0 clock q.packet_queue in
    (written, record q { packet_queue = left })

-- `numeric_limits<uint16_t>::max()`
abbrev pub max_wait : ℕ
max_wait = 2 ^ 16 - 1

unfoldable pub wait_time : ℕ → DelayQueue → ℕ
wait_time now q = elim q.packet_queue [
  | [] ↦ max_wait
  | p ∷ rest ↦ if leb p.0 now then 0 else sub64 p.0 now % 2 ^ 32
]

unfoldable pub pending_output : ℕ → DelayQueue → Bool
pending_output now q = leb (wait_time now q) 0
