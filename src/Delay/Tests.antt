-- ===== src/Delay/Tests.antt =====
-- Tests of the delay queue, and instances of its theorems.
use octopus_mahimahi.Common.{◌≡◌, false, [], ◌∷◌, arith}
use octopus_mahimahi.Packet.{Bytes}
use octopus_mahimahi.Delay.{DelayQueue, read_packet, write_packets, write_loop, pending_output}
use octopus_mahimahi.Delay.Runs.{Run, start, reads, writes, Holds, Run-Holds, write_packets-idle}

abbrev one : Bytes
one = 1 ∷ []

abbrev other : Bytes
other = 2 ∷ []

-- Packets at 10 and 13 with a delay of 5, of which the first has left at 16.
abbrev two : DelayQueue
two = read_packet 13 other (read_packet 10 one (record { delay_ms = 5; packet_queue = [] }))

run : Run 5 16 ((10, one) ∷ (13, other) ∷ []) ((16, one) ∷ []) (write_packets (λ k. 16) two).1
unfolding read_packet write_packets write_loop
run =
    writes
      (reads (reads (start 0) 10 one (omega arith) (omega arith)) 13 other (omega arith)
        (omega arith))
      16 (omega arith)

Run-Holds_example :
    Holds 5 ((10, one) ∷ (13, other) ∷ []) ((16, one) ∷ []) (write_packets (λ k. 16) two).1
Run-Holds_example = Run-Holds run

abbrev waiting : DelayQueue
waiting = record { delay_ms = 5; packet_queue = (15, one) ∷ (18, other) ∷ [] }

write_packets-idle_example : pending_output 16 (write_packets (λ k. 16) waiting).1 ≡ false
write_packets-idle_example = write_packets-idle 16 waiting (omega arith) (omega arith)
