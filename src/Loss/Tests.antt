-- ===== src/Loss/Tests.antt =====
-- Tests of the queue with losses and of the switching link.
use octopus_mahimahi.Common.{
  ℕ, ◌^◌, ◌≡◌, refl, Bool, true, false, List, [], ◌∷◌, ◌++◌, not, ltb, ok, fail, out_of_fuel,
}
use octopus_mahimahi.Packet.{Bytes}
use octopus_mahimahi.Loss.{LossQueue, wait_time, write_packets, drop_iid}
use octopus_mahimahi.Loss.Passed.{read_all, spared, write_packets-spared}
use octopus_mahimahi.Loss.Switching.{
  Processes, SwitchingLink, bound, switch, switch_loop, switching_wait,
}
use octopus_mahimahi.Loss.Switching.Waits.{Waits}

-- A generator that drops every other packet.
abbrev alternate : Bool → Bool × Bool
alternate g = (g, not g)

abbrev lossy : LossQueue Bool
lossy = record { packet_queue = (9 ∷ []) ∷ []; prng = false }

abbrev packets : List Bytes
packets = (1 ∷ []) ∷ (2 ∷ []) ∷ (3 ∷ []) ∷ []

write_packets-spared_example :
    ((write_packets (read_all (drop_iid alternate) packets lossy)).0
      ≡ lossy.packet_queue ++ spared (drop_iid alternate) packets lossy.prng)
    × ((write_packets (read_all (drop_iid alternate) packets lossy)).1.packet_queue ≡ [])
write_packets-spared_example = write_packets-spared (drop_iid alternate) packets lossy

-- A link that is on for 30 milliseconds and off for 20, in turn.
abbrev turns : Processes Bool ℕ
turns = record {
  on_process = λ g. (20, g);
  off_process = λ g. (30, g);
  is_long = λ x. ltb (2 ^ 30) x;
  to_uint64 = λ x. x;
}

abbrev link : SwitchingLink Bool
link = record {
  base = record { packet_queue = []; prng = false };
  link_is_on = false;
  next_switch_time = 100;
}

-- On at 100, off at 130, on at 150, off at 180.
two_turns :
    switching_wait turns 80 170 link
    ≡ ok (10, record link { link_is_on = true; next_switch_time = 180 })
unfolding switching_wait switch_loop switch bound wait_time
two_turns = refl

-- A link whose times are all below a millisecond.
abbrev restless : Processes Bool ℕ
restless = record turns { on_process = λ g. (0, g); off_process = λ g. (0, g) }

no_end : switching_wait restless 80 170 link ≡ fail out_of_fuel
unfolding switching_wait switch_loop switch bound wait_time
no_end = refl
