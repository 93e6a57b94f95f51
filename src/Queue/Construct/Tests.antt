-- ===== src/Queue/Construct/Tests.antt =====
-- Queues made from their arguments, and an instance of the theorem.
use octopus_mahimahi.Common.{
  ℕ, ◌+◌, ◌-◌, ◌*◌, ◌≡◌, refl, true, [], ◌∷◌, Option, none, some, ok, fail, thrown, codes, length,
}
use octopus_mahimahi.Packet.{Bytes}
use octopus_mahimahi.Chunked.{myatoi}
use octopus_mahimahi.Queue.Construct.{get_arg, decimal, to_string, number_arg, dropping_queue}

abbrev digits : ℕ → Bytes → ℕ
digits n [] = n
digits n (c ∷ s) = digits (n * 10 + (c - 48)) s

-- Decimal digits, all of them.
abbrev strtol : Bytes → ℕ → Option (ℕ × ℕ)
strtol s base = some (digits 0 s, length s)

abbrev args : Bytes
args = codes "packets=20,bytes=30000"

get_arg_packets : get_arg args (codes "packets") ≡ ok (codes "20")
unfolding get_arg
get_arg_packets = refl

get_arg_empty : get_arg (codes "packets=,") (codes "packets") ≡ fail thrown
unfolding get_arg
get_arg_empty = refl

dropping_queue-limits :
    dropping_queue strtol (λ f. true) 7 args
    ≡ ok (record {
      queue_size_in_bytes = 0;
      queue_size_in_packets = 0;
      internal_queue = [];
      packet_limit = 20;
      byte_limit = 30000;
      log = none;
      bandwidth = 7;
    })
unfolding dropping_queue number_arg get_arg myatoi
dropping_queue-limits = refl

to_string-limits :
    to_string (codes "droptail") (record {
      queue_size_in_bytes = 0;
      queue_size_in_packets = 0;
      internal_queue = [];
      packet_limit = 20;
      byte_limit = 30000;
      log = none;
      bandwidth = 7;
    })
    ≡ codes "droptail [bytes=30000, packets=20]"
unfolding to_string decimal
to_string-limits = refl
