-- ===== src/Queue/Pie/Tests.antt =====
-- Tests of PIE, and instances of its theorems.
use octopus_mahimahi.Common.{
  ℕ, ◌+◌, ◌*◌, ◌/◌, ◌≡◌, refl, inr, List, [], ◌∷◌, none, arith, Returns, length, ltb, ◌==◌,
  replicate,
}
use octopus_mahimahi.Packet.{QueuedPacket, queued}
use octopus_mahimahi.Queue.Fifo.{total}
use octopus_mahimahi.Queue.Limits.{IsValid}
use octopus_mahimahi.Queue.Pie.{Doubles, PieQueue, calculate_drop_prob, enqueue, dequeue}
use octopus_mahimahi.Queue.Pie.Periods.{
  Updates, calculate_drop_prob-Updates, Arrives, enqueue_pie, dequeue_pie,
}

-- Whole numbers in the place of doubles, and a generator that counts.
abbrev whole : Doubles ℕ
whole = record {
  of_int = λ n. n;
  literal = λ n d. n / d;
  plus = λ a b. a + b;
  times = λ a b. a * b;
  over = λ a b. a / b;
  less = ltb;
  same = λ a b. a == b;
}

abbrev draw : ℕ → ℕ × ℕ
draw g = (g, g + 1)

abbrev packet : ℕ → ℕ → QueuedPacket
packet n t = queued (replicate n 0) t

abbrev pair : List QueuedPacket
pair = packet 50 1 ∷ packet 60 2 ∷ []

abbrev pie : PieQueue ℕ ℕ
pie = record {
  base = record {
    queue_size_in_bytes = total pair;
    queue_size_in_packets = length pair;
    internal_queue = pair;
    packet_limit = 5;
    byte_limit = 0;
    log = none;
    bandwidth = 0;
  };
  qdelay_ref = 20;
  max_burst = 100;
  alpha = 1;
  beta = 1;
  t_update = 30;
  dq_threshold = 16384;
  drop_prob = 0;
  burst_allowance = 0;
  qdelay_old = 0;
  current_qdelay = 0;
  dq_count = 0;
  dq_tstamp = 0;
  avg_dq_rate = 0;
  prng = 0;
  last_update = 0;
}

pie-IsValid : IsValid pie.base
pie-IsValid = record {
  counted = record { bytes = refl; packets = refl; fit = omega arith; small = omega arith };
  inside = refl;
  sized = inr (omega arith);
}

calculate_drop_prob-Updates_example :
    Returns (Updates whole draw 100 pie) (calculate_drop_prob whole draw 100 pie)
calculate_drop_prob-Updates_example =
    calculate_drop_prob-Updates whole draw 100 pie pie-IsValid (omega arith)

enqueue_pie_example :
    Returns (Arrives whole draw pie (packet 70 9)) (enqueue whole draw 100 (packet 70 9) pie)
enqueue_pie_example =
    enqueue_pie whole draw 100 (packet 70 9) pie pie-IsValid (omega arith) (omega arith)

dequeue_pie_example :
    Returns
      (λ r. (r.0 ≡ packet 50 1) × IsValid r.1.base × (r.1.base.internal_queue ≡ packet 60 2 ∷ []))
      (dequeue whole draw (λ k. 100) pie)
dequeue_pie_example =
    dequeue_pie whole draw (λ k. 100) pie (packet 50 1) (packet 60 2 ∷ []) pie-IsValid refl
      (omega arith)
