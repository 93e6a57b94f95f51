-- ===== src/Queue/Limits.antt =====
-- The invariant of a queue with limits, and what its shared operations do under it.
use octopus_mahimahi.Common.{
  ℕ, ◌+◌, ◌*◌, ◌^◌, ◌≤◌, ◌<◌, ◌≡◌, ◌≢◌, ◌⊎◌, inl, inr, true, List, [], ◌∷◌, ◌++◌, Option, ok, arith,
  length, All,
}
use octopus_mahimahi.Packet.{QueuedPacket}
use octopus_mahimahi.Queue.Fifo.{Limits, within, total}
use octopus_mahimahi.Queue.Counts.{
  Fits, packet_size, limits, IsCounted, good-IsCounted, accept-IsCounted, with_log,
  IsCounted-with_log, without_front, without_front-IsCounted, dequeue-front,
}
use octopus_mahimahi.Queue.{DroppingQueue, LogLine, assert_good, accept, dequeue}

-- One of the limits keeps the sizes, with one more packet, in the range of an `int`.
abbrev pub IsSized : Limits → Type 0
IsSized l =
    ((l.bytes ≢ 0) × (l.bytes + packet_size < 2 ^ 31))
    ⊎ ((l.packets ≢ 0) × (l.packets * packet_size + packet_size < 2 ^ 31))

pub record IsValid (q : DroppingQueue) : Type 0 where
  pub counted : IsCounted q
  pub open counted use *
  pub inside : within (limits q) q.internal_queue ≡ true
  pub sized : IsSized (limits q)

total-le : (ps : List QueuedPacket) → All Fits ps → total ps ≤ length ps * packet_size
total-le [] h = omega arith
total-le (p ∷ ps) h = omega (arith, total-le ps h.1)

-- Sizes within the limits leave room for one more packet.
pub sized_room :
    (l : Limits) (ps : List QueuedPacket)
    → IsSized l
    → All Fits ps
    → within l ps ≡ true
    → total ps + packet_size < 2 ^ 31
sized_room l ps (inl s) f w = ground arith
sized_room l ps (inr s) f w = ground (arith, total-le ps f)

pub room : {q : DroppingQueue} → IsValid q → total q.internal_queue + packet_size < 2 ^ 31
room {q} v = sized_room (limits q) q.internal_queue v.sized v.fit v.inside

pub assert_good-IsValid : {q : DroppingQueue} → IsValid q → assert_good q ≡ ok tt
unfolding assert_good
assert_good-IsValid v = rw (good-IsCounted v.counted, v.inside)

pub IsValid-with_log :
    {q : DroppingQueue} (l : Option (List LogLine)) → IsValid q → IsValid (with_log q l)
IsValid-with_log l v = record {
  counted = IsCounted-with_log l v.counted;
  inside = v.inside;
  sized = v.sized;
}

pub accept-IsValid :
    {q : DroppingQueue} (p : QueuedPacket)
    → IsValid q
    → Fits p
    → within (limits q) (q.internal_queue ++ p ∷ []) ≡ true
    → IsValid (accept p q)
unfolding accept
accept-IsValid {q} p v f w = record {
  counted = accept-IsCounted p v.counted f (omega (arith, room v));
  inside = w;
  sized = v.sized;
}

module _ {q : DroppingQueue} (p : QueuedPacket) (rest : List QueuedPacket) (v : IsValid q)
    (e : q.internal_queue ≡ p ∷ rest) where
  within-rest : within (limits q) rest ≡ true
  within-rest = let w = rw e at v.inside in ground arith

  pub without_front-IsValid : IsValid (without_front q rest)
  without_front-IsValid = record {
    counted = without_front-IsCounted p rest v.counted e;
    inside = within-rest;
    sized = v.sized;
  }

  -- A valid queue that holds `p` before `rest` hands out `p` and is left with `rest`, with
  -- exact counters; nothing else changes but the log. The assertions of `dequeue` hold.
  pub dequeue-IsValid :
      (ts : ℕ)
      → (l : Option (List LogLine)) × (dequeue ts q ≡ ok (p, with_log (without_front q rest) l))
  dequeue-IsValid ts = let (l, r) = dequeue-front p rest v.counted e ts in (l, rw within-rest at r)
