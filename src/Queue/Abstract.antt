-- ===== src/Queue/Abstract.antt =====
-- src/packet/abstract_packet_queue.hh: what the link asks of a queue, and what it relies on.
use octopus_mahimahi.Common.{
  ℕ, ◌+◌, ◌≤◌, ◌<◌, ◌^◌, ◌≡◌, ◌≢◌, Bool, List, [], ◌∷◌, ◌++◌, Result, ok, Returns, arith, length,
  null, All,
}
use octopus_mahimahi.Packet.{QueuedPacket, size}
use octopus_mahimahi.Queue.Fifo.{total}
use octopus_mahimahi.Queue.Counts.{Fits}

-- The values of the calls of `timestamp()` that an operation makes, in their order.
abbrev pub Clock : Type 0
Clock = ℕ → ℕ

-- The pure virtual methods, and `set_bandwidth`.
pub record PacketQueue (Q : Type 0) : Type 0 where
  pub enqueue : Clock → QueuedPacket → Q → Result Q
  pub dequeue : Clock → Q → Result (QueuedPacket × Q)
  pub empty : Q → Bool
  pub size_bytes : Q → Result ℕ
  pub size_packets : Q → Result ℕ
  pub set_bandwidth : ℕ → Q → Q

-- Some of the packets, in the same order.
pub data Kept : List QueuedPacket → List QueuedPacket → Type 0 where
  done : Kept [] []
  keep : {p : QueuedPacket} {ps rs : List QueuedPacket} → Kept ps rs → Kept (p ∷ ps) (p ∷ rs)
  skip : {p : QueuedPacket} {ps rs : List QueuedPacket} → Kept ps rs → Kept ps (p ∷ rs)

pub Kept-self : (ps : List QueuedPacket) → Kept ps ps
Kept-self [] = done
Kept-self (p ∷ ps) = keep (Kept-self ps)

pub Kept-append_left : (ps rs : List QueuedPacket) → Kept ps (ps ++ rs)
Kept-append_left [] [] = done
Kept-append_left [] (r ∷ rs) = skip (Kept-append_left [] rs)
Kept-append_left (p ∷ ps) rs = keep (Kept-append_left ps rs)

pub Kept-total : {ps rs : List QueuedPacket} → Kept ps rs → total ps ≤ total rs
Kept-total done = omega arith
Kept-total (keep k) = omega (arith, Kept-total k)
Kept-total (skip k) = omega (arith, Kept-total k)

pub Kept-length : {ps rs : List QueuedPacket} → Kept ps rs → length ps ≤ length rs
Kept-length done = omega arith
Kept-length (keep k) = omega (arith, Kept-length k)
Kept-length (skip k) = omega (arith, Kept-length k)

pub Kept-All {ℓ} :
    (P : QueuedPacket → Type ℓ) {ps rs : List QueuedPacket} → Kept ps rs → All P rs → All P ps
Kept-All P done h = tt
Kept-All P (keep k) h = (h.0, Kept-All P k h.1)
Kept-All P (skip k) h = Kept-All P k h.1

-- What the link relies on: the sizes are those of the packets that the queue holds; nothing but
-- the new packet is added; the queue stays in order; a queue that holds a packet hands one out.
pub record IsQueue {Q : Type 0} (ops : PacketQueue Q) : Type 1 where
  pub IsValid : Q → Type 0
  pub packets : Q → List QueuedPacket
  pub fit : (q : Q) → IsValid q → All Fits (packets q)
  pub empty_lem : (q : Q) → ops.empty q ≡ null (packets q)
  pub size_bytes_lem : (q : Q) → IsValid q → ops.size_bytes q ≡ ok (total (packets q))
  pub size_packets_lem : (q : Q) → IsValid q → ops.size_packets q ≡ ok (length (packets q))
  pub enqueue_lem :
      (c : Clock) (p : QueuedPacket) (q : Q)
      → IsValid q
      → Fits p
      → total (packets q) + size p < 2 ^ 31
      → Returns (λ q'. IsValid q' × Kept (packets q') (packets q ++ p ∷ [])) (ops.enqueue c p q)
  pub dequeue_lem :
      (c : Clock) (q : Q)
      → IsValid q
      → packets q ≢ []
      → Returns (λ r. IsValid r.1 × Kept (r.0 ∷ packets r.1) (packets q)) (ops.dequeue c q)
  pub set_bandwidth_lem :
      (b : ℕ) (q : Q)
      → IsValid q
      → IsValid (ops.set_bandwidth b q) × (packets (ops.set_bandwidth b q) ≡ packets q)

pub Kept-trans : {ps rs ts : List QueuedPacket} → Kept ps rs → Kept rs ts → Kept ps ts
Kept-trans k done = k
Kept-trans (keep k) (keep m) = keep (Kept-trans k m)
Kept-trans (skip k) (keep m) = skip (Kept-trans k m)
Kept-trans k (skip m) = skip (Kept-trans k m)

pub Kept-append_right :
    (ds : List QueuedPacket) {ps rs : List QueuedPacket} → Kept ps rs → Kept (ds ++ ps) (ds ++ rs)
Kept-append_right [] k = k
Kept-append_right (d ∷ ds) k = keep (Kept-append_right ds k)
