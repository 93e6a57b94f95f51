-- ===== src/Link/Held.antt =====
-- The packets that a link holds, what it has sent, and how one state of it follows from another.
use octopus_mahimahi.Common.{
  ℕ, ◌+◌, ◌-◌, ◌≤◌, ◌<◌, ◌≡◌, sym, ◌∙◌, Bool, List, [], ◌∷◌, ◌++◌, map, append_assoc, append-nil,
  arith, length, All, ◌==◌, if◌then◌else◌,
}
use mathlib.Core.List.{map-append}
use octopus_mahimahi.Packet.{Bytes, QueuedPacket, size}
use octopus_mahimahi.Queue.Abstract.{PacketQueue, IsQueue, Kept, Kept-trans, Kept-append_right}
use octopus_mahimahi.Queue.Counts.{packet_size}
use octopus_mahimahi.Link.State.{LinkQueue}

abbrev pub bytes_out : List Bytes → ℕ
bytes_out [] = 0
bytes_out (b ∷ bs) = length b + bytes_out bs

pub bytes_out-append : (cs bs : List Bytes) → bytes_out (cs ++ bs) ≡ bytes_out cs + bytes_out bs
bytes_out-append [] bs = omega arith
bytes_out-append (c ∷ cs) bs = omega (arith, bytes_out-append cs bs)

-- The bytes that have been sent, those of the packet in transit included.
abbrev pub sent : {Q : Type 0} → LinkQueue Q → ℕ
sent q =
    bytes_out q.output_queue
    + (if q.packet_in_transit_bytes_left == 0
        then 0
        else size q.packet_in_transit - q.packet_in_transit_bytes_left)

-- Where the link is in its trace.
pub record Place : Type 0 where
  pub next_delivery : ℕ
  pub schedule : List ℕ
  pub base_timestamp : ℕ
  pub repeat : Bool
  pub finished : Bool

abbrev pub place : {Q : Type 0} → LinkQueue Q → Place
place q = record {
  next_delivery = q.next_delivery;
  schedule = q.schedule;
  base_timestamp = q.base_timestamp;
  repeat = q.repeat;
  finished = q.finished;
}

module _ {Q : Type 0} {ops : PacketQueue Q} (laws : IsQueue ops) where
  -- The packets that are in the link: the one in transit, and those in the queue.
  abbrev pub held : LinkQueue Q → List QueuedPacket
  held q =
      if q.packet_in_transit_bytes_left == 0
      then laws.packets q.packet_queue
      else q.packet_in_transit ∷ laws.packets q.packet_queue

  -- From `q` to `q'` some of the packets that were held have left whole, in order, and nothing else
  -- has; what is held still is in order behind them.
  pub record Moves (q q' : LinkQueue Q) : Type 0 where
    pub departed : List QueuedPacket
    pub output : q'.output_queue ≡ q.output_queue ++ map (λ p. p.contents) departed
    pub kept : Kept (departed ++ held q') (held q)

  pub Moves-trans : {q r s : LinkQueue Q} → Moves q r → Moves r s → Moves q s
  Moves-trans {q} {r} {s} a b = record {
    departed = a.departed ++ b.departed;
    output = simp (b.output, a.output, map-append, append_assoc);
    kept = rw append_assoc (Kept-trans (Kept-append_right a.departed b.kept) a.kept);
  }

  -- Nothing has left, and some of the packets are held still.
  pub Moves-still :
      {q q' : LinkQueue Q} → q'.output_queue ≡ q.output_queue → Kept (held q') (held q) → Moves q q'
  Moves-still e k = record { departed = []; output = e ∙ sym (append-nil _); kept = k }

  -- The link can send at time `t`.
  pub record CanSend (t : ℕ) (q : LinkQueue Q) : Type 0 where
    pub valid : laws.IsValid q.packet_queue
    pub small : q.packet_in_transit_bytes_left ≤ packet_size
    pub whole : q.packet_in_transit_bytes_left ≤ size q.packet_in_transit
    pub timely : All (λ p. p.arrival_time ≤ t) (held q)

  -- The packet at hand in a link that has one in transit.
  pub held-busy :
      (q : LinkQueue Q)
      → 0 < q.packet_in_transit_bytes_left
      → held q ≡ q.packet_in_transit ∷ laws.packets q.packet_queue
  held-busy q h = ground arith

  pub held-idle :
      (q : LinkQueue Q) → q.packet_in_transit_bytes_left ≡ 0 → held q ≡ laws.packets q.packet_queue
  held-idle q h = ground arith
