-- ===== src/Queue/Fifo.antt =====
-- What a queue with limits promises: packets in order of arrival, within a number of packets and
-- a number of bytes. A limit of zero is no limit.
use octopus_mahimahi.Common.{
  ℕ, ◌+◌, ◌≡◌, Bool, true, ◌&&◌, List, [], ◌∷◌, ◌++◌, arith, length, leb, ◌==◌, if◌then◌else◌,
}
use octopus_mahimahi.Packet.{QueuedPacket, size}

abbrev pub total : List QueuedPacket → ℕ
total [] = 0
total (p ∷ ps) = size p + total ps

pub record Limits : Type 0 where
  pub packets : ℕ
  pub bytes : ℕ

-- Are these numbers of bytes and packets within the limits?
abbrev pub allows : Limits → ℕ → ℕ → Bool
allows l bytes packets =
    (if l.bytes == 0 then true else leb bytes l.bytes)
    && (if l.packets == 0 then true else leb packets l.packets)

abbrev pub within : Limits → List QueuedPacket → Bool
within l ps = allows l (total ps) (length ps)

-- A packet that would not fit is turned away.
unfoldable pub push : Limits → List QueuedPacket → QueuedPacket → List QueuedPacket
push l ps p = if within l (ps ++ p ∷ []) then ps ++ p ∷ [] else ps

pub total-append : (ps rs : List QueuedPacket) → total (ps ++ rs) ≡ total ps + total rs
total-append [] rs = omega arith
total-append (p ∷ ps) rs = omega (arith, total-append ps rs)
