-- ===== src/Queue/Bitrate/Others.antt =====
-- Packets that are not of Octopus leave as from a FIFO.
use octopus_mahimahi.Common.{
  ℕ, suc, ◌+◌, ◌≡◌, refl, false, List, ◌∷◌, arith, ok, ◌>>=◌, length, Bool-cases, inl, inr,
}
use octopus_mahimahi.Packet.{QueuedPacket, PacketHeader, packet_header, is_octopus}
use octopus_mahimahi.Queue.Abstract.{Clock}
use octopus_mahimahi.Queue.Counts.{IsCounted, forget-without_front, without_front}
use octopus_mahimahi.Queue.{empty, pop_front}
use octopus_mahimahi.Queue.Bitrate.{BitrateQueue}
use octopus_mahimahi.Queue.Bitrate.Departures.{dequeuefront, skip_loop, dequeue}

module _ (clock : Clock) (p : QueuedPacket) (rest : List QueuedPacket) (h : PacketHeader)
    (q : BitrateQueue) (v : IsCounted q.base) (e : q.base.internal_queue ≡ p ∷ rest)
    (eh : packet_header p.contents ≡ ok h) (o : is_octopus h ≡ false) where
  left : BitrateQueue
  left = record q { base = without_front q.base rest }

  dequeuefront_other : (ts : ℕ) → dequeuefront ts q ≡ ok (p, left)
  unfolding dequeuefront pop_front left
  dequeuefront_other ts = ground (arith, e, eh, o, forget-without_front p rest v e q.base.log)

  skip_loop_other : (fuel k : ℕ) → skip_loop (fuel + 1) k clock p left ≡ ok (p, left)
  unfolding skip_loop
  skip_loop_other fuel k =
      let more : fuel + 1 ≡ suc fuel = omega arith in
      rw more (elim (Bool-cases (empty left.base)) [
        | inl y ↦ rw (y, skip_loop) refl
        | inr n ↦ rw (n, skip_loop) (rw (eh, ◌>>=◌) (rw o refl))
      ])

  held : empty q.base ≡ false
  unfolding empty
  held = rw e refl

  -- A packet that is not of Octopus, at the front of a queue with exact counters, is handed
  -- out, and nothing else changes but the queue and its sizes.
  pub dequeue_other : dequeue clock q ≡ ok (p, record q { base = without_front q.base rest })
  unfolding dequeue left
  dequeue_other =
      rw (held, dequeuefront_other (clock 1), skip_loop_other (length rest) 2)
        (rw (eh, ◌>>=◌) (rw o refl))
