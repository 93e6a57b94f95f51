-- ===== src/Queue/ActiveNet.antt =====
-- src/packet/drop_activenet_queue.hh and .cc: a queue that drops whole frames of a low priority.
pub mod Stale
pub mod Arrivals
mod Tests
use octopus_mahimahi.Common.{
  ℕ, ◌+◌, ◌-◌, ◌^◌, ◌≡◌, Bool, true, false, not, ◌&&◌, List, [], ◌∷◌, ◌++◌, Option, none, some,
  Result, ok, ◌>>=◌, ◌>>◌, assert, leb, signed_lt, ◌==◌, if◌then◌else◌, sub64,
}
use octopus_mahimahi.Packet.{
  QueuedPacket, size, PktPos, first, last, mid, solo, PacketHeader, packet_header, is_udp, msg_no,
  pkt_pos, priority,
}
use octopus_mahimahi.Queue.Abstract.{Clock, PacketQueue}
use octopus_mahimahi.Queue.{
  DroppingQueue, sema_drop_frame, enqueue_udp, drop_tail_udp, dequeue_udp_wildcard, print,
  size_bytes, size_packets, empty, good_with_packet, assert_good, accept, forget, pop_front,
  set_bandwidth,
}

-- `msg_in_drop_` is an `int32_t`, -1 at first.
pub record ActiveNetQueue : Type 0 where
  pub base : DroppingQueue
  pub msg_in_drop : ℕ

abbrev pub starts_frame : PktPos → Bool
starts_frame first = true
starts_frame last = false
starts_frame mid = false
starts_frame solo = true

-- The test of `dropStaleFrames` on the packet at which a frame begins.
unfoldable pub stale : ℕ → ℕ → PacketHeader → Bool
stale to_drop dropper_msg header =
    leb to_drop (priority header)
    && signed_lt (msg_no header) dropper_msg
    && starts_frame (pkt_pos header)

-- One round of the loop: is the packet erased, and the queue after it.
unfoldable pub drop_or_keep :
    ℕ → ℕ → ℕ → QueuedPacket → ActiveNetQueue → Result (Bool × ActiveNetQueue)
drop_or_keep ts to_drop dropper_msg p q = do
  header ← packet_header p.contents
  elim (stale to_drop dropper_msg header) [
    | true ↦ do
      base' ←
          print sema_drop_frame (ts ∷ header.seq ∷ msg_no header ∷ priority header ∷ [])
            (forget p q.base)
      ok (true, record { base = base'; msg_in_drop = msg_no header })
    | false ↦ ok (
        if q.msg_in_drop == msg_no header
        then (true, record q { base = forget p q.base })
        else (false, q))
  ]

-- The loop over the packets from `it` on; `kept` are those before it, and `n` counts the erased.
unfoldable pub stale_loop :
    ℕ
    → ℕ
    → ℕ
    → List QueuedPacket
    → List QueuedPacket
    → ℕ
    → ActiveNetQueue
    → Result (ℕ × ActiveNetQueue)
stale_loop ts to_drop dropper_msg [] kept n q =
    ok (n, record q { base = record q.base { internal_queue = kept } })
stale_loop ts to_drop dropper_msg (p ∷ rest) kept n q = do
  (erased, q1) ← drop_or_keep ts to_drop dropper_msg p q
  stale_loop ts to_drop dropper_msg rest (if erased then kept else kept ++ p ∷ [])
      (if erased then n + 1 else n) q1

unfoldable pub drop_stale_frames : ℕ → ℕ → ℕ → ActiveNetQueue → Result (ℕ × ActiveNetQueue)
drop_stale_frames ts to_drop dropper_msg q =
    stale_loop ts to_drop dropper_msg q.base.internal_queue [] 0 q

-- The line of a UDP packet that is accepted or dropped, printed if there is a log.
unfoldable pub log_udp :
    ℕ → Bool → PacketHeader → QueuedPacket → DroppingQueue → Result DroppingQueue
log_udp ts accepted header p q = elim q.log [
  | none ↦ ok q
  | some _ ↦ do
    n ← size_packets q
    print (if accepted then enqueue_udp else drop_tail_udp)
        (ts ∷ size p ∷ n ∷ header.seq ∷ msg_no header ∷ []) q
]

-- `enqueue` of a UDP packet from the second reading of the clock on.
unfoldable pub accept_udp : ℕ → PacketHeader → QueuedPacket → ActiveNetQueue → Result ActiveNetQueue
accept_udp ts header p q = do
  fits ← good_with_packet p q.base
  base' ← log_udp ts fits header p (if fits then accept p q.base else q.base)
  ok (record q { base = base' })

-- The first reading of the clock is that of `dropStaleFrames`, if it is called.
unfoldable pub enqueue : Clock → QueuedPacket → ActiveNetQueue → Result ActiveNetQueue
enqueue clock p q = do
  header ← packet_header p.contents
  if not (is_udp header) then ok (record q { base = accept p q.base }) else do
    fits ← good_with_packet p q.base
    q1 ←
        if not fits && (priority header == 1)
        then (do (_, q') ← drop_stale_frames (clock 0) 2 (msg_no header) q; ok q')
        else ok q
    accept_udp (clock 1) header p q1

unfoldable pub dequeue : ℕ → ActiveNetQueue → Result (QueuedPacket × ActiveNetQueue)
dequeue ts q = do
  assert (not (empty q.base))
  (ret, rest) ← pop_front q.base
  header ← packet_header ret.contents
  logged ← elim rest.log [
    | none ↦ ok rest
    | some _ ↦
        if is_udp header
        then (do
          n ← size_packets rest
          print dequeue_udp_wildcard
              (ts
                ∷ size ret
                ∷ n
                ∷ sub64 ts ret.arrival_time
                ∷ header.seq
                ∷ msg_no header
                ∷ header.wildcard
                ∷ [])
              rest)
        else ok rest
  ]
  let base' = forget ret logged
  assert_good base'
  ok (ret, record q { base = base' })
