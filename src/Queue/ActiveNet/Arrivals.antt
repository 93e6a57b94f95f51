-- ===== src/Queue/ActiveNet/Arrivals.antt =====
-- Arrivals at the queue, and the assertion that they can make fail.
use octopus_mahimahi.Common.{
  ℕ, ◌+◌, ◌<◌, ◌^◌, ◌≡◌, refl, inl, inr, ap, sym, subst, ◌∙◌, not, ◌&&◌, Bool, true, false, List,
  [], ◌∷◌, ◌++◌, Option, none, some, arith, Result, ok, fail, assertion, Returns, Returns-map,
  Returns-bind, ◌>>=◌, length, Bool-cases, ◌==◌, if◌then◌else◌,
}
use octopus_mahimahi.Packet.{
  QueuedPacket, size, PacketHeader, packet_header, is_udp, msg_no, priority,
}
use octopus_mahimahi.Packet.Fields.{packet_header_total}
use octopus_mahimahi.Queue.Abstract.{
  Clock, Kept, Kept-self, Kept-append_left, Kept-trans, keep, skip, done, Kept-total, Kept-length,
  Kept-All,
}
use octopus_mahimahi.Queue.Fifo.{Limits, within, total}
use octopus_mahimahi.Queue.Counts.{
  Fits, limits, IsCounted, with_log, line, print-with_log, good_with_packet-IsCounted,
  accept-IsCounted, size_packets-IsCounted, good-IsCounted, forget-without_front,
  without_front-IsCounted,
}
use octopus_mahimahi.Queue.Limits.{IsValid, IsSized, IsValid-with_log, accept-IsValid}
use octopus_mahimahi.Queue.{
  DroppingQueue, LogLine, enqueue_udp, drop_tail_udp, accept, pop_front, empty, assert_good,
}
use octopus_mahimahi.Queue.ActiveNet.{
  ActiveNetQueue, drop_stale_frames, log_udp, accept_udp, enqueue, dequeue,
}
use octopus_mahimahi.Queue.ActiveNet.Stale.{Erases, drop_stale_frames-Erases}

within-Kept :
    (l : Limits) {ps rs : List QueuedPacket} → Kept ps rs → within l rs ≡ true → within l ps ≡ true
within-Kept l k w = ground (arith, Kept-total k, Kept-length k)

Kept-push_right :
    {ps rs : List QueuedPacket} (p : QueuedPacket) → Kept ps rs → Kept (ps ++ p ∷ []) (rs ++ p ∷ [])
Kept-push_right p done = keep done
Kept-push_right p (keep k) = keep (Kept-push_right p k)
Kept-push_right p (skip k) = skip (Kept-push_right p k)

-- The queue after stale frames have gone is valid as it was before.
Erases-IsValid :
    (to_drop dropper_msg : ℕ) (q : ActiveNetQueue) (r : ℕ × ActiveNetQueue)
    → IsValid q.base
    → Erases to_drop dropper_msg 0 q.base.internal_queue q r
    → IsValid r.1.base
Erases-IsValid to_drop dropper_msg q r v e = record {
  counted = record {
    bytes = e.counts.bytes;
    packets = e.counts.packets;
    fit = Kept-All Fits e.kept v.fit;
    small = omega (arith, Kept-total e.kept, v.small);
  };
  inside =
      subst (λ l. within l r.1.base.internal_queue ≡ true) (sym e.same_limits)
        (within-Kept (limits q.base) e.kept v.inside);
  sized = subst IsSized (sym e.same_limits) v.sized;
}

log_udp-with_log :
    (ts : ℕ) (accepted : Bool) (h : PacketHeader) (p : QueuedPacket) {q : DroppingQueue}
    (lines : List LogLine)
    → IsCounted q
    → q.log ≡ some lines
    → (l : Option (List LogLine)) × (log_udp ts accepted h p q ≡ ok (with_log q l))
unfolding log_udp
log_udp-with_log ts accepted h p {q} lines v e =
    let values = ts ∷ size p ∷ length q.internal_queue ∷ h.seq ∷ msg_no h ∷ [] in
    (
      line (if accepted then enqueue_udp else drop_tail_udp) values lines,
      ground (
        arith,
        e,
        size_packets-IsCounted v,
        print-with_log (if accepted then enqueue_udp else drop_tail_udp) values q e,
      ),
    )

-- What an arrival leaves: a valid queue of some of the packets and the new one, in order.
pub record Arrives (q : ActiveNetQueue) (p : QueuedPacket) (q' : ActiveNetQueue) : Type 0 where
  pub valid : IsValid q'.base
  pub kept : Kept q'.base.internal_queue (q.base.internal_queue ++ p ∷ [])

accept_udp-Arrives :
    (ts : ℕ) (h : PacketHeader) (p : QueuedPacket) (q : ActiveNetQueue) (lines : List LogLine)
    → IsValid q.base
    → q.base.log ≡ some lines
    → Fits p
    → Returns (Arrives q p) (accept_udp ts h p q)
unfolding accept_udp accept
accept_udp-Arrives ts h p q lines v e f =
    elim (Bool-cases (within (limits q.base) (q.base.internal_queue ++ p ∷ []))) [
      | inl w ↦
          let w' = accept-IsValid p v f w in
          let (l, r) = log_udp-with_log ts true h p lines w'.counted e in
          rw (good_with_packet-IsCounted p v.counted f, w, r)
            (record {
              valid = IsValid-with_log l w';
              kept = Kept-self (q.base.internal_queue ++ p ∷ []);
            })
      | inr w ↦
          let (l, r) = log_udp-with_log ts false h p lines v.counted e in
          rw (good_with_packet-IsCounted p v.counted f, w, r)
            (record {
              valid = IsValid-with_log l v;
              kept = Kept-append_left q.base.internal_queue (p ∷ []);
            })
    ]

-- The first part of the arrival of a UDP packet.
make_room : Clock → PacketHeader → Bool → ActiveNetQueue → Result ActiveNetQueue
make_room clock h fits q =
    if not fits && (priority h == 1)
    then (do (_, q') ← drop_stale_frames (clock 0) 2 (msg_no h) q; ok q')
    else ok q

record MakesRoom (q q' : ActiveNetQueue) : Type 0 where
  valid : IsValid q'.base
  kept : Kept q'.base.internal_queue q.base.internal_queue
  lines : List LogLine
  has_log : q'.base.log ≡ some lines

make_room-MakesRoom :
    (clock : Clock) (h : PacketHeader) (fits : Bool) (q : ActiveNetQueue) (lines : List LogLine)
    → IsValid q.base
    → q.base.log ≡ some lines
    → Returns (MakesRoom q) (make_room clock h fits q)
unfolding make_room
make_room-MakesRoom clock h fits q lines v e = elim (Bool-cases (not fits && (priority h == 1))) [
  | inr n ↦
      rw n
        (record { valid = v; kept = Kept-self q.base.internal_queue; lines = lines; has_log = e })
  | inl y ↦ rw y (
      Returns-bind (Erases 2 (msg_no h) 0 q.base.internal_queue q) (MakesRoom q)
        (drop_stale_frames (clock 0) 2 (msg_no h) q) _
        (drop_stale_frames-Erases (clock 0) 2 (msg_no h) q lines v.counted e)
        λ r d. record {
          valid = Erases-IsValid 2 (msg_no h) q r v d;
          kept = d.kept;
          lines = d.counts.lines;
          has_log = d.counts.has_log;
        })
]

-- With a log, a UDP packet that fits is received by a valid queue: no assertion fails, and what is
-- held is within the limits, counted exactly, and in order.
pub enqueue-Arrives :
    (clock : Clock) (p : QueuedPacket) (h : PacketHeader) (q : ActiveNetQueue)
    (lines : List LogLine)
    → IsValid q.base
    → Fits p
    → packet_header p.contents ≡ ok h
    → is_udp h ≡ true
    → q.base.log ≡ some lines
    → Returns (Arrives q p) (enqueue clock p q)
unfolding enqueue make_room
enqueue-Arrives clock p h q lines v f e u l =
    let fits = within (limits q.base) (q.base.internal_queue ++ p ∷ []) in
    rw (e, ◌>>=◌)
      (rw (u, good_with_packet-IsCounted p v.counted f)
        (Returns-bind (MakesRoom q) (Arrives q p) (make_room clock h fits q) _
          (make_room-MakesRoom clock h fits q lines v l)
          λ q1 m.
            Returns-map (Arrives q1 p) (Arrives q p) (accept_udp (clock 1) h p q1)
              (accept_udp-Arrives (clock 1) h p q1 m.lines m.valid m.has_log f)
              λ q2 a. record {
                valid = a.valid;
                kept = Kept-trans a.kept (Kept-push_right p m.kept);
              }))

enqueue_other :
    (clock : Clock) (p : QueuedPacket) (h : PacketHeader) (q : ActiveNetQueue)
    → packet_header p.contents ≡ ok h
    → is_udp h ≡ false
    → enqueue clock p q ≡ ok (record q { base = accept p q.base })
unfolding enqueue
enqueue_other clock p h q e u = rw (e, ◌>>=◌) (rw u refl)

dequeue_over :
    (ts : ℕ) (x : QueuedPacket) (rest : List QueuedPacket) (q : ActiveNetQueue)
    → IsCounted q.base
    → q.base.internal_queue ≡ x ∷ rest
    → q.base.log ≡ none
    → within (limits q.base) rest ≡ false
    → dequeue ts q ≡ fail assertion
unfolding dequeue pop_front empty assert_good
dequeue_over ts x rest q v e l w =
    let (h, r) = packet_header_total x.contents (rw e at v.fit).0.0 in
    ground (
      arith,
      r,
      forget-without_front x rest v e q.base.log,
      good-IsCounted (without_front-IsCounted x rest v e),
    )

-- A packet that is not UDP is accepted whatever the limits, and if the packets behind the oldest
-- one are then beyond them, the next departure, without a log, fails an assertion.
pub enqueue_other_aborts :
    (clock : Clock) (ts : ℕ) (p x : QueuedPacket) (rest : List QueuedPacket) (h : PacketHeader)
    (q : ActiveNetQueue)
    → IsCounted q.base
    → Fits p
    → total q.base.internal_queue + size p < 2 ^ 31
    → q.base.internal_queue ≡ x ∷ rest
    → packet_header p.contents ≡ ok h
    → is_udp h ≡ false
    → q.base.log ≡ none
    → within (limits q.base) (rest ++ p ∷ []) ≡ false
    → (enqueue clock p q >>= dequeue ts) ≡ fail assertion
unfolding accept
enqueue_other_aborts clock ts p x rest h q v f s e eh u l w =
    ap (λ r. r >>= dequeue ts) (enqueue_other clock p h q eh u)
    ∙ dequeue_over ts x (rest ++ p ∷ []) (record q { base = accept p q.base })
        (accept-IsCounted p v f s) (ap (λ ps. ps ++ p ∷ []) e) l w
