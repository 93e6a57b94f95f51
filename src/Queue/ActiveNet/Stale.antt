-- ===== src/Queue/ActiveNet/Stale.antt =====
-- The packets that `dropStaleFrames` erases.
use octopus_mahimahi.Common.{
  ℕ, ◌+◌, ◌≤◌, ◌<◌, ◌^◌, ◌≡◌, refl, inl, inr, ap, sym, subst, ◌∙◌, Bool, true, false, List, [], ◌∷◌,
  ◌++◌, some, arith, ok, Returns, Returns-map, Returns-bind, ◌>>=◌, length, length-append,
  Bool-cases, All, All-append, append_assoc, append-nil, ◌==◌, if◌then◌else◌,
}
use octopus_mahimahi.Packet.{QueuedPacket, size, PacketHeader, packet_header, msg_no, priority}
use octopus_mahimahi.Packet.Fields.{packet_header_total}
use octopus_mahimahi.Queue.Abstract.{Kept, Kept-self, keep, skip, Kept-trans}
use octopus_mahimahi.Queue.Fifo.{total, total-append}
use octopus_mahimahi.Queue.Counts.{
  Fits, limits, with_log, print-with_log, length-le-total, IsCounted,
}
use octopus_mahimahi.Queue.{DroppingQueue, LogLine, sema_drop_frame, forget}
use octopus_mahimahi.Queue.ActiveNet.{
  ActiveNetQueue, stale, drop_or_keep, stale_loop, drop_stale_frames,
}

-- The queue has counters for `ps`, with a log to print to.
pub record Counts (ps : List QueuedPacket) (q : DroppingQueue) : Type 0 where
  pub bytes : q.queue_size_in_bytes ≡ total ps
  pub packets : q.queue_size_in_packets ≡ length ps
  pub lines : List LogLine
  pub has_log : q.log ≡ some lines

-- A packet with a header at which no stale frame begins.
abbrev pub IsKept : ℕ → ℕ → QueuedPacket → Type 0
IsKept to_drop dropper_msg p =
    (h : PacketHeader) × (packet_header p.contents ≡ ok h) × (stale to_drop dropper_msg h ≡ false)

forget-Counts :
    (kept rest : List QueuedPacket) (p : QueuedPacket) (q : DroppingQueue)
    → Counts (kept ++ p ∷ rest) q
    → total (kept ++ p ∷ rest) < 2 ^ 31
    → 43 ≤ size p
    → length (kept ++ p ∷ rest) < 2 ^ 31
    → Counts (kept ++ rest) (forget p q)
unfolding forget
forget-Counts kept rest p q c s f k =
    let t = total-append kept (p ∷ rest) in
    let t' = total-append kept rest in
    let n = length-append kept (p ∷ rest) in
    let n' = length-append kept rest in
    record {
      bytes = omega (arith, c.bytes, t, t', s);
      packets = omega (arith, c.packets, n, n', k);
      lines = c.lines;
      has_log = c.has_log;
    }

-- A log line more.
Counts-line :
    (ps : List QueuedPacket) (q : DroppingQueue) (lines : List LogLine)
    → Counts ps q
    → Counts ps (with_log q (some lines))
Counts-line ps q lines c = record {
  bytes = c.bytes;
  packets = c.packets;
  lines = lines;
  has_log = refl;
}

limits-forget : (p : QueuedPacket) (q : DroppingQueue) → limits (forget p q) ≡ limits q
unfolding forget
limits-forget p q = refl

-- One round at `p`, between `kept` and `rest`.
abbrev Rounds :
    ℕ
    → ℕ
    → List QueuedPacket
    → List QueuedPacket
    → QueuedPacket
    → ActiveNetQueue
    → Bool × ActiveNetQueue
    → Type 0
Rounds to_drop dropper_msg kept rest p q (true, q') =
    Counts (kept ++ rest) q'.base × (limits q'.base ≡ limits q.base)
Rounds to_drop dropper_msg kept rest p q (false, q') =
    Counts (kept ++ p ∷ rest) q'.base
    × (limits q'.base ≡ limits q.base)
    × IsKept to_drop dropper_msg p

drop_or_keep-Rounds :
    (ts to_drop dropper_msg : ℕ) (kept rest : List QueuedPacket) (p : QueuedPacket)
    (q : ActiveNetQueue)
    → Counts (kept ++ p ∷ rest) q.base
    → total (kept ++ p ∷ rest) < 2 ^ 31
    → length (kept ++ p ∷ rest) < 2 ^ 31
    → 43 ≤ size p
    → Returns (Rounds to_drop dropper_msg kept rest p q) (drop_or_keep ts to_drop dropper_msg p q)
unfolding drop_or_keep
drop_or_keep-Rounds ts to_drop dropper_msg kept rest p q c s k f =
    let (h, e) = packet_header_total p.contents f in
    let values = ts ∷ h.seq ∷ msg_no h ∷ priority h ∷ [] in
    let less = forget-Counts kept rest p q.base c s f k in
    elim (Bool-cases (stale to_drop dropper_msg h)) [
      | inl t ↦
          rw (e, ◌>>=◌)
            (rw (t, print-with_log sema_drop_frame values (forget p q.base) less.has_log)
              (Counts-line (kept ++ rest) (forget p q.base) _ less, limits-forget p q.base))
      | inr t ↦ elim (Bool-cases (q.msg_in_drop == msg_no h)) [
        | inl m ↦ rw (e, ◌>>=◌) (rw (t, m) (less, limits-forget p q.base))
        | inr m ↦ rw (e, ◌>>=◌) (rw (t, m) (c, refl, (h, e, t)))
      ]
    ]

-- What a pass over the packets leaves of `ps`: the counters of what is left, in order; the packets
-- erased are counted; no stale frame begins in what is left.
pub record Erases (to_drop dropper_msg n : ℕ) (ps : List QueuedPacket) (q : ActiveNetQueue)
    (r : ℕ × ActiveNetQueue) : Type 0 where
  pub counts : Counts r.1.base.internal_queue r.1.base
  pub kept : Kept r.1.base.internal_queue ps
  pub clean : All (IsKept to_drop dropper_msg) r.1.base.internal_queue
  pub erased : r.0 + length r.1.base.internal_queue ≡ n + length ps
  pub same_limits : limits r.1.base ≡ limits q.base

Kept-without :
    (kept rest : List QueuedPacket) (p : QueuedPacket) → Kept (kept ++ rest) (kept ++ p ∷ rest)
Kept-without [] rest p = skip (Kept-self rest)
Kept-without (k ∷ kept) rest p = keep (Kept-without kept rest p)

snoc :
    (kept rest : List QueuedPacket) (p : QueuedPacket) → (kept ++ p ∷ []) ++ rest ≡ kept ++ p ∷ rest
snoc kept rest p = append_assoc kept (p ∷ []) rest

-- What the rest of the loop does, from any state.
abbrev Loops : ℕ → ℕ → ℕ → List QueuedPacket → Type 0
Loops ts to_drop dropper_msg rest =
    (kept : List QueuedPacket) (n : ℕ) (q : ActiveNetQueue)
    → Counts (kept ++ rest) q.base
    → total (kept ++ rest) < 2 ^ 31
    → length (kept ++ rest) < 2 ^ 31
    → All Fits rest
    → All (IsKept to_drop dropper_msg) kept
    → Returns (Erases to_drop dropper_msg n (kept ++ rest) q)
        (stale_loop ts to_drop dropper_msg rest kept n q)

Rounds-Erases :
    (ts to_drop dropper_msg : ℕ) (rest kept : List QueuedPacket) (p : QueuedPacket) (n : ℕ)
    (q : ActiveNetQueue)
    → Loops ts to_drop dropper_msg rest
    → total (kept ++ p ∷ rest) < 2 ^ 31
    → length (kept ++ p ∷ rest) < 2 ^ 31
    → All Fits rest
    → All (IsKept to_drop dropper_msg) kept
    → (r : Bool × ActiveNetQueue) → Rounds to_drop dropper_msg kept rest p q r
    → Returns (Erases to_drop dropper_msg n (kept ++ p ∷ rest) q) (
        stale_loop ts to_drop dropper_msg rest
          (if r.0 then kept else kept ++ p ∷ [])
          (if r.0 then n + 1 else n)
          r.1)
Rounds-Erases ts to_drop dropper_msg rest kept p n q loop s k f cl (true, q1) h =
    let t = total-append kept (p ∷ rest) in
    let t' = total-append kept rest in
    let m = length-append kept (p ∷ rest) in
    let m' = length-append kept rest in
    Returns-map (Erases to_drop dropper_msg (n + 1) (kept ++ rest) q1) _
      (stale_loop ts to_drop dropper_msg rest kept (n + 1) q1)
      (loop kept (n + 1) q1 h.0 (omega (arith, t, t', s)) (omega (arith, m, m', k)) f cl)
      λ r e. record {
        counts = e.counts;
        kept = Kept-trans e.kept (Kept-without kept rest p);
        clean = e.clean;
        erased = omega (arith, e.erased, m, m');
        same_limits = e.same_limits ∙ h.1;
      }
Rounds-Erases ts to_drop dropper_msg rest kept p n q loop s k f cl (false, q1) h =
    let sn = snoc kept rest p in
    Returns-map (Erases to_drop dropper_msg n ((kept ++ p ∷ []) ++ rest) q1) _
      (stale_loop ts to_drop dropper_msg rest (kept ++ p ∷ []) n q1)
      (loop (kept ++ p ∷ []) n q1 (subst (λ l. Counts l q1.base) (sym sn) h.0)
        (omega (arith, ap total sn, s)) (omega (arith, ap length sn, k)) f
        (All-append (IsKept to_drop dropper_msg) kept (p ∷ []) cl (h.2, tt)))
      λ r e. record {
        counts = e.counts;
        kept = subst (Kept r.1.base.internal_queue) sn e.kept;
        clean = e.clean;
        erased = e.erased ∙ ap (λ l. n + length l) sn;
        same_limits = e.same_limits ∙ h.1;
      }

stale_loop-Erases :
    (ts to_drop dropper_msg : ℕ) (rest : List QueuedPacket) → Loops ts to_drop dropper_msg rest
unfolding stale_loop
stale_loop-Erases ts to_drop dropper_msg [] kept n q c s k f cl =
    let nil = append-nil kept in
    record {
      counts = record {
        bytes = c.bytes ∙ ap total nil;
        packets = c.packets ∙ ap length nil;
        lines = c.lines;
        has_log = c.has_log;
      };
      kept = subst (Kept kept) (sym nil) (Kept-self kept);
      clean = cl;
      erased = ap (λ l. n + length l) (sym nil);
      same_limits = refl;
    }
stale_loop-Erases ts to_drop dropper_msg (p ∷ rest) kept n q c s k f cl =
    Returns-bind (Rounds to_drop dropper_msg kept rest p q)
      (Erases to_drop dropper_msg n (kept ++ p ∷ rest) q) (drop_or_keep ts to_drop dropper_msg p q)
      _ (drop_or_keep-Rounds ts to_drop dropper_msg kept rest p q c s k f.0.0)
      (Rounds-Erases ts to_drop dropper_msg rest kept p n q
        (stale_loop-Erases ts to_drop dropper_msg rest) s k f.1 cl)

-- With a log, at a queue with exact counters in range, `dropStaleFrames` returns: what is left is in
-- order and counted exactly, it returns how many packets it has erased, and no frame of a priority
-- from `to_drop` on and older than the message begins in what is left.
pub drop_stale_frames-Erases :
    (ts to_drop dropper_msg : ℕ) (q : ActiveNetQueue) (lines : List LogLine)
    → IsCounted q.base
    → q.base.log ≡ some lines
    → Returns
        (Erases to_drop dropper_msg 0 q.base.internal_queue q)
        (drop_stale_frames ts to_drop dropper_msg q)
unfolding drop_stale_frames
drop_stale_frames-Erases ts to_drop dropper_msg q lines v e =
    stale_loop-Erases ts to_drop dropper_msg q.base.internal_queue [] 0 q
      (record { bytes = v.bytes; packets = v.packets; lines = lines; has_log = e }) v.small
      (omega (arith, length-le-total q.base.internal_queue v.fit, v.small)) v.fit tt
