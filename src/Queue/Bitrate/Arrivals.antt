-- ===== src/Queue/Bitrate/Arrivals.antt =====
-- Arrivals at the Octopus queue.
use octopus_mahimahi.Common.{
  ℕ, ◌<◌, ◌≤◌, ◌^◌, ◌≡◌, ◌⊎◌, refl, inl, inr, ap, true, false, List, [], ◌∷◌, ◌++◌, Option, none,
  some, ◌&&◌, arith, Result, ok, Returns, Returns-bind, ◌>>=◌, ◌>>◌, last_or, Bool-cases,
  Option-cases, ltb, ◌==◌, add64, sub64, find, put, value_or, All, List-cases, subst, sym, ◌∙◌,
}
use octopus_mahimahi.Packet.{
  QueuedPacket, size, PacketHeader, PktPos, first, last, mid, solo, packet_header, is_octopus,
  is_preempt, msg_no, pkt_pos, dstport,
}
use octopus_mahimahi.Queue.Fifo
use octopus_mahimahi.Queue.Fifo.{Limits, within, total}
use octopus_mahimahi.Queue.Counts.{
  Fits, limits, IsCounted, with_log, line, print-with_log, good_with_packet-IsCounted,
  size_bytes-IsCounted,
}
use octopus_mahimahi.Queue.Limits.{IsValid, IsValid-with_log, accept-IsValid, assert_good-IsValid}
use octopus_mahimahi.Queue.{
  DroppingQueue, LogLine, Event, accept, enqueue_other, enqueue_octopus_port,
}
use octopus_mahimahi.Queue.Bitrate.{
  BitrateQueue, measured_rate, trace_arrival, ends_message, counters, count_frame, record_dropper,
  log_line, enqueue,
}

last_or-snoc {ℓ} : {A : Type ℓ} (d : A) (m : List A) (x : A) → last_or d (m ++ x ∷ []) ≡ x
last_or-snoc d [] x = refl
last_or-snoc d (y ∷ m) x = last_or-snoc y m x

-- The division is defined, since the last entry is of the time of the arrival.
measured_rate-Returns :
    (ts : ℕ) (front : ℕ × ℕ) (rest : List (ℕ × ℕ))
    → front.0 ≤ ts
    → ts < 2 ^ 63
    → (last_or front rest).0 ≡ ts
    → Returns (λ rate. Unit) (measured_rate ts front rest)
unfolding measured_rate
measured_rate-Returns ts front rest h b e = elim (Bool-cases (ltb (add64 front.0 100) ts)) [
  | inr n ↦ rw (n, measured_rate) tt
  | inl y ↦
      let some_span : (sub64 (last_or front rest).0 front.0 == 0) ≡ false =
        ground (arith, y, h, b, e) in
      rw (y, measured_rate) (rw some_span tt)
]

-- What an arrival's entry in the trace does not touch.
abbrev Keeps : BitrateQueue → BitrateQueue → Type 0
Keeps q q' = (q'.base ≡ q.base) × (q'.frame_counter ≡ q.frame_counter)

rate_put :
    (port : ℕ) (q q1 : BitrateQueue) (rate : Option ℕ)
    → Keeps q q1
    → Returns (Keeps q) (elim rate as (λ _. Result BitrateQueue) [
      | none ↦ ok q1
      | some r ↦ ok (record q1 { enqueue_rate = put port r q1.enqueue_rate })
    ])
rate_put port q q1 none k = k
rate_put port q q1 (some r) k = k

trace_arrival-Keeps :
    (ts port pkt_size : ℕ) (q : BitrateQueue)
    → ts < 2 ^ 63
    → All (λ t. t.0 ≤ ts) (value_or [] port q.enqueue_trace)
    → Returns (Keeps q) (trace_arrival ts port pkt_size q)
unfolding trace_arrival
trace_arrival-Keeps ts port pkt_size q b h = elim (List-cases (value_or [] port q.enqueue_trace)) [
  | inl e ↦ rw e (
      Returns-bind (λ rate. Unit) (Keeps q) (measured_rate ts (ts, pkt_size) []) _
        (measured_rate-Returns ts (ts, pkt_size) [] (omega arith) b refl)
        (λ rate u.
          rate_put port q
            (record q {
              enqueue_trace =
                  put port (value_or [] port q.enqueue_trace ++ (ts, pkt_size) ∷ [])
                    q.enqueue_trace;
            })
            rate (refl, refl)))
  | inr (x, r, e) ↦ rw e (
      Returns-bind (λ rate. Unit) (Keeps q) (measured_rate ts x (r ++ (ts, pkt_size) ∷ [])) _
        (measured_rate-Returns ts x (r ++ (ts, pkt_size) ∷ []) (rw e at h).0 b
          (ap (λ t. t.0) (last_or-snoc x r (ts, pkt_size))))
        (λ rate u.
          rate_put port q
            (record q {
              enqueue_trace =
                  put port (value_or [] port q.enqueue_trace ++ (ts, pkt_size) ∷ [])
                    q.enqueue_trace;
            })
            rate (refl, refl)))
]

PktPos-cases : (x : PktPos) → (x ≡ first) ⊎ ((x ≡ last) ⊎ ((x ≡ mid) ⊎ (x ≡ solo)))
PktPos-cases first = inl refl
PktPos-cases last = inr (inl refl)
PktPos-cases mid = inr (inr (inl refl))
PktPos-cases solo = inr (inr (inr refl))

-- A message is counted, unless it is a whole one that is counted already.
count_frame-base :
    (port : ℕ) (h : PacketHeader) (q : BitrateQueue)
    → (pkt_pos h ≡ solo → find (msg_no h) (counters port q) ≡ none)
    → Returns (λ q'. q'.base ≡ q.base) (count_frame port h q)
unfolding count_frame
count_frame-base port h q s = elim (PktPos-cases (pkt_pos h)) [
  | inl e ↦ rw (e, Returns) refl
  | inr (inl e) ↦ rw (e, Returns) refl
  | inr (inr (inl e)) ↦ rw (e, Returns) refl
  | inr (inr (inr e)) ↦ rw (e, Returns, ◌>>◌) (rw (s e) refl)
]

record_dropper-base :
    (port : ℕ) (h : PacketHeader) (q : BitrateQueue) → (record_dropper port h q).base ≡ q.base
unfolding record_dropper
record_dropper-base port h q = elim (Bool-cases (ends_message (pkt_pos h) && is_preempt h)) [
  | inl y ↦ rw y refl
  | inr n ↦ rw n refl
]

log_line-with_log :
    (event : Event) (values : ℕ → List ℕ) (q : DroppingQueue)
    → IsCounted q
    → (l : Option (List LogLine)) × (log_line event values q ≡ ok (with_log q l))
unfolding log_line
log_line-with_log event values q v = elim (Option-cases q.log) [
  | inl e ↦ (none, ground (arith, e))
  | inr (lines, e) ↦ (
    line event (values (total q.internal_queue)) lines,
    ground (
      arith,
      e,
      size_bytes-IsCounted v,
      print-with_log event (values (total q.internal_queue)) q e,
    ),
  )
]

pushed :
    (l : Limits) (ps : List QueuedPacket) (p : QueuedPacket)
    → within l (ps ++ p ∷ []) ≡ true
    → ps ++ p ∷ [] ≡ Fifo.push l ps p
unfolding Fifo.push
pushed l ps p w = rw w refl

-- What an arrival leaves: the packets of the bounded FIFO, and valid.
pub record Takes (q : BitrateQueue) (p : QueuedPacket) (q' : BitrateQueue) : Type 0 where
  pub valid : IsValid q'.base
  pub packets : q'.base.internal_queue ≡ Fifo.push (limits q.base) q.base.internal_queue p

-- An Octopus packet once it has been accepted.
octopus-Takes :
    (ts : ℕ) (p : QueuedPacket) (h : PacketHeader) (q q1 : BitrateQueue)
    → q1.base ≡ accept p q.base
    → q1.frame_counter ≡ q.frame_counter
    → IsValid (accept p q.base)
    → within (limits q.base) (q.base.internal_queue ++ p ∷ []) ≡ true
    → (pkt_pos h ≡ solo → find (msg_no h) (counters (dstport h) q) ≡ none)
    → (values : ℕ → List ℕ)
    → Returns (Takes q p) (do
      base' ← log_line enqueue_octopus_port values q1.base
      q3 ← count_frame (dstport h) h (record q1 { base = base' })
      ok (record_dropper (dstport h) h q3))
unfolding Fifo.push accept
octopus-Takes ts p h q q1 eb ef v w s values =
    let v1 = subst IsValid (sym eb) v in
    let (l, r) = log_line-with_log enqueue_octopus_port values q1.base v1.counted in
    let q2 = record q1 { base = with_log q1.base l } in
    rw r (
      Returns-bind (λ q'. q'.base ≡ q2.base) (Takes q p) (count_frame (dstport h) h q2) _
        (count_frame-base (dstport h) h q2 (
          subst (λ m. pkt_pos h ≡ solo → find (msg_no h) (value_or [] (dstport h) m) ≡ none)
            (sym ef) s))
        λ q3 e.
          let b = record_dropper-base (dstport h) h q3 ∙ e in
          record {
            valid = subst IsValid (sym b) (IsValid-with_log l v1);
            packets =
                ap (λ d. d.internal_queue) b
                ∙ (ap (λ d. d.internal_queue) eb
                    ∙ pushed (limits q.base) q.base.internal_queue p w);
          })

-- At a valid queue, the arrival of a packet that fits, at a time below 2^63 and not before
-- those of the trace of its port, returns a valid queue of the packets of the bounded FIFO
-- after the same arrival. The one exception is a message of one packet with a number that is
-- counted already.
pub enqueue-Takes :
    (ts : ℕ) (p : QueuedPacket) (h : PacketHeader) (q : BitrateQueue)
    → IsValid q.base
    → Fits p
    → packet_header p.contents ≡ ok h
    → (pkt_pos h ≡ solo → find (msg_no h) (counters (dstport h) q) ≡ none)
    → ts < 2 ^ 63
    → All (λ t. t.0 ≤ ts) (value_or [] (dstport h) q.enqueue_trace)
    → Returns (Takes q p) (enqueue ts p q)
unfolding enqueue accept Fifo.push
enqueue-Takes ts p h q v f e s b tr =
    elim (Bool-cases (within (limits q.base) (q.base.internal_queue ++ p ∷ []))) [
      | inr w ↦
          rw (good_with_packet-IsCounted p v.counted f, w)
            (record { valid = v; packets = rw w refl })
      | inl w ↦
          let v1 = accept-IsValid p v f w in
          let q1 = record q { base = accept p q.base } in
          rw (good_with_packet-IsCounted p v.counted f, w, e)
            (elim (Bool-cases (is_octopus h)) [
              | inr n ↦
                  let (l, r) =
                    log_line-with_log enqueue_other (λ b. ts ∷ size p ∷ b ∷ []) (accept p q.base)
                      v1.counted in
                  rw (n, r, assert_good-IsValid (IsValid-with_log l v1))
                    (record {
                      valid = IsValid-with_log l v1;
                      packets = pushed (limits q.base) q.base.internal_queue p w;
                    })
              | inl y ↦ rw y (
                  Returns-bind (Keeps q1) (Takes q p) (trace_arrival ts (dstport h) (size p) q1) _
                    (trace_arrival-Keeps ts (dstport h) (size p) q1 b tr)
                    λ q2 k. octopus-Takes ts p h q q2 k.0 k.1 v1 w s _)
            ])
    ]
