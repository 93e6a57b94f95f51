-- ===== src/Delay/Runs.antt =====
-- The runs of a delay queue: what has been written, and when, against what has arrived.
use octopus_mahimahi.Common.{
  ℕ, ◌+◌, ◌≤◌, ◌<◌, ◌^◌, ◌≡◌, refl, ap, ap₂, sym, subst, ◌∙◌, inl, inr, false, List, [], ◌∷◌, ◌++◌,
  map, append_assoc, arith, All, leb, Bool-cases,
}
use mathlib.Core.List.{map-append}
use octopus_mahimahi.Packet.{Bytes}
use octopus_mahimahi.Delay.{
  DelayQueue, read_packet, write_loop, write_packets, wait_time, pending_output,
}

-- A packet with the time of an event.
abbrev pub Timed : Type 0
Timed = ℕ × Bytes

-- A run from an empty queue up to a time: the arrivals, the departures, and the queue. The clock does
-- not go backwards between calls, and stands still within one.
pub data Run (delay : ℕ) : ℕ → List Timed → List Timed → DelayQueue → Type 0 where
  start : (now : ℕ) → Run delay now [] [] (record { delay_ms = delay; packet_queue = [] })
  reads :
      {now : ℕ} {arrivals departures : List Timed} {q : DelayQueue}
      → Run delay now arrivals departures q
      → (t : ℕ) (contents : Bytes) → now ≤ t
      → t + delay < 2 ^ 64
      → Run delay t (arrivals ++ (t, contents) ∷ []) departures (read_packet t contents q)
  writes :
      {now : ℕ} {arrivals departures : List Timed} {q : DelayQueue}
      → Run delay now arrivals departures q
      → (t : ℕ) → now ≤ t
      → Run delay t arrivals
          (departures ++ map (λ c. (t, c)) (write_packets (λ k. t) q).0)
          (write_packets (λ k. t) q).1

-- The departures are of the arrivals, in order and each with its own contents, after the delay.
pub data Delayed (delay : ℕ) : List Timed → List Timed → Type 0 where
  none_left : Delayed delay [] []
  after :
      {xs ds : List Timed} (t u : ℕ) (contents : Bytes)
      → t + delay ≤ u
      → Delayed delay xs ds
      → Delayed delay ((t, contents) ∷ xs) ((u, contents) ∷ ds)

Delayed-append :
    {delay : ℕ} {xs ds bs es : List Timed}
    → Delayed delay xs ds
    → Delayed delay bs es
    → Delayed delay (xs ++ bs) (ds ++ es)
Delayed-append none_left e = e
Delayed-append (after t u c h d) e = after t u c h (Delayed-append d e)

-- The arrivals as the queue holds them.
abbrev pub released : ℕ → List Timed → List Timed
released delay xs = map (λ a. (a.0 + delay, a.1)) xs

-- What a call writes of the packets held is what was due, and no more; the rest waits, and its first
-- packet is not due.
record Writes (delay t : ℕ) (xs : List Timed) : Type 0 where
  due : List Timed
  waiting : List Timed
  split : xs ≡ due ++ waiting
  written :
      (k : ℕ)
      → write_loop k (λ k. t) (released delay xs) ≡ (map (λ a. a.1) due, released delay waiting)
  timely : Delayed delay due (map (λ c. (t, c)) (map (λ a. a.1) due))

write_loop-Writes : (delay t : ℕ) (xs : List Timed) → Writes delay t xs
unfolding write_loop
write_loop-Writes delay t [] = record {
  due = [];
  waiting = [];
  split = refl;
  written = λ k. refl;
  timely = none_left;
}
write_loop-Writes delay t ((s, c) ∷ xs) =
    let w = write_loop-Writes delay t xs in
    elim (Bool-cases (leb (s + delay) t)) [
      | inl y ↦ record {
        due = (s, c) ∷ w.due;
        waiting = w.waiting;
        split = ap (λ r. (s, c) ∷ r) w.split;
        written = λ k. rw (y, w.written (k + 1)) refl;
        timely = after s t c (ground (arith, y)) w.timely;
      }
      | inr n ↦ record {
        due = [];
        waiting = (s, c) ∷ xs;
        split = refl;
        written = λ k. rw n refl;
        timely = none_left;
      }
    ]

-- What a run leaves: the departures are of the oldest arrivals, and the queue holds the others.
pub record Holds (delay : ℕ) (arrivals departures : List Timed) (q : DelayQueue) : Type 0 where
  pub gone : List Timed
  pub waiting : List Timed
  pub arrived : arrivals ≡ gone ++ waiting
  pub delayed : Delayed delay gone departures
  pub queue : q.packet_queue ≡ released delay waiting
  pub delay_ms : q.delay_ms ≡ delay

-- In every run, in which the release times are below 2^64, the departures are the oldest arrivals, in order, none before its delay is
-- over, and the queue holds the others.
pub Run-Holds :
    {delay now : ℕ} {arrivals departures : List Timed} {q : DelayQueue}
    → Run delay now arrivals departures q
    → Holds delay arrivals departures q
unfolding read_packet write_packets
Run-Holds (start now) = record {
  gone = [];
  waiting = [];
  arrived = refl;
  delayed = none_left;
  queue = refl;
  delay_ms = refl;
}
Run-Holds {delay} (reads r t contents h b) =
    let i = Run-Holds r in
    record {
      gone = i.gone;
      waiting = i.waiting ++ (t, contents) ∷ [];
      arrived =
          ap (λ l. l ++ (t, contents) ∷ []) i.arrived
          ∙ append_assoc i.gone i.waiting ((t, contents) ∷ []);
      delayed = i.delayed;
      queue =
          ap₂ (λ ps n. ps ++ (n, contents) ∷ []) i.queue (omega (arith, i.delay_ms, b))
          ∙ sym (map-append (λ a. (a.0 + delay, a.1)) i.waiting ((t, contents) ∷ []));
      delay_ms = i.delay_ms;
    }
Run-Holds {delay} (writes {q = q} r t h) =
    let i = Run-Holds r in
    let w = write_loop-Writes delay t i.waiting in
    let out = ap (write_loop 0 (λ k. t)) i.queue ∙ w.written 0 in
    record {
      gone = i.gone ++ w.due;
      waiting = w.waiting;
      arrived =
          i.arrived ∙ (ap (λ l. i.gone ++ l) w.split ∙ sym (append_assoc i.gone w.due w.waiting));
      delayed = Delayed-append i.delayed (
          subst (λ l. Delayed delay w.due (map (λ c. (t, c)) l)) (sym (ap (λ r. r.0) out))
            w.timely);
      queue = ap (λ r. r.1) out;
      delay_ms = i.delay_ms;
    }

write_loop-idle :
    (delay t k : ℕ) (xs : List Timed)
    → t < 2 ^ 63
    → All (λ p. p.0 < t + 2 ^ 32) xs
    → pending_output t (record { delay_ms = delay; packet_queue = (write_loop k (λ k. t) xs).1 })
      ≡ false
unfolding write_loop pending_output wait_time
write_loop-idle delay t k [] b h = refl
write_loop-idle delay t k ((s, c) ∷ xs) b h = elim (Bool-cases (leb s t)) [
  | inl y ↦ rw y (write_loop-idle delay t (k + 1) xs b h.1)
  | inr n ↦ rw (n, n) (ground (arith, n, h.0, b))
]

-- Where no release is 2^32 ms away or more, nothing is pending after a call at a time `t`
-- below 2^63.
pub write_packets-idle :
    (t : ℕ) (q : DelayQueue)
    → t < 2 ^ 63
    → All (λ p. p.0 < t + 2 ^ 32) q.packet_queue
    → pending_output t (write_packets (λ k. t) q).1 ≡ false
unfolding write_packets
write_packets-idle t q b h = write_loop-idle q.delay_ms t 0 q.packet_queue b h
