-- ===== src/Queue/Bitrate.antt =====
-- src/packet/drop_bitrate_dequeue_queue.hh and .cc: the Octopus queue, which drops messages by the
-- bitrate that they need, and by newer messages that pre-empt them.
pub mod Departures
pub mod Arrivals
pub mod Share
pub mod Others
mod Tests
use octopus_mahimahi.Common.{
  ℕ, zero, suc, ◌+◌, ◌-◌, ◌*◌, ◌/◌, ◌%◌, ◌^◌, ◌≡◌, Bool, true, false, not, ◌&&◌, ◌||◌, List, [],
  ◌∷◌, ◌++◌, Option, none, some, Result, ok, fail, thrown, undefined, out_of_fuel, ◌>>=◌, ◌>>◌,
  assert, check, length, null, take, get_or, replicate, last_or, leb, ltb, ◌==◌, if◌then◌else◌,
  signed_lt, add32, sub32, add64, sub64, find, put, erase, value_or, touch,
}
use octopus_mahimahi.Packet.{
  QueuedPacket, size, PktPos, first, last, mid, solo, PacketHeader, packet_header, is_octopus,
  msg_no, pkt_pos, priority, priority_threshold, is_preempt, slack_time, bitrate, dstport,
}
use octopus_mahimahi.Queue.Abstract.{Clock}
use octopus_mahimahi.Queue.{
  DroppingQueue, enqueue_other, enqueue_octopus_port, dequeue_octopus, sema_drop_bitrate,
  sema_drop_priority, Event, print, size_bytes, empty, good_with_packet, assert_good, accept,
  forget, pop_front,
}

-- The maps go from ports; those of `frame_counter` go on to message numbers. A trace entry is a time
-- and a size. The `int32_t`s are bit patterns.
pub record BitrateQueue : Type 0 where
  pub base : DroppingQueue
  pub frame_counter : List (ℕ × List (ℕ × ℕ))
  pub msg_in_drop : List (ℕ × ℕ)
  pub prio_to_droppers : List (ℕ × List ℕ)
  pub enqueue_trace : List (ℕ × List (ℕ × ℕ))
  pub enqueue_rate : List (ℕ × ℕ)

abbrev pub minus_one : ℕ
minus_one = 2 ^ 32 - 1

-- An `int32_t` as a `uint64_t`.
abbrev pub sign_extend : ℕ → ℕ
sign_extend w = if ltb w (2 ^ 31) then w else w + (2 ^ 64 - 2 ^ 32)

abbrev pub replace : ℕ → ℕ → List ℕ → List ℕ
replace i v [] = []
replace zero v (x ∷ xs) = v ∷ xs
replace (suc i) v (x ∷ xs) = x ∷ replace i v xs

-- `bytes_sent += it->second` over the trace.
unfoldable pub sum_loop : ℕ → List (ℕ × ℕ) → ℕ
sum_loop bytes_sent [] = bytes_sent
sum_loop bytes_sent (t ∷ ts) = sum_loop (add32 bytes_sent t.1) ts

-- `bytes_sent =- second`, which assigns: the sum before it is lost.
abbrev pub less_first : ℕ → ℕ → ℕ
less_first bytes_sent second = sub32 0 second

-- The rate of a trace that begins with an entry and goes on to another, or `none` if that is not
-- more than 100 ms later.
unfoldable pub measured_rate : ℕ → ℕ × ℕ → List (ℕ × ℕ) → Result (Option ℕ)
measured_rate ts front rest = elim (ltb (add64 front.0 100) ts) [
  | false ↦ ok none
  | true ↦ do
    let bytes_sent = less_first (sum_loop 0 (front ∷ rest)) front.1
    let back = last_or front rest
    let span = sub64 back.0 front.0
    check undefined (not (span == 0))
    ok (some (sign_extend (bytes_sent * 8 % 2 ^ 32) / span % 2 ^ 32))
]

-- The entry of an arrival in the trace, and the rate.
unfoldable pub trace_arrival : ℕ → ℕ → ℕ → BitrateQueue → Result BitrateQueue
trace_arrival ts port pkt_size q = do
  let trace = value_or [] port q.enqueue_trace ++ (ts, pkt_size) ∷ []
  let q1 = record q { enqueue_trace = put port trace q.enqueue_trace }
  rate ← elim trace [ [] ↦ fail undefined | front ∷ rest ↦ measured_rate ts front rest ]
  elim rate [ none ↦ ok q1 | some r ↦ ok (record q1 { enqueue_rate = put port r q1.enqueue_rate }) ]

abbrev pub counters : ℕ → BitrateQueue → List (ℕ × ℕ)
counters port q = value_or [] port q.frame_counter

-- The ends of a message that have arrived.
unfoldable pub count_frame : ℕ → PacketHeader → BitrateQueue → Result BitrateQueue
count_frame port header q =
    let m = counters port q in
    let msg = msg_no header in
    let bump = record q {
      frame_counter =
          put port (put msg (elim (find msg m) [ none ↦ 1 | some n ↦ add32 n 1 ]) m)
            q.frame_counter;
    } in
    elim (pkt_pos header) [
      | first ↦ ok bump
      | last ↦ ok bump
      | mid ↦ ok q
      | solo ↦ do
        assert (elim (find msg m) [ none ↦ true | some n ↦ false ])
        ok (record q { frame_counter = put port (put msg 2 m) q.frame_counter })
    ]

abbrev pub ends_message : PktPos → Bool
ends_message first = false
ends_message last = true
ends_message mid = false
ends_message solo = true

-- A message that pre-empts, once it has arrived whole.
unfoldable pub record_dropper : ℕ → PacketHeader → BitrateQueue → BitrateQueue
record_dropper port header q =
    if ends_message (pkt_pos header) && is_preempt header
    then (let droppers = value_or (replicate 8 minus_one) port q.prio_to_droppers in
        let thresh = priority_threshold header in
        record q {
          prio_to_droppers =
              put port
                (if signed_lt (get_or droppers thresh 0) (msg_no header)
                  then replace thresh (msg_no header) droppers
                  else droppers)
                q.prio_to_droppers;
        })
    else q

-- A line, printed if there is a log.
unfoldable pub log_line : Event → (ℕ → List ℕ) → DroppingQueue → Result DroppingQueue
log_line event values q = elim q.log [
  | none ↦ ok q
  | some _ ↦ do b ← size_bytes q; print event (values b) q
]

unfoldable pub enqueue : ℕ → QueuedPacket → BitrateQueue → Result BitrateQueue
enqueue ts p q = do
  fits ← good_with_packet p q.base
  if not fits then ok q else do
    header ← packet_header p.contents
    let port = dstport header
    let q1 = record q { base = accept p q.base }
    if not (is_octopus header)
        then (do
          base' ← log_line enqueue_other (λ b. ts ∷ size p ∷ b ∷ []) q1.base
          assert_good base'
          ok (record q1 { base = base' }))
        else do
          q2 ← trace_arrival ts port (size p) q1
          base' ←
              log_line enqueue_octopus_port
                (λ b. ts ∷ size p ∷ b ∷ header.seq ∷ msg_no header ∷ port ∷ []) q2.base
          q3 ← count_frame port header (record q2 { base = base' })
          ok (record_dropper port header q3)
