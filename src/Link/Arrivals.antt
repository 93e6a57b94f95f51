-- ===== src/Link/Arrivals.antt =====
-- `read_packet` and `wait_time`: the calls that the event loop makes.
use octopus_mahimahi.Common.{
  ℕ, ◌+◌, ◌-◌, ◌*◌, ◌%◌, ◌^◌, ◌≤◌, ◌<◌, ◌≡◌, refl, false, List, [], ◌∷◌, ◌++◌, Option, inl, inr,
  arith, fail, thrown, Returns, Returns-bind, Returns-map, length, All, All-append, leb, ltb, ◌==◌,
  ◌||◌, if◌then◌else◌, Bool-cases, le→leb, add32, sub32, sub64, length-append,
}
use octopus_mahimahi.Packet.{Bytes, QueuedPacket, queued}
use octopus_mahimahi.Queue.Abstract.{
  Clock, PacketQueue, IsQueue, Kept, Kept-total, Kept-length, Kept-All, Kept-append_right,
}
use octopus_mahimahi.Queue.Fifo.{total, total-append}
use octopus_mahimahi.Queue.Counts.{packet_size, Fits, length-le-total}
use octopus_mahimahi.Link.State.{LinkQueue, LinkLine, arrival, drop, log_line}
use octopus_mahimahi.Link.Held.{place, held}
use octopus_mahimahi.Link.Trace.{next_time, next_delivery_time-next_time, next_time_bound, last}
use octopus_mahimahi.Link.Rationalize.{IsLink, Rationalizes, rationalize-Rationalizes}
use octopus_mahimahi.Link.{record_arrival, record_drop, arrive, read_packet, wait_time}

module _ {Q : Type 0} {ops : PacketQueue Q} (laws : IsQueue ops) (rate : ℕ → ℕ → ℕ) where
  -- The packets of the queue are no more than those held before.
  packets-le-held :
      (now : ℕ) {q q1 : LinkQueue Q}
      → Rationalizes laws rate now q q1
      → total (laws.packets q1.packet_queue) ≤ total (held laws q)
  packets-le-held now {q} {q1} r =
      ground (arith, Kept-total r.moves.kept, total-append r.moves.departed (held laws q1))

  -- The queue after an arrival, and the log: a line for the arrival, and one for what was dropped,
  -- if anything was, with exact numbers.
  pub record Reads (contents : Bytes) (now : ℕ) (q1 q' : LinkQueue Q) : Type 0 where
    pub is_link : IsLink laws rate q'
    pub ahead : now < next_time (place q')
    pub same_place : place q' ≡ place q1
    pub same_output : q'.output_queue ≡ q1.output_queue
    pub added : Kept (held laws q') (held laws q1 ++ queued contents now ∷ [])
    pub logged :
        let arrived = log_line (arrival now (length contents)) q1.log in
        let before = laws.packets q1.packet_queue in
        let after = laws.packets q'.packet_queue in
        let packets = length before + 1 - length after in
        let bytes = total before + length contents - total after in
        q'.log ≡ (
          if ltb 0 packets || ltb 0 bytes
          then log_line (drop now packets bytes) arrived
          else arrived)

  held-enqueued :
      (q : LinkQueue Q) (p : QueuedPacket) (queue' : Q)
      → Kept (laws.packets queue') (laws.packets q.packet_queue ++ p ∷ [])
      → Kept (held laws (record q { packet_queue = queue' })) (held laws q ++ p ∷ [])
  held-enqueued q p queue' k = elim (Bool-cases (q.packet_in_transit_bytes_left == 0)) [
    | inl e ↦ rw e k
    | inr e ↦ rw e (Kept-append_right (q.packet_in_transit ∷ []) k)
  ]

  -- The log behind an arrival.
  abbrev arrival_log :
      Bytes
      → ℕ
      → Option (List LinkLine)
      → List QueuedPacket
      → List QueuedPacket
      → Option (List LinkLine)
  arrival_log contents now lines before after =
      if ltb 0 (length before + 1 - length after)
        || ltb 0 (total before + length contents - total after)
      then log_line
          (drop now (length before + 1 - length after)
            (total before + length contents - total after))
          (log_line (arrival now (length contents)) lines)
      else log_line (arrival now (length contents)) lines

  -- The part of `read_packet` behind `rationalize`.
  module _ (contents : Bytes) (now : ℕ) (q1 : LinkQueue Q) (v : IsLink laws rate q1)
      (h : now < next_time (place q1)) (queue' : Q) (w : laws.IsValid queue')
      (k : Kept
        (laws.packets queue')
        (laws.packets q1.packet_queue ++ queued contents now ∷ [])) where
    IsLink-enqueued : IsLink laws rate (record q1 { packet_queue = queue' })
    IsLink-enqueued = record {
      timed = v.timed;
      can_send = record {
        valid = w;
        small = v.can_send.small;
        whole = v.can_send.whole;
        timely =
            Kept-All (λ p. p.arrival_time ≤ next_time (place q1))
              (held-enqueued q1 (queued contents now) queue' k)
              (All-append (λ p. p.arrival_time ≤ next_time (place q1)) (held laws q1)
                (queued contents now ∷ []) v.can_send.timely (omega arith, tt));
      };
    }

    Reads-enqueued :
        (lines : Option (List LinkLine)) (calls : Option (List (ℕ × ℕ)))
        → lines
          ≡ arrival_log contents now q1.log (laws.packets q1.packet_queue) (laws.packets queue')
        → Reads contents now q1
            (record q1 { packet_queue = queue'; log = lines; throughput_graph = calls })
    Reads-enqueued lines calls e = record {
      is_link = record {
        timed = v.timed;
        can_send = record {
          valid = w;
          small = v.can_send.small;
          whole = v.can_send.whole;
          timely = IsLink-enqueued.can_send.timely;
        };
      };
      ahead = h;
      same_place = refl;
      same_output = refl;
      added = held-enqueued q1 (queued contents now) queue' k;
      logged = e;
    }

    -- The queue has no more packets and bytes than those that it had and the new packet, and the
    -- differences do not wrap.
    exact :
        All Fits (laws.packets q1.packet_queue)
        → total (laws.packets q1.packet_queue) + length contents < 2 ^ 31
        → 0 < length contents
        → let packets = length (laws.packets q1.packet_queue) in
          let bytes = total (laws.packets q1.packet_queue) in
          (add32 packets 1 ≡ packets + 1)
          × (add32 bytes (length contents) ≡ bytes + length contents)
          × (length (laws.packets queue') ≤ packets + 1)
          × (total (laws.packets queue') ≤ bytes + length contents)
          × (sub32 (packets + 1) (length (laws.packets queue'))
              ≡ packets + 1 - length (laws.packets queue'))
          × (sub32 (bytes + length contents) (total (laws.packets queue'))
              ≡ bytes + length contents - total (laws.packets queue'))
    exact f s z = omega (
      arith,
      Kept-total k,
      Kept-length k,
      total-append (laws.packets q1.packet_queue) (queued contents now ∷ []),
      length-append (laws.packets q1.packet_queue) (queued contents now ∷ []),
      length-le-total (laws.packets q1.packet_queue) f,
    )

  arrive-Reads :
      (contents : Bytes) (now : ℕ) (clock : Clock) (q1 : LinkQueue Q)
      → IsLink laws rate q1
      → now < next_time (place q1)
      → Fits (queued contents now)
      → total (laws.packets q1.packet_queue) + length contents < 2 ^ 31
      → Returns (Reads contents now q1) (arrive ops rate contents now clock q1)
  unfolding arrive record_arrival record_drop
  arrive-Reads contents now clock q1 v h f s =
      let w = v.can_send.valid in
      let before = laws.packets q1.packet_queue in
      rw (laws.size_bytes_lem q1.packet_queue w, laws.size_packets_lem q1.packet_queue w)
        (Returns-bind _ (Reads contents now q1)
          (ops.enqueue clock (queued contents now) q1.packet_queue) _
          (laws.enqueue_lem clock (queued contents now) q1.packet_queue w f s)
          λ queue' e.
            let (a, b, c, d, m, n) =
              exact contents now q1 v h queue' e.0 e.1 (laws.fit q1.packet_queue w) s
                (omega (arith, f.0)) in
            let after = laws.packets queue' in
            rw
              (
                laws.size_bytes_lem queue' e.0,
                laws.size_packets_lem queue' e.0,
                a,
                b,
                m,
                n,
                le→leb _ _ c,
                le→leb _ _ d,
              )
              (elim (Bool-cases (
                ltb 0 (length before + 1 - length after)
                || ltb 0 (total before + length contents - total after))) [
                  | inl z ↦ rw z (Reads-enqueued contents now q1 v h queue' e.0 e.1 _ _ (rw z))
                  | inr z ↦ rw z (Reads-enqueued contents now q1 v h queue' e.0 e.1 _ _ (rw z))
                ]))

  -- A packet is received by a link that has been brought up to the time of the arrival.
  pub record Receives (contents : Bytes) (now : ℕ) (q q' : LinkQueue Q) : Type 0 where
    pub between : LinkQueue Q
    pub before : Rationalizes laws rate now q between
    pub read : Reads contents now between q'

  -- At a valid link, where `now` and twice the last time of the trace add up to less than 2^64, a
  -- packet of 43 to 1504 bytes, with which the packets held come to fewer than 2^31 bytes, is
  -- received without a failing assertion. The link is first brought up to `now`; then the
  -- packets held are some of those before and the new one, in order, and the log has the
  -- arrival and exactly what is missing.
  pub read_packet-Receives :
      (contents : Bytes) (now : ℕ) (clocks : ℕ → ℕ → Clock) (clock : Clock) (q : LinkQueue Q)
      → IsLink laws rate q
      → now + 2 * last (place q) < 2 ^ 64
      → Fits (queued contents now)
      → total (held laws q) + length contents < 2 ^ 31
      → Returns (Receives contents now q) (read_packet ops rate contents now clocks clock q)
  unfolding read_packet
  read_packet-Receives contents now clocks clock q v bound f s = rw (le→leb _ _ f.1) (
      Returns-bind (Rationalizes laws rate now q) (Receives contents now q) _ _
        (rationalize-Rationalizes laws rate now clocks q v bound)
        λ q1 r.
          Returns-map (Reads contents now q1) (Receives contents now q) _
            (arrive-Reads contents now clock q1 r.is_link r.ahead f
              (omega (arith, packets-le-held now r)))
            λ q' e. record { between = q1; before = r; read = e })

  -- A packet of more than PACKET_SIZE bytes is refused before anything else happens.
  pub read_packet_large :
      (contents : Bytes) (now : ℕ) (clocks : ℕ → ℕ → Clock) (clock : Clock) (q : LinkQueue Q)
      → packet_size < length contents
      → read_packet ops rate contents now clocks clock q ≡ fail thrown
  unfolding read_packet
  read_packet_large contents now clocks clock q h =
      let e : leb (length contents) packet_size ≡ false = ground arith in rw e

  -- The wait after the link has been brought up to `now`.
  pub record Waits (now : ℕ) (q : LinkQueue Q) (r : ℕ × LinkQueue Q) : Type 0 where
    pub before : Rationalizes laws rate now q r.1
    pub wait : r.0 ≡ (next_time (place r.1) - now) % 2 ^ 32

  -- At a valid link with no 64-bit overflow of the times ahead, `wait_time` brings the link up
  -- to `now` and returns the time from `now` to the next opportunity, modulo 2^32.
  pub wait_time-Waits :
      (now : ℕ) (clocks : ℕ → ℕ → Clock) (q : LinkQueue Q)
      → IsLink laws rate q
      → now + 2 * last (place q) < 2 ^ 64
      → Returns (Waits now q) (wait_time ops rate now clocks q)
  unfolding wait_time
  wait_time-Waits now clocks q v bound =
      Returns-bind (Rationalizes laws rate now q) (Waits now q) _ _
        (rationalize-Rationalizes laws rate now clocks q v bound)
        λ q1 r.
          let later : leb (next_time (place q1)) now ≡ false = ground (arith, r.ahead) in
          let exact : sub64 (next_time (place q1)) now ≡ next_time (place q1) - now =
            omega (arith, r.ahead, next_time_bound (place q1) r.is_link.timed) in
          rw (next_delivery_time-next_time q1 r.is_link.timed, later, exact)
            (record { before = r; wait = refl })
