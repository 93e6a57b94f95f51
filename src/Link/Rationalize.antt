-- ===== src/Link/Rationalize.antt =====
-- `rationalize`: the link is brought up to a time, through every opportunity that is due.
use octopus_mahimahi.Common.{
  ℕ, zero, suc, ◌+◌, ◌*◌, ◌^◌, ◌≤◌, ◌<◌, ◌≡◌, refl, sym, ap, ◌∙◌, subst, true, false, inl, inr,
  arith, ok, Returns, Returns-bind, Returns-map, ◌>>=◌, length, All-map, leb, Bool-cases,
  Option-cases, leb→le, >>=-assoc, add32, add64, last_or,
}
use octopus_mahimahi.Queue.Abstract.{Clock, PacketQueue, IsQueue, Kept-self}
use octopus_mahimahi.Queue.Counts.{packet_size}
use octopus_mahimahi.Link.State.{LinkQueue, next_delivery_time, log_line, opportunity, count}
use octopus_mahimahi.Link.Held.{Place, place, sent, held, Moves, Moves-trans, Moves-still, CanSend}
use octopus_mahimahi.Link.Deliver.{Delivers, deliver-Delivers}
use octopus_mahimahi.Link.Trace.{
  IsTimed, next_time, next_delivery_time-next_time, advance, remaining, remaining-le, last,
  advance-Advances, back-last_or, size_of-mod,
}
use octopus_mahimahi.Link.{
  record_departure_opportunity, use_a_delivery_opportunity, deliver, rationalize_loop, rationalize,
}

abbrev pub iterate : ℕ → Place → Place
iterate zero p = p
iterate (suc k) p = iterate k (advance p)

module _ {Q : Type 0} {ops : PacketQueue Q} (laws : IsQueue ops) (rate : ℕ → ℕ → ℕ) where
  -- A link between two calls: its place is in the trace, and it can send at the next opportunity.
  pub record IsLink (q : LinkQueue Q) : Type 0 where
    pub timed : IsTimed (place q)
    pub can_send : CanSend laws (next_time (place q)) q

  -- What is burnt with an opportunity: the place moves on, and nothing else that is sent changes.
  record Burns (q q' : LinkQueue Q) : Type 0 where
    next_place : place q' ≡ advance (place q)
    same_output : q'.output_queue ≡ q.output_queue
    same_left : q'.packet_in_transit_bytes_left ≡ q.packet_in_transit_bytes_left
    same_transit : q'.packet_in_transit ≡ q.packet_in_transit
    queue : q'.packet_queue ≡ ops.set_bandwidth q.dequeue_rate q.packet_queue

  record_departure_opportunity_lem :
      (q : LinkQueue Q)
      → IsTimed (place q)
      → record_departure_opportunity ops rate q
        ≡ ok (record q {
          log = log_line (opportunity (next_time (place q))) q.log;
          throughput_graph = count 0 packet_size q.throughput_graph;
        })
  unfolding record_departure_opportunity
  record_departure_opportunity_lem q v = elim (Option-cases q.log) [
    | inl e ↦ rw e refl
    | inr (lines, e) ↦ rw (e, next_delivery_time-next_time q v) refl
  ]

  use-Burns :
      (q : LinkQueue Q)
      → IsTimed (place q)
      → Returns (Burns q) (use_a_delivery_opportunity ops rate q)
  unfolding use_a_delivery_opportunity advance
  use-Burns q v =
      let some_time : 0 < length q.schedule = omega (arith, v.inside) in
      let no_wrap : add32 q.next_delivery 1 ≡ q.next_delivery + 1 =
        omega (arith, v.short, v.inside) in
      let no_wrap64 : add64 q.base_timestamp (last_or 0 q.schedule)
          ≡ q.base_timestamp + last_or 0 q.schedule =
        omega (arith, v.room) in
      rw
        (
          record_departure_opportunity_lem q v,
          no_wrap,
          size_of-mod q.schedule (q.next_delivery + 1) some_time,
          back-last_or q.schedule some_time,
        )
        record {
          next_place = ground (arith, no_wrap64);
          same_output = ground arith;
          same_left = ground arith;
          same_transit = ground arith;
          queue = ground arith;
        }

  -- After an opportunity has been burnt, what was held still is, and can be sent at its time.
  burnt :
      (t : ℕ) (q q' : LinkQueue Q)
      → CanSend laws t q
      → Burns q q'
      → CanSend laws t q' × Moves laws q q' × (sent q' ≡ sent q)
  burnt t q q' c b = (
    record {
      valid = rw b.queue valid;
      small = rw b.same_left c.small;
      whole = rw (b.same_left, b.same_transit) c.whole;
      timely = rw same_held c.timely;
    },
    Moves-still laws b.same_output (rw same_held (Kept-self _)),
    rw (b.same_output, b.same_left, b.same_transit),
  )
    where
      valid : laws.IsValid (ops.set_bandwidth q.dequeue_rate q.packet_queue)
      valid = (laws.set_bandwidth_lem q.dequeue_rate q.packet_queue c.valid).0

      same_packets : laws.packets q'.packet_queue ≡ laws.packets q.packet_queue
      same_packets = rw b.queue (laws.set_bandwidth_lem q.dequeue_rate q.packet_queue c.valid).1

      same_held : held laws q' ≡ held laws q
      same_held = rw (b.same_left, b.same_transit, same_packets)

  -- One round of the outer loop, at an opportunity that is due.
  record Rounds (now : ℕ) (q q' : LinkQueue Q) : Type 0 where
    is_link : IsLink q'
    moves : Moves laws q q'
    next_place : place q' ≡ advance (place q)
    within : sent q' ≤ sent q + packet_size

  round-Rounds :
      (now : ℕ) (clocks : ℕ → Clock) (q : LinkQueue Q)
      → IsLink q
      → next_time (place q) ≤ now
      → now + 2 * last (place q) < 2 ^ 64
      → Returns (Rounds now q) (
          use_a_delivery_opportunity ops rate q >>= λ q1.
          deliver ops rate (suc packet_size) (next_time (place q)) packet_size clocks q1)
  round-Rounds now clocks q v due bound =
      Returns-bind (Burns q) (Rounds now q) (use_a_delivery_opportunity ops rate q) _
        (use-Burns q v.timed)
        λ q1 b.
          let (c1, m1, s1) = burnt t q q1 v.can_send b in
          Returns-map (Delivers laws rate t packet_size q1) (Rounds now q) _
            (deliver-Delivers laws rate (suc packet_size) t packet_size clocks q1 c1 (omega arith))
            λ q2 d. finish q1 q2 b m1 s1 d
    where
      t : ℕ
      t = next_time (place q)

      finish :
          (q1 q2 : LinkQueue Q)
          → Burns q q1
          → Moves laws q q1
          → sent q1 ≡ sent q
          → Delivers laws rate t packet_size q1 q2
          → Rounds now q q2
      finish q1 q2 b m1 s1 d =
          let a = advance-Advances now (place q) v.timed due bound in
          let e = d.same_place ∙ b.next_place in
          record {
            is_link = record {
              timed = rw e a.timed;
              can_send = record {
                valid = d.can_send.valid;
                small = d.can_send.small;
                whole = d.can_send.whole;
                timely =
                    All-map (λ p. p.arrival_time ≤ t) (λ p. p.arrival_time ≤ next_time (place q2))
                      (held laws q2) (λ p h. rw e (omega (arith, a.later))) d.can_send.timely;
              };
            };
            moves = Moves-trans laws m1 d.moves;
            next_place = e;
            within = omega (arith, d.at_most);
          }

  -- What bringing the link up to `now` does: all opportunities up to `now` are used and no other,
  -- each carries PACKET_SIZE bytes at most, and what leaves was held, in order.
  pub record Rationalizes (now : ℕ) (q q' : LinkQueue Q) : Type 0 where
    pub is_link : IsLink q'
    pub ahead : now < next_time (place q')
    pub moves : Moves laws q q'
    pub used : ℕ
    pub place_after : place q' ≡ iterate used (place q)
    pub due : (j : ℕ) → j < used → next_time (iterate j (place q)) ≤ now
    pub within : sent q' ≤ sent q + used * packet_size

  due_next :
      (now k : ℕ) (p : Place)
      → next_time p ≤ now
      → ((j : ℕ) → j < k → next_time (iterate j (advance p)) ≤ now)
      → (j : ℕ) → j < suc k
      → next_time (iterate j p) ≤ now
  due_next now k p d later zero h = d
  due_next now k p d later (suc j) h = later j (omega arith)

  Rationalizes-round :
      (now : ℕ) {q q1 q' : LinkQueue Q}
      → next_time (place q) ≤ now
      → Rounds now q q1
      → Rationalizes now q1 q'
      → Rationalizes now q q'
  Rationalizes-round now {q} {q1} {q'} due r s = record {
    is_link = s.is_link;
    ahead = s.ahead;
    moves = Moves-trans laws r.moves s.moves;
    used = suc s.used;
    place_after = s.place_after ∙ ap (iterate s.used) r.next_place;
    due =
        due_next now s.used (place q) due
          (subst (λ p. (j : ℕ) → j < s.used → next_time (iterate j p) ≤ now) r.next_place s.due);
    within = omega (arith, r.within, s.within);
  }

  Rationalizes-ahead :
      (now : ℕ) (q : LinkQueue Q) → IsLink q → now < next_time (place q) → Rationalizes now q q
  Rationalizes-ahead now q v h = record {
    is_link = v;
    ahead = h;
    moves = Moves-still laws refl (Kept-self _);
    used = 0;
    place_after = refl;
    due = λ j l. elim l [ ];
    within = omega arith;
  }

  rationalize_loop_due :
      (fuel now t : ℕ) (clocks : ℕ → ℕ → Clock) (q : LinkQueue Q)
      → next_delivery_time q ≡ ok t
      → leb t now ≡ true
      → rationalize_loop ops rate (suc fuel) now clocks q ≡ (
          (use_a_delivery_opportunity ops rate q >>= λ q1.
          deliver ops rate (suc packet_size) t packet_size (clocks fuel) q1)
          >>= rationalize_loop ops rate fuel now clocks)
  unfolding rationalize_loop
  rationalize_loop_due fuel now t clocks q e d =
      rw (e, ◌>>=◌)
        (rw (d, rationalize_loop)
          (sym (
            >>=-assoc (use_a_delivery_opportunity ops rate q)
              (λ q1. deliver ops rate (suc packet_size) t packet_size (clocks fuel) q1)
              (rationalize_loop ops rate fuel now clocks))))

  rationalize_loop_ahead :
      (fuel now t : ℕ) (clocks : ℕ → ℕ → Clock) (q : LinkQueue Q)
      → next_delivery_time q ≡ ok t
      → leb t now ≡ false
      → rationalize_loop ops rate (suc fuel) now clocks q ≡ ok q
  unfolding rationalize_loop
  rationalize_loop_ahead fuel now t clocks q e d = rw (e, ◌>>=◌) (rw (d, rationalize_loop))

  loop-Rationalizes :
      (fuel now : ℕ) (clocks : ℕ → ℕ → Clock) (q : LinkQueue Q)
      → IsLink q
      → now + 2 * last (place q) < 2 ^ 64
      → remaining now (place q) < fuel
      → Returns (Rationalizes now q) (rationalize_loop ops rate fuel now clocks q)
  loop-Rationalizes zero now clocks q v bound h = elim h [ ]
  loop-Rationalizes (suc fuel) now clocks q v bound h =
      let e = next_delivery_time-next_time q v.timed in
      elim (Bool-cases (leb (next_time (place q)) now)) [
        | inr later ↦
            rw (rationalize_loop_ahead fuel now (next_time (place q)) clocks q e later)
              (Rationalizes-ahead now q v (ground arith))
        | inl d ↦
            let due = leb→le _ _ d in
            let a = advance-Advances now (place q) v.timed due bound in
            rw (rationalize_loop_due fuel now (next_time (place q)) clocks q e d) (
              Returns-bind (Rounds now q) (Rationalizes now q) _ _
                (round-Rounds now (clocks fuel) q v due bound)
                λ q1 r.
                  Returns-map (Rationalizes now q1) (Rationalizes now q) _
                    (loop-Rationalizes fuel now clocks q1 r.is_link
                      (subst (λ p. now + 2 * last p < 2 ^ 64) (sym r.next_place)
                        (rw a.same_schedule bound))
                      (rw r.next_place (omega (arith, a.fewer))))
                    λ q' s. Rationalizes-round now due r s)
      ]

  -- For a link on any queue that keeps the laws, with no 64-bit overflow of the times ahead,
  -- `rationalize` returns: its fuel is enough. The link is then valid, the next opportunity is
  -- after `now`, exactly the opportunities that were due have been used, at most PACKET_SIZE
  -- bytes have been sent for each, and what is held, sent or dropped keeps its order.
  pub rationalize-Rationalizes :
      (now : ℕ) (clocks : ℕ → ℕ → Clock) (q : LinkQueue Q)
      → IsLink q
      → now + 2 * last (place q) < 2 ^ 64
      → Returns (Rationalizes now q) (rationalize ops rate now clocks q)
  unfolding rationalize
  rationalize-Rationalizes now clocks q v bound =
      loop-Rationalizes (suc ((now + 1) * length q.schedule)) now clocks q v bound
        (omega (arith, remaining-le now (place q)))
