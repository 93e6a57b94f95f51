-- ===== src/Link/Deliver.antt =====
-- One delivery opportunity: the inner loop of `rationalize`.
use octopus_mahimahi.Common.{
  ◌%◌, ◌^◌, ℕ, zero, suc, ◌+◌, ◌-◌, ◌≤◌, ◌<◌, ◌≡◌, ◌⊎◌, inl, inr, refl, ap, ◌∙◌, false, [], ◌∷◌,
  ◌++◌, arith, Result, ok, Returns, Returns-bind, Returns-map, ◌>>=◌, leb, ◌==◌, Bool-cases,
  List-cases, Option-cases, min, le→leb, lt→ltb, leb→le,
}
use octopus_mahimahi.Packet.{QueuedPacket, size}
use octopus_mahimahi.Queue.Abstract.{Clock, PacketQueue, IsQueue, Kept, Kept-self, Kept-All}
use octopus_mahimahi.Queue.Counts.{Fits}
use octopus_mahimahi.Link.State.{LinkQueue, Loaded, idle, busy}
use octopus_mahimahi.Link.Held.{
  bytes_out, bytes_out-append, sent, place, held, Moves, Moves-trans, Moves-still, CanSend,
  held-busy, held-idle,
}
use octopus_mahimahi.Link.{record_departure, complete, load, send, deliver}

module _ {Q : Type 0} {ops : PacketQueue Q} (laws : IsQueue ops) (rate : ℕ → ℕ → ℕ) where
  -- After the first part of the inner loop. If it breaks, nothing is held.
  abbrev Loads : ℕ → LinkQueue Q → Loaded Q → Type 0
  Loads t q (idle q') =
      (held laws q' ≡ [])
      × CanSend laws t q'
      × Moves laws q q'
      × (place q' ≡ place q)
      × (sent q' ≡ sent q)
  Loads t q (busy q') =
      CanSend laws t q'
      × Moves laws q q'
      × (place q' ≡ place q)
      × (sent q' ≡ sent q)
      × (0 < q'.packet_in_transit_bytes_left)

  Loads-dequeued :
      (t : ℕ) (q : LinkQueue Q) (p : QueuedPacket) (rest : Q)
      → CanSend laws t q
      → q.packet_in_transit_bytes_left ≡ 0
      → laws.IsValid rest
      → Kept (p ∷ laws.packets rest) (laws.packets q.packet_queue)
      → Loads t q (
          busy (record q {
            packet_queue = rest;
            packet_in_transit = p;
            packet_in_transit_bytes_left = size p % 2 ^ 32;
          }))
  Loads-dequeued t q p rest c z v k =
      let fits = (Kept-All Fits k (laws.fit q.packet_queue c.valid)).0 in
      let some_left : 0 < size p % 2 ^ 32 = omega (arith, fits) in
      let held' = held-busy laws q' some_left in
      let held_before : held laws q ≡ laws.packets q.packet_queue = ground arith in
      (
        record {
          valid = v;
          small = omega (arith, fits);
          whole = omega arith;
          timely = rw held' (Kept-All (λ p. p.arrival_time ≤ t) k (rw held_before at c.timely));
        },
        Moves-still laws refl (rw (held', held_before) k),
        refl,
        ground arith,
        some_left,
      )
    where
      q' : LinkQueue Q
      q' = record q {
        packet_queue = rest;
        packet_in_transit = p;
        packet_in_transit_bytes_left = size p % 2 ^ 32;
      }

  load-Loads :
      (t : ℕ) (clock : Clock) (q : LinkQueue Q)
      → CanSend laws t q
      → Returns (Loads t q) (load ops rate clock q)
  unfolding load
  load-Loads t clock q c = elim (Bool-cases (q.packet_in_transit_bytes_left == 0)) [
    | inr b ↦ rw b (c, Moves-still laws refl (Kept-self _), refl, refl, ground arith)
    | inl b ↦ elim (List-cases (laws.packets q.packet_queue)) [
      | inl e ↦
          rw (b, laws.empty_lem q.packet_queue, e)
            (
              rw (b, e),
              record { valid = c.valid; small = c.small; whole = c.whole; timely = c.timely },
              Moves-still laws refl (Kept-self _),
              refl,
              refl,
            )
      | inr (p, rest, e) ↦
          rw (b, laws.empty_lem q.packet_queue, e)
            (Returns-bind _ (Loads t q) (ops.dequeue clock q.packet_queue) _
              (laws.dequeue_lem clock q.packet_queue c.valid (rw e (λ h. cc)))
              λ r h. Loads-dequeued t q r.0 r.1 c (ground arith) h.0 h.1)
    ]
  ]

  -- What the end of a packet changes, the log and the measured rate aside.
  record Completes (q q' : LinkQueue Q) : Type 0 where
    same_queue : q'.packet_queue ≡ q.packet_queue
    same_left : q'.packet_in_transit_bytes_left ≡ q.packet_in_transit_bytes_left
    output : q'.output_queue ≡ q.output_queue ++ q.packet_in_transit.contents ∷ []
    same_place : place q' ≡ place q

  complete-Completes :
      (t : ℕ) (q : LinkQueue Q)
      → laws.IsValid q.packet_queue
      → Returns (Completes q) (complete ops rate t q)
  unfolding complete record_departure
  complete-Completes t q v = elim (Option-cases q.log) [
    | inl e ↦
        rw e (record { same_queue = refl; same_left = refl; output = refl; same_place = refl })
    | inr (lines, e) ↦
        rw (e, laws.size_packets_lem q.packet_queue v)
          (record { same_queue = refl; same_left = refl; output = refl; same_place = refl })
  ]

  -- One round sends what fits of the packet in transit.
  abbrev Sends : ℕ → ℕ → LinkQueue Q → ℕ × LinkQueue Q → Type 0
  Sends t left q (left', q') =
      CanSend laws t q'
      × Moves laws q q'
      × (place q' ≡ place q)
      × (sent q' + left' ≡ sent q + left)
      × (left' < left)

  Sends-done :
      (t left : ℕ) (q q' : LinkQueue Q)
      → CanSend laws t q
      → 0 < q.packet_in_transit_bytes_left
      → q.packet_in_transit_bytes_left ≤ left
      → Completes (record q { packet_in_transit_bytes_left = 0 }) q'
      → Sends t left q (left - q.packet_in_transit_bytes_left, q')
  Sends-done t left q q' c b l h = (
    record {
      valid = rw h.same_queue c.valid;
      small = omega (arith, h.same_left);
      whole = omega (arith, h.same_left);
      timely = rw (after, h.same_queue) (rw before at c.timely).1;
    },
    record {
      departed = q.packet_in_transit ∷ [];
      output = h.output;
      kept = rw (after, before, h.same_queue) (Kept-self _);
    },
    h.same_place,
    ground (
      arith,
      h.same_left,
      c.whole,
      ap bytes_out h.output,
      bytes_out-append q.output_queue (q.packet_in_transit.contents ∷ []),
    ),
    omega arith,
  )
    where
      before : held laws q ≡ q.packet_in_transit ∷ laws.packets q.packet_queue
      before = held-busy laws q b

      after : held laws q' ≡ laws.packets q'.packet_queue
      after = held-idle laws q' h.same_left

  Sends-more :
      (t left : ℕ) (q : LinkQueue Q)
      → CanSend laws t q
      → 0 < left
      → left < q.packet_in_transit_bytes_left
      → Sends t left q
          (0, record q { packet_in_transit_bytes_left = q.packet_in_transit_bytes_left - left })
  Sends-more t left q c l b = (
    record {
      valid = c.valid;
      small = omega (arith, c.small);
      whole = omega (arith, c.whole);
      timely = rw after (rw before at c.timely);
    },
    Moves-still laws refl (rw (after, before) (Kept-self _)),
    refl,
    ground (arith, c.whole),
    l,
  )
    where
      q' : LinkQueue Q
      q' = record q { packet_in_transit_bytes_left = q.packet_in_transit_bytes_left - left }

      before : held laws q ≡ q.packet_in_transit ∷ laws.packets q.packet_queue
      before = held-busy laws q (omega arith)

      after : held laws q' ≡ q.packet_in_transit ∷ laws.packets q.packet_queue
      after = held-busy laws q' (omega arith)

  send-Sends :
      (t left : ℕ) (q : LinkQueue Q)
      → CanSend laws t q
      → 0 < q.packet_in_transit_bytes_left
      → 0 < left
      → Returns (Sends t left q) (send ops rate t left q)
  unfolding send
  send-Sends t left q c b l =
      rw (le→leb _ _ arrived, le→leb _ _ c.small, lt→ltb _ _ b, le→leb _ _ c.whole)
        (elim (Bool-cases (leb q.packet_in_transit_bytes_left left)) [
          | inl e ↦
              let fits : q.packet_in_transit_bytes_left ≤ left = leb→le _ _ e in
              let all : min left q.packet_in_transit_bytes_left ≡ q.packet_in_transit_bytes_left =
                omega arith in
              let none_left : q.packet_in_transit_bytes_left - q.packet_in_transit_bytes_left ≡ 0 =
                omega arith in
              rw (all, none_left)
                (Returns-bind _ (Sends t left q) (complete ops rate t _) _
                  (complete-Completes t (record q { packet_in_transit_bytes_left = 0 }) c.valid)
                  (λ q' h. Sends-done t left q q' c b fits h))
          | inr e ↦
              let less : left < q.packet_in_transit_bytes_left = ground arith in
              let all : min left q.packet_in_transit_bytes_left ≡ left = omega arith in
              let rest : (q.packet_in_transit_bytes_left - left == 0) ≡ false = ground arith in
              let none_left : left - left ≡ 0 = omega arith in
              rw (all, rest, none_left) (Sends-more t left q c l less)
        ])
    where
      arrived : q.packet_in_transit.arrival_time ≤ t
      arrived = (rw (held-busy laws q b) at c.timely).0

  -- What one delivery opportunity with `left` bytes does: it uses up all of them, unless nothing
  -- is left to send.
  pub record Delivers (t left : ℕ) (q q' : LinkQueue Q) : Type 0 where
    pub can_send : CanSend laws t q'
    pub moves : Moves laws q q'
    pub same_place : place q' ≡ place q
    pub at_most : sent q' ≤ sent q + left
    pub all_used : (sent q' ≡ sent q + left) ⊎ (held laws q' ≡ [])

  Delivers-idle : (t left : ℕ) {q q' : LinkQueue Q} → Loads t q (idle q') → Delivers t left q q'
  Delivers-idle t left (e, c, m, s, n) = record {
    can_send = c;
    moves = m;
    same_place = s;
    at_most = omega arith;
    all_used = inr e;
  }

  Delivers-busy :
      (t left : ℕ) {q q1 q2 q' : LinkQueue Q} {left' : ℕ}
      → Loads t q (busy q1)
      → Sends t left q1 (left', q2)
      → Delivers t left' q2 q'
      → Delivers t left q q'
  Delivers-busy t left (c, m, s, n, b) (c', m', s', n', d') d = record {
    can_send = d.can_send;
    moves = Moves-trans laws m (Moves-trans laws m' d.moves);
    same_place = d.same_place ∙ (s' ∙ s);
    at_most = omega (arith, d.at_most);
    all_used = elim d.all_used [ inl e ↦ inl (omega arith) | inr e ↦ inr e ];
  }

  deliver_step :
      (fuel t left : ℕ) (clocks : ℕ → Clock) (q : LinkQueue Q)
      → CanSend laws t q
      → 0 < left
      → ((left' : ℕ) (q2 : LinkQueue Q)
          → CanSend laws t q2
          → left' < left
          → Returns (Delivers t left' q2) (deliver ops rate fuel t left' clocks q2))
      → Returns (Delivers t left q) (deliver ops rate (suc fuel) t left clocks q)
  unfolding deliver
  deliver_step fuel t left clocks q c l later =
      let more : (left == 0) ≡ false = ground arith in
      rw (more, deliver)
        (Returns-bind (Loads t q) (Delivers t left q) (load ops rate (clocks fuel) q) _
          (load-Loads t (clocks fuel) q c) after)
    where
      after :
          (m : Loaded Q)
          → Loads t q m
          → Returns (Delivers t left q) (elim m as (λ _. Result (LinkQueue Q)) [
            | idle q1 ↦ ok q1
            | busy q1 ↦ send ops rate t left q1 >>= λ r. deliver ops rate fuel t r.0 clocks r.1
          ])
      after (idle q1) h = Delivers-idle t left h
      after (busy q1) h =
          Returns-bind (Sends t left q1) (Delivers t left q) (send ops rate t left q1) _
            (send-Sends t left q1 h.0 h.4 l)
            λ r s.
              Returns-map (Delivers t r.0 r.1) (Delivers t left q) _ (later r.0 r.1 s.0 s.4)
                λ q' d. Delivers-busy t left h s d

  -- When the link may send at time `t`, an opportunity of `left` bytes, with more fuel than
  -- that, returns. It sends at most `left` bytes, and exactly `left` unless the link holds
  -- nothing afterwards; the packets leave in order, the place in the trace is the same, and
  -- the link may still send at `t`.
  pub deliver-Delivers :
      (fuel t left : ℕ) (clocks : ℕ → Clock) (q : LinkQueue Q)
      → CanSend laws t q
      → left < fuel
      → Returns (Delivers t left q) (deliver ops rate fuel t left clocks q)
  deliver-Delivers zero t left clocks q c h = elim h [ ]
  deliver-Delivers (suc fuel) t zero clocks q c h =
      unfold deliver in
      record {
        can_send = c;
        moves = Moves-still laws refl (Kept-self _);
        same_place = refl;
        at_most = omega arith;
        all_used = inl (omega arith);
      }
  deliver-Delivers (suc fuel) t (suc left) clocks q c h =
      deliver_step fuel t (suc left) clocks q c (omega arith)
        λ left' q2 c2 less. deliver-Delivers fuel t left' clocks q2 c2 (omega arith)
