-- ===== src/Loss/Passed.antt =====
-- What passes through the queues.
use octopus_mahimahi.Common.{
  ◌≡◌, ap, ◌∙◌, sym, inl, inr, not, Bool, true, false, List, [], ◌∷◌, ◌++◌, append_assoc,
  append-nil, Bool-cases, if◌then◌else◌,
}
use octopus_mahimahi.Packet.{Bytes}
use octopus_mahimahi.Loss.{LossQueue, write_loop, read_packet, write_packets}

write_loop-all : (written ps : List Bytes) → write_loop written ps ≡ (written ++ ps, [])
unfolding write_loop
write_loop-all written [] = ap (λ w. (w, [])) (sym (append-nil written))
write_loop-all written (c ∷ ps) =
    write_loop-all (written ++ c ∷ []) ps ∙ ap (λ w. (w, [])) (append_assoc written (c ∷ []) ps)

module _ {G : Type 0} (drop_packet : Bytes → G → Bool × G) where
  -- Packets read one after another.
  pub read_all : List Bytes → LossQueue G → LossQueue G
  read_all [] q = q
  read_all (c ∷ cs) q = read_all cs (read_packet drop_packet c q)

  -- The packets that the draws from a state spare.
  pub spared : List Bytes → G → List Bytes
  spared [] g = []
  spared (c ∷ cs) g =
      let (dropped, g') = drop_packet c g in
      let rest = spared cs g' in if dropped then rest else c ∷ rest

  read_packet_dropped :
      (c : Bytes) (q : LossQueue G)
      → (drop_packet c q.prng).0 ≡ true
      → read_packet drop_packet c q ≡ record q { prng = (drop_packet c q.prng).1 }
  unfolding read_packet
  read_packet_dropped c q y =
      ap
        (λ b.
          if not b
          then record { packet_queue = q.packet_queue ++ c ∷ []; prng = (drop_packet c q.prng).1 }
          else record q { prng = (drop_packet c q.prng).1 })
        y

  read_packet_kept :
      (c : Bytes) (q : LossQueue G)
      → (drop_packet c q.prng).0 ≡ false
      → read_packet drop_packet c q
        ≡ record { packet_queue = q.packet_queue ++ c ∷ []; prng = (drop_packet c q.prng).1 }
  unfolding read_packet
  read_packet_kept c q n =
      ap
        (λ b.
          if not b
          then record { packet_queue = q.packet_queue ++ c ∷ []; prng = (drop_packet c q.prng).1 }
          else record q { prng = (drop_packet c q.prng).1 })
        n

  read_all-spared :
      (cs : List Bytes) (q : LossQueue G)
      → (read_all cs q).packet_queue ≡ q.packet_queue ++ spared cs q.prng
  unfolding read_all spared
  read_all-spared [] q = sym (append-nil q.packet_queue)
  read_all-spared (c ∷ cs) q = elim (Bool-cases (drop_packet c q.prng).0) [
    | inl y ↦
        let q1 = record q { prng = (drop_packet c q.prng).1 } in
        ap (λ r. (read_all cs r).packet_queue) (read_packet_dropped c q y)
        ∙ (read_all-spared cs q1
            ∙ ap (λ b. q.packet_queue ++ (if b then spared cs q1.prng else c ∷ spared cs q1.prng))
                (sym y))
    | inr n ↦
        let q1 : LossQueue G = record {
          packet_queue = q.packet_queue ++ c ∷ [];
          prng = (drop_packet c q.prng).1;
        } in
        ap (λ r. (read_all cs r).packet_queue) (read_packet_kept c q n)
        ∙ (read_all-spared cs q1
            ∙ (append_assoc q.packet_queue (c ∷ []) (spared cs q1.prng)
                ∙ ap
                    (λ b.
                      q.packet_queue ++ (if b then spared cs q1.prng else c ∷ spared cs q1.prng))
                    (sym n)))
  ]

  -- After any packets have been read, `write_packets` writes those held before and those that the
  -- draws have spared, in order, and leaves none.
  pub write_packets-spared :
      (cs : List Bytes) (q : LossQueue G)
      → ((write_packets (read_all cs q)).0 ≡ q.packet_queue ++ spared cs q.prng)
        × ((write_packets (read_all cs q)).1.packet_queue ≡ [])
  unfolding write_packets
  write_packets-spared cs q =
      let w = write_loop-all [] (read_all cs q).packet_queue in
      (ap (λ r. r.0) w ∙ read_all-spared cs q, ap (λ r. r.1) w)
