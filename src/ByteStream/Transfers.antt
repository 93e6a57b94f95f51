-- ===== src/ByteStream/Transfers.antt =====
-- The ring behaves as a bounded FIFO of bytes.
use octopus_mahimahi.Common.{
  ℕ, ◌+◌, ◌≤◌, ◌<◌, ◌≡◌, inl, inr, refl, ap, sym, subst, ◌∙◌, List-cases, true, [], ◌∷◌, ◌++◌,
  append_assoc, append-nil, arith, length, length-append, null, take, drop, leb, ltb, if◌then◌else◌,
  Returns, ok, add64, sub64,
}
use octopus_mahimahi.Packet.{Bytes}
use octopus_mahimahi.ByteStream.Ring.{
  IsValid, contents, IsStraight, IsWrapped, length-layout, contents-IsStraight, contents-IsWrapped,
  IsValid-cases, split, take-append_length, drop-append_length,
}
use octopus_mahimahi.ByteStream.{
  ByteStreamQueue, Outcome, success, end_of_file, available_to_pop, available_to_push,
  space_available, non_empty, contiguous_space_to_push, contiguous_space_to_pop, around, offered,
  store, push, pop,
}
use octopus_mahimahi.ByteStream.Fifo.{
  available_to_pop-contents, available_to_push-contents, push_space, push_space_more,
  store-contents,
}

-- A push reads no more bytes than there is room for, and holds them behind the others.
pub record Pushes (read : ℕ → Bytes) (q : ByteStreamQueue) (r : Outcome × ByteStreamQueue)
    : Type 0 where
  pub valid : IsValid r.1
  pub held : contents r.1 ≡ contents q ++ read (contiguous_space_to_push q)
  pub outcome : r.0 ≡ (if null (read (contiguous_space_to_push q)) then end_of_file else success)

-- A push into a valid ring that is not full, from a descriptor that gives no more than it is asked
-- for, returns a valid ring that holds the bytes read behind those it held, in order.
pub push-Pushes :
    (read : ℕ → Bytes) (q : ByteStreamQueue)
    → IsValid q
    → length (contents q) + 1 < length q.buffer
    → ((n : ℕ) → length (read n) ≤ n)
    → Returns (Pushes read q) (push read q)
unfolding push space_available non_empty
push-Pushes read q v f k =
    let free = available_to_push-contents q v in
    let space : ltb 0 (available_to_push q) ≡ true = ground (arith, free, f) in
    let more = push_space_more q v (omega (arith, free, f)) in
    let some_space : ltb 0 (contiguous_space_to_push q) ≡ true = ground (arith, more) in
    let chunk = read (contiguous_space_to_push q) in
    let room = push_space q v in
    let few = k (contiguous_space_to_push q) in
    rw (space, some_space)
      (elim (List-cases chunk) [
        | inl e ↦
            rw (ap null e) (record {
              valid = v;
              held = rw e (sym (append-nil (contents q)));
              outcome = rw e refl;
            })
        | inr (b, r, e) ↦
            let n = ap null e in
            let ln = ap length e in
            let fits : leb (length chunk) (sub64 (length q.buffer) q.next_byte_to_push) ≡ true =
              ground (arith, room, few, v.small, v.push_lt) in
            let inside : ltb q.next_byte_to_push (length q.buffer) ≡ true =
              ground (arith, v.push_lt) in
            let ends : leb (add64 q.next_byte_to_push (length chunk)) (length q.buffer) ≡ true =
              ground (arith, room, few, v.small) in
            let st =
              store-contents chunk q v (omega (arith, ln)) (omega (arith, room, few))
                (omega (arith, room, few)) in
            let left : ltb 0 (available_to_pop (store chunk q)) ≡ true = ground (
              arith,
              available_to_pop-contents (store chunk q) st.0,
              ap length st.1,
              length-append (contents q) chunk,
              ln,
            ) in
            rw (n, fits, inside, ends, left)
              (record { valid = st.0; held = st.1; outcome = rw n refl })
      ])

-- A pop takes a byte or more from the front.
pub record Pops (q : ByteStreamQueue) (r : Bytes × ByteStreamQueue) : Type 0 where
  pub valid : IsValid r.1
  pub some_byte : 0 < length r.0
  pub order : contents q ≡ r.0 ++ contents r.1

-- The ring after the first bytes of the one piece, `d ++ e`, have gone.
pop-IsStraight :
    (a d e c : Bytes) (q : ByteStreamQueue)
    → IsValid q
    → IsStraight q a (d ++ e) c
    → 0 < length d
    → q.next_byte_to_pop + length d < length q.buffer
    → Pops q (d, record q { next_byte_to_pop = q.next_byte_to_pop + length d })
pop-IsStraight a d e c q v s m h = record {
  valid = record { sized = v.sized; small = v.small; push_lt = v.push_lt; pop_lt = h };
  some_byte = m;
  order = contents-IsStraight q a (d ++ e) c s ∙ ap (λ t. d ++ t) (sym after);
}
  where
    after : contents (record q { next_byte_to_pop = q.next_byte_to_pop + length d }) ≡ e
    after =
        contents-IsStraight (record q { next_byte_to_pop = q.next_byte_to_pop + length d }) (a ++ d)
          e c
          (record {
            layout =
                s.layout
                ∙ (ap (λ t. a ++ t) (append_assoc d e c) ∙ sym (append_assoc a d (e ++ c)));
            pop_at = omega (arith, s.pop_at, length-append a d);
            push_at = omega (arith, s.push_at, length-append a d, length-append d e);
          })

-- The ring after the first bytes of the piece at the end, `d ++ e`, have gone.
pop-IsWrapped :
    (a b d e : Bytes) (q : ByteStreamQueue)
    → IsValid q
    → IsWrapped q a b (d ++ e)
    → 0 < length d
    → Pops q
        (d, record q { next_byte_to_pop = if null e then 0 else q.next_byte_to_pop + length d })
pop-IsWrapped a b d [] q v s m = record {
  valid = record {
    sized = v.sized;
    small = v.small;
    push_lt = v.push_lt;
    pop_lt = omega (arith, v.sized);
  };
  some_byte = m;
  order =
      contents-IsWrapped q a b (d ++ []) s
      ∙ (ap (λ t. t ++ a) (append-nil d) ∙ ap (λ t. d ++ t) (sym after));
}
  where
    after : contents (record q { next_byte_to_pop = 0 }) ≡ a
    after =
        contents-IsStraight (record q { next_byte_to_pop = 0 }) [] a (b ++ (d ++ []))
          (record { layout = s.layout; pop_at = refl; push_at = omega (arith, s.push_at) })
pop-IsWrapped a b d (w ∷ e) q v s m = record {
  valid = record {
    sized = v.sized;
    small = v.small;
    push_lt = v.push_lt;
    pop_lt =
        omega (arith, s.pop_at, length-layout a b (d ++ w ∷ e) s.layout, length-append d (w ∷ e));
  };
  some_byte = m;
  order =
      contents-IsWrapped q a b (d ++ w ∷ e) s
      ∙ (append_assoc d (w ∷ e) a ∙ ap (λ t. d ++ t) (sym after));
}
  where
    after : contents (record q { next_byte_to_pop = q.next_byte_to_pop + length d }) ≡ (w ∷ e) ++ a
    after =
        contents-IsWrapped (record q { next_byte_to_pop = q.next_byte_to_pop + length d }) a
          (b ++ d) (w ∷ e)
          (record {
            layout = s.layout ∙ ap (λ t. a ++ t) (sym (append_assoc b d (w ∷ e)));
            push_at = s.push_at;
            pop_at = omega (arith, s.pop_at, length-append b d);
            room = omega (arith, s.room, length-append b d);
          })

around-end :
    (q : ByteStreamQueue) (n : ℕ) (e : Bytes)
    → length q.buffer ≡ n + length e
    → around q n ≡ (if null e then 0 else n)
around-end q n [] h = ground (arith, h)
around-end q n (w ∷ e) h = ground (arith, h)

-- The end of the pop is not before its start.
ordered :
    (q : ByteStreamQueue)
    → IsValid q
    → leb q.next_byte_to_pop (add64 q.next_byte_to_pop (contiguous_space_to_pop q)) ≡ true
unfolding contiguous_space_to_pop available_to_pop
ordered q v = ground (arith, v.sized, v.small, v.push_lt, v.pop_lt)

-- One pop, given what is offered and the part of it that is written.
pop_step :
    (write : Bytes → ℕ) (d e : Bytes) (q : ByteStreamQueue)
    → IsValid q
    → offered q ≡ d ++ e
    → length d ≡ write (offered q)
    → 0 < available_to_pop q
    → q.next_byte_to_pop + length d ≤ length q.buffer
    → pop write q ≡ ok (d, record q { next_byte_to_pop = around q (q.next_byte_to_pop + length d) })
unfolding pop non_empty
pop_step write d e q v o l f h =
    let some_byte : ltb 0 (available_to_pop q) ≡ true = ground (arith, f) in
    let inside : leb (q.next_byte_to_pop + write (offered q)) (length q.buffer) ≡ true =
      ground (arith, h, l) in
    let part : take (write (offered q)) (offered q) ≡ d =
      ap (take (write (offered q))) o ∙ take-append_length d e (write (offered q)) (sym l) in
    rw (some_byte, ordered q v, inside, part, sym l) refl

offered-IsStraight :
    (a b c : Bytes) (q : ByteStreamQueue) → IsValid q → IsStraight q a b c → offered q ≡ b
unfolding offered contiguous_space_to_pop
offered-IsStraight a b c q v s =
    let held = contents-IsStraight q a b c s in
    let n : available_to_pop q ≡ length b = available_to_pop-contents q v ∙ ap length held in
    let whole : contiguous_space_to_pop q ≡ length b =
      ground (arith, n, s.pop_at, s.push_at, v.push_lt, v.small) in
    ap (λ m. take m (drop q.next_byte_to_pop q.buffer)) whole
    ∙ (ap (take (length b)) (
          ap (drop q.next_byte_to_pop) s.layout
          ∙ drop-append_length a (b ++ c) q.next_byte_to_pop s.pop_at)
        ∙ take-append_length b c (length b) refl)

offered-IsWrapped :
    (a b c : Bytes) (q : ByteStreamQueue) → IsValid q → IsWrapped q a b c → offered q ≡ c
unfolding offered contiguous_space_to_pop
offered-IsWrapped a b c q v s =
    let held = contents-IsWrapped q a b c s in
    let sz = length-layout a b c s.layout in
    let n : available_to_pop q ≡ length c + length a =
      available_to_pop-contents q v ∙ (ap length held ∙ length-append c a) in
    let whole : contiguous_space_to_pop q ≡ length c =
      ground (arith, n, sz, s.pop_at, v.pop_lt, v.small) in
    ap (λ m. take m (drop q.next_byte_to_pop q.buffer)) whole
    ∙ (ap (take (length c)) (
          ap (drop q.next_byte_to_pop) (s.layout ∙ sym (append_assoc a b c))
          ∙ drop-append_length (a ++ b) c q.next_byte_to_pop
              (omega (arith, s.pop_at, length-append a b)))
        ∙ (ap (take (length c)) (sym (append-nil c)) ∙ take-append_length c [] (length c) refl))

-- A pop from a valid ring that holds bytes, into a descriptor that takes a byte or more of what it
-- is offered, returns a valid ring; what was held is what was written and then what is held now.
pub pop-Pops :
    (write : Bytes → ℕ) (q : ByteStreamQueue)
    → IsValid q
    → 0 < length (contents q)
    → ((b : Bytes) → 0 < length b → (0 < write b) × (write b ≤ length b))
    → Returns (Pops q) (pop write q)
pop-Pops write q v f k =
    let some_byte : 0 < available_to_pop q = omega (arith, available_to_pop-contents q v, f) in
    elim (IsValid-cases q v) [
      | inl (a, b, c, s) ↦
          let o = offered-IsStraight a b c q v s in
          let w =
            k (offered q)
              (omega (arith, ap length o, ap length (contents-IsStraight q a b c s), f)) in
          let (d, e, eb, l) = split b (write (offered q)) (omega (arith, w.1, ap length o)) in
          let small : q.next_byte_to_pop + length d < length q.buffer =
            omega (arith, s.pop_at, s.push_at, v.push_lt, l, w.1, ap length o) in
          let still : around q (q.next_byte_to_pop + length d) ≡ q.next_byte_to_pop + length d =
            ground (arith, small) in
          rw (pop_step write d e q v (o ∙ eb) l some_byte (omega (arith, small)), still)
            (pop-IsStraight a d e c q v (subst (λ t. IsStraight q a t c) eb s)
              (omega (arith, l, w.0)) small)
      | inr (a, b, c, s) ↦
          let o = offered-IsWrapped a b c q v s in
          let sz = length-layout a b c s.layout in
          let w = k (offered q) (omega (arith, ap length o, sz, s.pop_at, v.pop_lt)) in
          let (d, e, ec, l) = split c (write (offered q)) (omega (arith, w.1, ap length o)) in
          let lde = length-append d e in
          let le = ap length ec in
          rw
            (
              pop_step write d e q v (o ∙ ec) l some_byte (omega (arith, sz, s.pop_at, lde, le)),
              around-end q (q.next_byte_to_pop + length d) e (omega (arith, sz, s.pop_at, lde, le)),
            )
            (pop-IsWrapped a b d e q v (subst (λ t. IsWrapped q a b t) ec s)
              (omega (arith, l, w.0)))
    ]
