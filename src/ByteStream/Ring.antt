-- ===== src/ByteStream/Ring.antt =====
-- The bytes that a ring holds, in the two ways in which they can lie in its buffer.
use octopus_mahimahi.Common.{
  ℕ, zero, suc, ◌+◌, ◌-◌, ◌≤◌, ◌<◌, ◌^◌, ◌≡◌, ◌⊎◌, inl, inr, refl, ap, sym, ◌∙◌, Bool-cases, true,
  false, List, [], ◌∷◌, ◌++◌, append_assoc, arith, length, length-append, take, drop, replicate,
  Returns, lt→ltb, leb, if◌then◌else◌,
}
use octopus_mahimahi.Packet.{Bytes}
use octopus_mahimahi.ByteStream.{ByteStreamQueue, byte_stream_queue}

module _ {ℓ} {A : Type ℓ} where
  pub take-append_length : (xs ys : List A) (n : ℕ) → n ≡ length xs → take n (xs ++ ys) ≡ xs
  take-append_length [] ys zero e = refl
  take-append_length [] ys (suc n) e = absurd (omega (arith, e))
  take-append_length (x ∷ xs) ys zero e = absurd (omega (arith, e))
  take-append_length (x ∷ xs) ys (suc n) e =
      ap (λ r. x ∷ r) (take-append_length xs ys n (omega (arith, e)))

  pub drop-append_length : (xs ys : List A) (n : ℕ) → n ≡ length xs → drop n (xs ++ ys) ≡ ys
  drop-append_length [] ys zero e = refl
  drop-append_length [] ys (suc n) e = absurd (omega (arith, e))
  drop-append_length (x ∷ xs) ys zero e = absurd (omega (arith, e))
  drop-append_length (x ∷ xs) ys (suc n) e = drop-append_length xs ys n (omega (arith, e))

  pub split :
      (xs : List A) (n : ℕ)
      → n ≤ length xs
      → (a : List A) × (b : List A) × (xs ≡ a ++ b) × (length a ≡ n)
  split xs zero h = ([], xs, refl, refl)
  split [] (suc n) h = absurd (omega (arith, h))
  split (x ∷ xs) (suc n) h =
      let (a, b, e, l) = split xs n (omega (arith, h)) in
      (x ∷ a, b, ap (λ r. x ∷ r) e, omega (arith, l))

pub record IsValid (q : ByteStreamQueue) : Type 0 where
  pub sized : 1 < length q.buffer
  pub small : length q.buffer < 2 ^ 63
  pub push_lt : q.next_byte_to_push < length q.buffer
  pub pop_lt : q.next_byte_to_pop < length q.buffer

-- The bytes pushed and not yet popped, oldest first.
abbrev pub contents : ByteStreamQueue → Bytes
contents q =
    if leb q.next_byte_to_pop q.next_byte_to_push
    then take (q.next_byte_to_push - q.next_byte_to_pop) (drop q.next_byte_to_pop q.buffer)
    else drop q.next_byte_to_pop q.buffer ++ take q.next_byte_to_push q.buffer

-- The bytes held are in one piece, `b`.
pub record IsStraight (q : ByteStreamQueue) (a b c : Bytes) : Type 0 where
  pub layout : q.buffer ≡ a ++ (b ++ c)
  pub pop_at : q.next_byte_to_pop ≡ length a
  pub push_at : q.next_byte_to_push ≡ length a + length b

-- The bytes held are `c` and go on at the start of the buffer with `a`.
pub record IsWrapped (q : ByteStreamQueue) (a b c : Bytes) : Type 0 where
  pub layout : q.buffer ≡ a ++ (b ++ c)
  pub push_at : q.next_byte_to_push ≡ length a
  pub pop_at : q.next_byte_to_pop ≡ length a + length b
  pub room : 0 < length b

pub length-layout :
    {s : Bytes} (a b c : Bytes) → s ≡ a ++ (b ++ c) → length s ≡ length a + length b + length c
length-layout a b c e = omega (arith, ap length e, length-append a (b ++ c), length-append b c)

pub contents-IsStraight :
    (q : ByteStreamQueue) (a b c : Bytes) → IsStraight q a b c → contents q ≡ b
contents-IsStraight q a b c s =
    let ordered : leb q.next_byte_to_pop q.next_byte_to_push ≡ true =
      ground (arith, s.pop_at, s.push_at) in
    let n : q.next_byte_to_push - q.next_byte_to_pop ≡ length b =
      omega (arith, s.pop_at, s.push_at) in
    rw (ordered, n, s.layout, drop-append_length a (b ++ c) q.next_byte_to_pop s.pop_at)
      (take-append_length b c (length b) refl)

pub contents-IsWrapped :
    (q : ByteStreamQueue) (a b c : Bytes) → IsWrapped q a b c → contents q ≡ c ++ a
contents-IsWrapped q a b c s =
    let ordered : leb q.next_byte_to_pop q.next_byte_to_push ≡ false =
      ground (arith, s.pop_at, s.push_at, s.room) in
    let at_pop : drop q.next_byte_to_pop q.buffer ≡ c =
      rw (s.layout, sym (append_assoc a b c))
        (drop-append_length (a ++ b) c q.next_byte_to_pop
          (omega (arith, s.pop_at, length-append a b))) in
    rw (ordered, at_pop, s.layout, take-append_length a (b ++ c) q.next_byte_to_push s.push_at) refl

-- Every ring is laid out in one of the two ways.
pub IsValid-cases :
    (q : ByteStreamQueue)
    → IsValid q
    → ((a : Bytes) × (b : Bytes) × (c : Bytes) × IsStraight q a b c)
      ⊎ ((a : Bytes) × (b : Bytes) × (c : Bytes) × IsWrapped q a b c)
IsValid-cases q v = elim (Bool-cases (leb q.next_byte_to_pop q.next_byte_to_push)) [
  | inl o ↦
      let (ab, c, e, l) = split q.buffer q.next_byte_to_push (omega (arith, v.push_lt)) in
      let (a, b, e', l') = split ab q.next_byte_to_pop (ground (arith, o, l)) in
      inl (
        a,
        b,
        c,
        record {
          layout = e ∙ (ap (λ r. r ++ c) e' ∙ append_assoc a b c);
          pop_at = sym l';
          push_at = omega (arith, l, l', ap length e', length-append a b);
        },
      )
  | inr o ↦
      let (ab, c, e, l) = split q.buffer q.next_byte_to_pop (omega (arith, v.pop_lt)) in
      let (a, b, e', l') = split ab q.next_byte_to_push (ground (arith, o, l)) in
      inr (
        a,
        b,
        c,
        record {
          layout = e ∙ (ap (λ r. r ++ c) e' ∙ append_assoc a b c);
          push_at = sym l';
          pop_at = omega (arith, l, l', ap length e', length-append a b);
          room = ground (arith, o, l, l', ap length e', length-append a b);
        },
      )
]

length-replicate {ℓ} : {A : Type ℓ} (n : ℕ) (a : A) → length (replicate n a) ≡ n
length-replicate zero a = refl
length-replicate (suc n) a = omega (arith, length-replicate n a)

-- A new ring of two bytes or more is valid and holds nothing.
pub byte_stream_queue-IsValid :
    (size : ℕ)
    → 1 < size
    → size < 2 ^ 63
    → Returns (λ q. IsValid q × (contents q ≡ [])) (byte_stream_queue size)
unfolding byte_stream_queue
byte_stream_queue-IsValid size h s =
    let l = length-replicate {A = ℕ} size 0 in
    rw (lt→ltb 1 size h) (
      record {
        sized = omega (arith, l);
        small = omega (arith, l);
        push_lt = omega (arith, l);
        pop_lt = omega (arith, l);
      },
      refl,
    )
