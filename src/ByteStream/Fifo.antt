-- ===== src/ByteStream/Fifo.antt =====
-- A chunk is stored behind the bytes that a ring holds.
use octopus_mahimahi.Common.{
  ◌+◌, ◌≤◌, ◌<◌, ◌≡◌, inl, inr, refl, ap, ap₂, sym, subst, ◌∙◌, List-cases, true, false, [], ◌∷◌,
  ◌++◌, append_assoc, append-nil, arith, length, length-append, null, take, drop, ◌==◌,
  if◌then◌else◌, add64,
}
use octopus_mahimahi.Packet.{Bytes}
use octopus_mahimahi.ByteStream.Ring.{
  IsValid, contents, IsStraight, IsWrapped, length-layout, contents-IsStraight, contents-IsWrapped,
  IsValid-cases, split, take-append_length, drop-append_length,
}
use octopus_mahimahi.ByteStream.{
  ByteStreamQueue, available_to_pop, available_to_push, contiguous_space_to_push, store,
}

-- What can be popped is what is held.
pub available_to_pop-contents :
    (q : ByteStreamQueue) → IsValid q → available_to_pop q ≡ length (contents q)
unfolding available_to_pop
available_to_pop-contents q v = elim (IsValid-cases q v) [
  | inl (a, b, c, s) ↦
      rw (contents-IsStraight q a b c s) (ground (arith, s.pop_at, s.push_at, v.small, v.push_lt))
  | inr (a, b, c, s) ↦ rw (contents-IsWrapped q a b c s) (
      ground (
        arith,
        s.pop_at,
        s.push_at,
        s.room,
        v.small,
        v.push_lt,
        length-append c a,
        length-layout a b c s.layout,
      ))
]

-- One byte of the buffer stays free.
pub available_to_push-contents :
    (q : ByteStreamQueue)
    → IsValid q
    → available_to_push q + length (contents q) + 1 ≡ length q.buffer
unfolding available_to_push
available_to_push-contents q v = elim (IsValid-cases q v) [
  | inl (a, b, c, s) ↦
      rw (contents-IsStraight q a b c s)
        (ground (arith, s.pop_at, s.push_at, v.small, v.push_lt, length-layout a b c s.layout))
  | inr (a, b, c, s) ↦ rw (contents-IsWrapped q a b c s) (
      ground (
        arith,
        s.pop_at,
        s.push_at,
        s.room,
        v.small,
        v.push_lt,
        length-append c a,
        length-layout a b c s.layout,
      ))
]

-- A push does not go beyond the end of the buffer, and leaves a byte free.
pub push_space :
    (q : ByteStreamQueue)
    → IsValid q
    → (q.next_byte_to_push + contiguous_space_to_push q ≤ length q.buffer)
      × (contiguous_space_to_push q ≤ available_to_push q)
unfolding contiguous_space_to_push
push_space q v = let e = available_to_push-contents q v in ground (arith, v.small, v.push_lt, e)

pub push_space_more :
    (q : ByteStreamQueue) → IsValid q → 0 < available_to_push q → 0 < contiguous_space_to_push q
unfolding contiguous_space_to_push
push_space_more q v h =
    let e = available_to_push-contents q v in ground (arith, v.small, v.push_lt, e)

-- The ring after a chunk has been written over `y`, which stands before `z`.
abbrev over : Bytes → Bytes → Bytes → ByteStreamQueue → ByteStreamQueue
over x chunk z q = record q {
  buffer = x ++ (chunk ++ z);
  next_byte_to_push = if null z then 0 else length x + length chunk;
}

store-over :
    (x y z chunk : Bytes) (q : ByteStreamQueue)
    → IsValid q
    → q.buffer ≡ x ++ (y ++ z)
    → q.next_byte_to_push ≡ length x
    → length chunk ≡ length y
    → store chunk q ≡ over x chunk z q
unfolding store
store-over x y z chunk q v e at_x l =
    ap₂ (λ b n. record q { buffer = b; next_byte_to_push = n }) bytes moved
  where
    sz : length q.buffer ≡ length x + length y + length z
    sz = length-layout x y z e

    next : add64 q.next_byte_to_push (length chunk) ≡ length x + length y
    next = omega (arith, v.small, sz, l, at_x)

    kept : drop (add64 q.next_byte_to_push (length chunk)) q.buffer ≡ z
    kept =
        rw (e, sym (append_assoc x y z))
          (drop-append_length (x ++ y) z (add64 q.next_byte_to_push (length chunk))
            (omega (arith, next, length-append x y)))

    bytes :
        take q.next_byte_to_push q.buffer
          ++ (chunk ++ drop (add64 q.next_byte_to_push (length chunk)) q.buffer)
        ≡ x ++ (chunk ++ z)
    bytes =
        ap₂ (λ r t. r ++ (chunk ++ t))
          (ap (take q.next_byte_to_push) e ∙ take-append_length x (y ++ z) q.next_byte_to_push at_x)
          kept

    moved :
        (if add64 q.next_byte_to_push (length chunk) == length q.buffer
          then 0
          else add64 q.next_byte_to_push (length chunk))
        ≡ (if null z then 0 else length x + length chunk)
    moved = elim (List-cases z) [
      | inl n ↦ let o = ap length n in let t = ap null n in ground (arith, next, sz)
      | inr (w, r, n) ↦ let o = ap length n in let t = ap null n in ground (arith, next, sz)
    ]

-- The two ways in which a chunk is written behind the bytes held.
over-IsStraight :
    (a b c chunk z : Bytes) (q : ByteStreamQueue)
    → IsValid q
    → IsStraight q a b c
    → length c ≡ length chunk + length z
    → (null z ≡ true → 0 < length a)
    → IsValid (over (a ++ b) chunk z q) × (contents (over (a ++ b) chunk z q) ≡ b ++ chunk)
over-IsStraight a b c chunk [] q v s l m =
    let sz = length-layout a b c s.layout in
    let sz' = length-layout a b (chunk ++ []) (append_assoc a b (chunk ++ [])) in
    let end = length-append chunk [] in
    (
      record {
        sized = omega (arith, sz, sz', end, l, v.sized);
        small = omega (arith, sz, sz', end, l, v.small);
        push_lt = omega (arith, sz, sz', end, l, v.sized);
        pop_lt = omega (arith, sz, sz', end, l, v.pop_lt);
      },
      contents-IsWrapped (over (a ++ b) chunk [] q) [] a (b ++ chunk) (record {
        layout = append_assoc a b (chunk ++ []) ∙ ap (λ t. a ++ (b ++ t)) (append-nil chunk);
        push_at = refl;
        pop_at = omega (arith, s.pop_at);
        room = m refl;
      })
          ∙ append-nil (b ++ chunk),
    )
over-IsStraight a b c chunk (w ∷ r) q v s l m =
    let sz = length-layout a b c s.layout in
    let sz' = length-layout a b (chunk ++ w ∷ r) (append_assoc a b (chunk ++ w ∷ r)) in
    let end = length-append chunk (w ∷ r) in
    let ab = length-append a b in
    (
      record {
        sized = omega (arith, sz, sz', end, l, v.sized);
        small = omega (arith, sz, sz', end, l, v.small);
        push_lt = omega (arith, sz, sz', end, l, ab);
        pop_lt = omega (arith, sz, sz', end, l, v.pop_lt);
      },
      contents-IsStraight (over (a ++ b) chunk (w ∷ r) q) a (b ++ chunk) (w ∷ r) (record {
        layout =
            append_assoc a b (chunk ++ w ∷ r)
            ∙ ap (λ t. a ++ t) (sym (append_assoc b chunk (w ∷ r)));
        pop_at = s.pop_at;
        push_at = omega (arith, ab, length-append b chunk);
      }),
    )

over-IsWrapped :
    (a b c chunk z : Bytes) (q : ByteStreamQueue)
    → IsValid q
    → IsWrapped q a b c
    → length b ≡ length chunk + length z
    → 0 < length z
    → IsValid (over a chunk (z ++ c) q) × (contents (over a chunk (z ++ c) q) ≡ (c ++ a) ++ chunk)
over-IsWrapped a b c chunk z q v s l m = (
  record {
    sized = omega (arith, sz, sz', v.sized);
    small = omega (arith, sz, sz', v.small);
    push_lt = ground (arith, no_end, sz');
    pop_lt = omega (arith, sz, sz', v.pop_lt);
  },
  contents-IsWrapped (over a chunk (z ++ c) q) (a ++ chunk) z c (record {
    layout = sym (append_assoc a chunk (z ++ c));
    push_at = ground (arith, no_end, length-append a chunk);
    pop_at = omega (arith, s.pop_at, l, length-append a chunk);
    room = m;
  })
      ∙ sym (append_assoc c a chunk),
)
  where
    sz : length q.buffer ≡ length a + length b + length c
    sz = length-layout a b c s.layout

    sz' : length (a ++ (chunk ++ (z ++ c))) ≡ length a + length chunk + length z + length c
    sz' = omega (arith, length-layout a chunk (z ++ c) refl, length-append z c)

    no_end : null (z ++ c) ≡ false
    no_end = elim (List-cases z) [ inl n ↦ ground (arith, ap length n) | inr (w, r, n) ↦ rw n refl ]

-- A chunk that fits is held behind the bytes held so far.
pub store-contents :
    (chunk : Bytes) (q : ByteStreamQueue)
    → IsValid q
    → 0 < length chunk
    → q.next_byte_to_push + length chunk ≤ length q.buffer
    → length chunk ≤ available_to_push q
    → IsValid (store chunk q) × (contents (store chunk q) ≡ contents q ++ chunk)
unfolding store
store-contents chunk q v m h f = elim (IsValid-cases q v) [
  | inl (a, b, c, s) ↦
      let sz = length-layout a b c s.layout in
      let free = rw (contents-IsStraight q a b c s) at (available_to_push-contents q v) in
      let (y, z, e, l) = split c (length chunk) (omega (arith, s.push_at, sz, h)) in
      let whole = s.layout ∙ (sym (append_assoc a b c) ∙ ap (λ t. (a ++ b) ++ t) e) in
      let o =
        over-IsStraight a b c chunk z q v s (omega (arith, l, length-append y z, ap length e))
          (λ n. ground (arith, n, sz, free, f, l, length-append y z, ap length e)) in
      subst (λ q'. IsValid q' × (contents q' ≡ contents q ++ chunk))
        (sym (
          store-over (a ++ b) y z chunk q v whole (omega (arith, s.push_at, length-append a b))
            (sym l)))
        (o.0, o.1 ∙ ap (λ t. t ++ chunk) (sym (contents-IsStraight q a b c s)))
  | inr (a, b, c, s) ↦
      let sz = length-layout a b c s.layout in
      let free = rw (contents-IsWrapped q a b c s) at (available_to_push-contents q v) in
      let lca = length-append c a in
      let (y, z, e, l) = split b (length chunk) (omega (arith, sz, lca, free, f)) in
      let whole = s.layout ∙ ap (λ t. a ++ t) (ap (λ t. t ++ c) e ∙ append_assoc y z c) in
      let o =
        over-IsWrapped a b c chunk z q v s (omega (arith, l, length-append y z, ap length e))
          (omega (arith, sz, lca, free, f, l, length-append y z, ap length e)) in
      subst (λ q'. IsValid q' × (contents q' ≡ contents q ++ chunk))
        (sym (store-over a y (z ++ c) chunk q v whole s.push_at (sym l)))
        (o.0, o.1 ∙ ap (λ t. t ++ chunk) (sym (contents-IsWrapped q a b c s)))
]
