-- ===== src/ByteStream/Tests.antt =====
-- Tests of the ring, and instances of its theorems.
use octopus_mahimahi.Common.{
  ℕ, ◌≡◌, ◌≤◌, zero, suc, refl, [], ◌∷◌, arith, length, take, ok, Returns,
}
use octopus_mahimahi.Packet.{Bytes}
use octopus_mahimahi.ByteStream.Ring.{IsValid}
use octopus_mahimahi.ByteStream.Transfers.{Pushes, push-Pushes, Pops, pop-Pops}
use octopus_mahimahi.ByteStream.{
  ByteStreamQueue, success, push, pop, space_available, available_to_push, contiguous_space_to_push,
  non_empty, available_to_pop, store,
}

-- Five bytes, of which three are held, the last one at the start of the buffer.
abbrev ring : ByteStreamQueue
ring = record { buffer = 3 ∷ 9 ∷ 9 ∷ 1 ∷ 2 ∷ []; next_byte_to_push = 1; next_byte_to_pop = 3 }

ring-IsValid : IsValid ring
ring-IsValid = record {
  sized = omega arith;
  small = omega arith;
  push_lt = omega arith;
  pop_lt = omega arith;
}

abbrev seven : Bytes
seven = 4 ∷ 5 ∷ 6 ∷ 7 ∷ 8 ∷ 9 ∷ 10 ∷ []

length-take-le : (n : ℕ) (bs : Bytes) → length (take n bs) ≤ n
length-take-le zero bs = omega arith
length-take-le (suc n) [] = omega arith
length-take-le (suc n) (b ∷ bs) = omega (arith, length-take-le n bs)

push_one :
    push (λ n. take n seven) ring
    ≡ ok (success, record ring { buffer = 3 ∷ 4 ∷ 9 ∷ 1 ∷ 2 ∷ []; next_byte_to_push = 2 })
unfolding push space_available available_to_push contiguous_space_to_push non_empty available_to_pop
    store
push_one = refl

push-Pushes_example : Returns (Pushes (λ n. take n seven) ring) (push (λ n. take n seven) ring)
push-Pushes_example =
    push-Pushes (λ n. take n seven) ring ring-IsValid (omega arith) (λ n. length-take-le n seven)

pop-Pops_example : Returns (Pops ring) (pop length ring)
pop-Pops_example = pop-Pops length ring ring-IsValid (omega arith) (λ b h. (h, omega arith))
