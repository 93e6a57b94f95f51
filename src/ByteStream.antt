-- ===== src/ByteStream.antt =====
-- src/util/bytestream_queue.hh and .cc: a ring of bytes between two descriptors.
pub mod Ring
pub mod Fifo
pub mod Transfers
mod Tests
use octopus_mahimahi.Common.{
  ℕ, ◌+◌, ◌≡◌, Bool, true, false, List, ◌++◌, Result, ok, thrown, check, assert, ◌>>=◌, ◌>>◌,
  length, null, take, drop, replicate, leb, ltb, ◌==◌, if◌then◌else◌, add64, sub64,
}
use octopus_mahimahi.Packet.{Bytes}

pub record ByteStreamQueue : Type 0 where
  pub buffer : Bytes
  pub next_byte_to_push : ℕ
  pub next_byte_to_pop : ℕ

unfoldable pub byte_stream_queue : ℕ → Result ByteStreamQueue
byte_stream_queue size = do
  assert (ltb 1 size)
  ok (record { buffer = replicate size 0; next_byte_to_push = 0; next_byte_to_pop = 0 })

-- `ByteStreamQueue::Result`.
pub data Outcome : Type 0 where
  success end_of_file : Outcome

unfoldable pub eof : Outcome → Bool
eof success = false
eof end_of_file = true

unfoldable pub available_to_pop : ByteStreamQueue → ℕ
available_to_pop q =
    add64 (sub64 q.next_byte_to_push q.next_byte_to_pop)
      (if ltb q.next_byte_to_push q.next_byte_to_pop then length q.buffer else 0)

unfoldable pub available_to_push : ByteStreamQueue → ℕ
available_to_push q =
    add64 (sub64 (sub64 q.next_byte_to_pop q.next_byte_to_push) 1)
      (if ltb q.next_byte_to_push q.next_byte_to_pop then 0 else length q.buffer)

unfoldable pub space_available : ByteStreamQueue → Bool
space_available q = ltb 0 (available_to_push q)

unfoldable pub non_empty : ByteStreamQueue → Bool
non_empty q = ltb 0 (available_to_pop q)

-- A position of the ring that has come to its end goes back to its start.
abbrev pub around : ByteStreamQueue → ℕ → ℕ
around q n = if n == length q.buffer then 0 else n

unfoldable pub contiguous_space_to_push : ByteStreamQueue → ℕ
contiguous_space_to_push q =
    if leb (length q.buffer) (add64 q.next_byte_to_push (available_to_push q))
    then sub64 (length q.buffer) q.next_byte_to_push
    else available_to_push q

-- `memcpy` into the buffer, and the move of `next_byte_to_push` behind it.
unfoldable pub store : Bytes → ByteStreamQueue → ByteStreamQueue
store new_chunk q =
    let next = add64 q.next_byte_to_push (length new_chunk) in
    record q {
      buffer = take q.next_byte_to_push q.buffer ++ (new_chunk ++ drop next q.buffer);
      next_byte_to_push = around q next;
    }

-- `read n` is what the descriptor gives when it is asked for `n` bytes.
unfoldable pub push : (ℕ → Bytes) → ByteStreamQueue → Result (Outcome × ByteStreamQueue)
push read q = do
  assert (space_available q)
  let contiguous = contiguous_space_to_push q
  assert (ltb 0 contiguous)
  let new_chunk = read contiguous
  if null new_chunk then ok (end_of_file, q) else do
    assert (leb (length new_chunk) (sub64 (length q.buffer) q.next_byte_to_push))
    check thrown (ltb q.next_byte_to_push (length q.buffer))
    assert (leb (add64 q.next_byte_to_push (length new_chunk)) (length q.buffer))
    let q1 = store new_chunk q
    assert (non_empty q1)
    ok (success, q1)

unfoldable pub contiguous_space_to_pop : ByteStreamQueue → ℕ
contiguous_space_to_pop q =
    if leb (length q.buffer) (add64 q.next_byte_to_pop (available_to_pop q))
    then sub64 (length q.buffer) q.next_byte_to_pop
    else available_to_pop q

-- The bytes from `pop_iterator` to `end_of_pop`.
unfoldable pub offered : ByteStreamQueue → Bytes
offered q = take (contiguous_space_to_pop q) (drop q.next_byte_to_pop q.buffer)

-- What is written to the descriptor, which takes `write b` bytes of `b`, and the queue after it.
unfoldable pub pop : (Bytes → ℕ) → ByteStreamQueue → Result (Bytes × ByteStreamQueue)
pop write q = do
  assert (non_empty q)
  assert (leb q.next_byte_to_pop (add64 q.next_byte_to_pop (contiguous_space_to_pop q)))
  let written = write (offered q)
  let next = q.next_byte_to_pop + written
  assert (leb next (length q.buffer))
  ok (take written (offered q), record q { next_byte_to_pop = around q next })
