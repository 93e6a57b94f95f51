-- ===== src/Chunked/Stops.antt =====
-- The loop of the parser of chunks has rounds enough.
use octopus_mahimahi.Common.{
  ℕ, zero, suc, ◌+◌, ◌-◌, ◌≤◌, ◌<◌, ◌≡◌, ◌≢◌, ◌⊎◌, sub64, add32, assert, ◌%◌, ◌^◌, refl, ap, false,
  [], ◌∷◌, Option, none, some, Result, ok, out_of_fuel, Ends, Ends-bind, Fault, Bool-cases,
  Option-cases, inl, inr, ◌>>=◌, ◌>>◌, arith, ◌++◌, null, take, drop, length, leb, ◌==◌,
  if◌then◌else◌,
}
use octopus_mahimahi.Packet.{Bytes}
use octopus_mahimahi.Http.Sequence.Lines.{find_in-length, length-drop}
use octopus_mahimahi.Chunked.{
  find_in, substr, crlf, starts_with, State, chunk_hdr, chunk, trailer, ChunkedParser, myatoi,
  get_chunk_size, compute_ack_size, read_loop, read,
}

-- It may fail, but not for want of rounds.
abbrev pub Stops : Fault → Type 0
Stops e = e ≢ out_of_fuel

abbrev rounds : State → ℕ → ℕ
rounds chunk n = n
rounds _ n = n - 1

rounds_bound : (t : State) (n : ℕ) → rounds t n ≤ n
rounds_bound chunk_hdr n = omega arith
rounds_bound chunk n = omega arith
rounds_bound trailer n = omega arith

not_null : (s : Bytes) → null s ≡ false → 0 < length s
not_null [] h = ground (arith, h)
not_null (c ∷ s) h = omega arith

State-cases : (t : State) → (t ≡ chunk_hdr) ⊎ ((t ≡ chunk) ⊎ (t ≡ trailer))
State-cases chunk_hdr = inl refl
State-cases chunk = inr (inl refl)
State-cases trailer = inr (inr refl)

module _ (strtol : Bytes → ℕ → Option (ℕ × ℕ)) where
  pub myatoi-Stops : (s : Bytes) (base : ℕ) → Ends Stops (λ n. Unit) (myatoi strtol s base)
  unfolding myatoi
  myatoi-Stops s base = ground arith

  size_at-Stops :
      (pos : Option ℕ) (hex : ℕ → Bytes)
      → Ends Stops
          (λ n. Unit)
          (elim pos as (λ o. Result ℕ) [
            | none ↦ assert false >> ok 0
            | some i ↦ do n ← myatoi strtol (hex i) 16; ok (n % 2 ^ 32)
          ])
  size_at-Stops none hex = λ e. ground (arith, e)
  size_at-Stops (some i) hex =
      Ends-bind Stops (λ n. Unit) (λ n. Unit) (myatoi strtol (hex i) 16) _ (myatoi-Stops (hex i) 16)
        λ n u. tt

  get_chunk_size-Stops : (hdr : Bytes) → Ends Stops (λ n. Unit) (get_chunk_size strtol hdr)
  unfolding get_chunk_size
  get_chunk_size-Stops hdr =
      Ends-bind Stops (λ e. Unit) (λ n. Unit) (substr (sub64 (length hdr) 2) hdr) _ (ground arith)
        λ ending u.
          Ends-bind Stops (λ e. Unit) (λ n. Unit) (assert (starts_with crlf ending)) _
            (ground arith) λ v w. size_at-Stops _ _

  compute_ack_size-Stops :
      (needle : Bytes) (n : ℕ) (q : ChunkedParser)
      → Ends Stops (λ n. Unit) (compute_ack_size strtol needle n q)
  unfolding compute_ack_size
  compute_ack_size-Stops needle n q = ground arith

  read_loop-Stops :
      (fuel input_size : ℕ) (q : ChunkedParser)
      → rounds q.state (length q.parser_buffer) < fuel
      → Ends Stops (λ r. Unit) (read_loop strtol fuel input_size q)
  unfolding read_loop
  read_loop-Stops zero n q h = absurd (omega (arith, h))
  read_loop-Stops (suc fuel) n q h = elim (Bool-cases (null q.parser_buffer)) [
    | inl e ↦ rw (e, read_loop) tt
    | inr e ↦ elim (State-cases q.state) [
      | inl s ↦ elim (Option-cases (find_in crlf q.parser_buffer)) [
        | inl none_yet ↦ rw (e, read_loop) (rw (s, none_yet) tt)
        | inr (it, found) ↦
            rw (e, read_loop)
              (rw (s, found)
                (Ends-bind Stops (λ n. Unit) (λ n. Unit)
                  (get_chunk_size strtol (take (it + 2) q.parser_buffer)) _
                  (get_chunk_size-Stops (take (it + 2) q.parser_buffer))
                  λ size u. read_loop-Stops fuel n _ (
                    omega (
                      arith,
                      rounds_bound (if size == 0 then trailer else chunk)
                          (length (drop (it + 2) q.parser_buffer)),
                      length-drop (it + 2) q.parser_buffer,
                      find_in-length crlf q.parser_buffer it found,
                      ap (λ t. rounds t (length q.parser_buffer)) s,
                      h,
                    ))))
      ]
      | inr other ↦ elim other [
        | inl s ↦ elim (Bool-cases (leb (add32 q.current_chunk_size 2) (length q.parser_buffer))) [
          | inl held ↦
              rw (e, read_loop)
                (rw (s, held)
                  (Ends-bind Stops (λ n. Unit) (λ n. Unit)
                    (substr q.current_chunk_size q.parser_buffer) _ (ground arith)
                    λ ending u.
                      Ends-bind Stops (λ n. Unit) (λ n. Unit) (assert (starts_with crlf ending)) _
                        (ground arith)
                        λ v w. read_loop-Stops fuel n _ (
                          omega (
                            arith,
                            length-drop (add32 q.current_chunk_size 2) q.parser_buffer,
                            ap (λ t. rounds t (length q.parser_buffer)) s,
                            not_null q.parser_buffer e,
                            h,
                          ))))
          | inr short ↦ rw (e, read_loop) (rw (s, short) tt)
        ]
        | inr s ↦ rw (e, read_loop) (rw s (compute_ack_size-Stops _ n q))
      ]
    ]
  ]

  -- The rounds that `read` gives its loop are enough, in any state of the parser and whatever
  -- bytes come.
  pub read-Stops :
      (input_buffer : Bytes) (q : ChunkedParser)
      → Ends Stops (λ r. Unit) (read strtol input_buffer q)
  unfolding read
  read-Stops input_buffer q =
      let buffer = q.parser_buffer ++ input_buffer in
      read_loop-Stops (length buffer + 1) (length input_buffer)
        (record q { parser_buffer = buffer }) (omega (arith, rounds_bound q.state (length buffer)))
