-- ===== src/Chunked/Bodies.antt =====
-- A body in chunks, as the sender writes it, and what the parser makes of it.
use octopus_mahimahi.Common.{
  ℕ, suc, ◌+◌, ◌-◌, ◌≤◌, ◌<◌, ◌^◌, ◌≡◌, ◌≢◌, refl, ap, sym, ◌∙◌, true, false, List, [], ◌∷◌, ◌++◌,
  Option, none, some, append_assoc, arith, All, ok, Returns, Returns-map, length, length-append,
  null, take, drop, leb, ltb, ◌==◌, if◌then◌else◌, add32, add64, sub64,
}
use octopus_mahimahi.ByteStream.Ring.{take-append_length, drop-append_length}
use octopus_mahimahi.Packet.{Bytes}
use octopus_mahimahi.Chunked.{
  find_in, starts_with, crlf, chunk_hdr, chunk, trailer, ChunkedParser, chunked_parser,
  get_chunk_size, compute_ack_size, read_loop, read,
}

pub find_in-step :
    (needle s : Bytes) (c i : ℕ)
    → starts_with needle (c ∷ s) ≡ false
    → find_in needle s ≡ some i
    → find_in needle (c ∷ s) ≡ some (suc i)
find_in-step needle s c i h e =
    ap
      (λ b. elim b as (λ _. Option ℕ) [
        | true ↦ some 0
        | false ↦ elim (find_in needle s) as (λ _. Option ℕ) [ none ↦ none | some j ↦ some (suc j) ]
      ])
      h
    ∙ ap (λ r. elim r as (λ _. Option ℕ) [ none ↦ none | some j ↦ some (suc j) ]) e

-- The first CRLF behind a line without a CR is at its end.
pub find_in-line :
    (line rest : Bytes)
    → All (λ c. c ≢ 13) line
    → find_in crlf (line ++ (crlf ++ rest)) ≡ some (length line)
find_in-line [] rest h = refl
find_in-line (c ∷ line) rest h =
    find_in-step crlf (line ++ (crlf ++ rest)) c (length line) (ground (arith, h.0))
      (find_in-line line rest h.1)

take-line : (line rest : Bytes) → take (length line + 2) (line ++ (crlf ++ rest)) ≡ line ++ crlf
take-line line rest =
    ap (take (length line + 2)) (sym (append_assoc line crlf rest))
    ∙ take-append_length (line ++ crlf) rest (length line + 2)
        (omega (arith, length-append line crlf))

pub drop-line : (line rest : Bytes) → drop (length line + 2) (line ++ (crlf ++ rest)) ≡ rest
drop-line line rest =
    ap (drop (length line + 2)) (sym (append_assoc line crlf rest))
    ∙ drop-append_length (line ++ crlf) rest (length line + 2)
        (omega (arith, length-append line crlf))

null-line : (line rest : Bytes) → null (line ++ (crlf ++ rest)) ≡ false
null-line [] rest = refl
null-line (c ∷ line) rest = refl

module _ (strtol : Bytes → ℕ → Option (ℕ × ℕ)) where
  -- A chunk: its header without the CRLF, which gives the size, and its data.
  pub record IsChunk (c : Bytes × Bytes) : Type 0 where
    pub line : All (λ b. b ≢ 13) c.0
    pub size : get_chunk_size strtol (c.0 ++ crlf) ≡ ok (length c.1)
    pub some_data : 0 < length c.1
    pub small : length c.1 + 2 < 2 ^ 32

  -- The chunks one after another, before what is behind them.
  unfoldable pub encode : List (Bytes × Bytes) → Bytes → Bytes
  encode [] behind = behind
  encode ((line, data') ∷ chunks) behind =
      line ++ (crlf ++ (data' ++ (crlf ++ encode chunks behind)))

  abbrev pub encoded_length : List (Bytes × Bytes) → ℕ
  encoded_length [] = 0
  encoded_length ((line, data') ∷ chunks) =
      length line + 2 + (length data' + 2) + encoded_length chunks

  -- The parser behind the header of a chunk of `n` bytes.
  abbrev in_chunk : ℕ → ℕ → Bytes → ChunkedParser → ChunkedParser
  in_chunk n used rest q = record q {
    current_chunk_size = n;
    state = if n == 0 then trailer else chunk;
    parsed_so_far = add64 q.parsed_so_far used;
    parser_buffer = rest;
  }

  header_round :
      (fuel input_size : ℕ) (line rest : Bytes) (n : ℕ) (q : ChunkedParser)
      → q.state ≡ chunk_hdr
      → q.parser_buffer ≡ line ++ (crlf ++ rest)
      → All (λ b. b ≢ 13) line
      → get_chunk_size strtol (line ++ crlf) ≡ ok n
      → read_loop strtol (suc fuel) input_size q
        ≡ read_loop strtol fuel input_size (in_chunk n (length line + 2) rest q)
  unfolding read_loop
  header_round fuel input_size line rest n q s b h g =
      let some_bytes = ap null b ∙ null-line line rest in
      let found = ap (find_in crlf) b ∙ find_in-line line rest h in
      let head = ap (take (length line + 2)) b ∙ take-line line rest in
      let tail = ap (drop (length line + 2)) b ∙ drop-line line rest in
      rw (some_bytes, read_loop) (rw (s, found) (rw (head, g, tail) refl))

  -- A chunk's data behind its header.
  data_round :
      (fuel input_size : ℕ) (bytes rest : Bytes) (q : ChunkedParser)
      → q.state ≡ chunk
      → q.parser_buffer ≡ bytes ++ (crlf ++ rest)
      → q.current_chunk_size ≡ length bytes
      → length bytes + 2 < 2 ^ 32
      → read_loop strtol (suc fuel) input_size q
        ≡ read_loop strtol fuel input_size (record q {
          state = chunk_hdr;
          parsed_so_far = add64 q.parsed_so_far (length bytes + 2);
          parser_buffer = rest;
        })
  unfolding read_loop
  data_round fuel input_size bytes rest q s b n h =
      let some_bytes = ap null b ∙ null-line bytes rest in
      let size : add32 q.current_chunk_size 2 ≡ length bytes + 2 = omega (arith, n, h) in
      let again : add32 (length bytes) 2 ≡ length bytes + 2 = omega (arith, h) in
      let held = ap length b ∙ (length-append bytes (crlf ++ rest)) in
      let enough : leb (length bytes + 2) (length q.parser_buffer) ≡ true = ground (arith, held) in
      let inside : leb (length bytes) (length q.parser_buffer) ≡ true = ground (arith, held) in
      let ending =
        ap (drop (length bytes)) b ∙ drop-append_length bytes (crlf ++ rest) (length bytes) refl in
      let tail = ap (drop (length bytes + 2)) b ∙ drop-line bytes rest in
      rw (some_bytes, read_loop)
        (rw s (rw (size, enough) (rw (n, inside, ending) (rw (again, tail) refl))))

  -- The end of a body: a line that gives the size zero, and an empty line.
  pub record IsEnd (line : Bytes) : Type 0 where
    pub line_end : All (λ b. b ≢ 13) line
    pub zero_size : get_chunk_size strtol (line ++ crlf) ≡ ok 0

  end_round :
      (fuel input_size : ℕ) (rest : Bytes) (q : ChunkedParser)
      → q.state ≡ trailer
      → q.parser_buffer ≡ crlf ++ rest
      → q.trailers_enabled ≡ false
      → q.acked_so_far < add64 q.parsed_so_far 2
      → Returns
          (λ r. r.0 ≡ some (sub64 (add64 q.parsed_so_far 2) q.acked_so_far))
          (read_loop strtol (suc fuel) input_size q)
  unfolding read_loop compute_ack_size
  end_round fuel input_size rest q s b t h =
      let some_bytes : null q.parser_buffer ≡ false = ap null b in
      let found : find_in crlf q.parser_buffer ≡ some 0 = ap (find_in crlf) b in
      let ahead : ltb q.acked_so_far (add64 q.parsed_so_far 2) ≡ true = ground (arith, h) in
      rw (some_bytes, read_loop) (rw (s, t) (rw (found, compute_ack_size) (rw ahead refl)))

  -- The whole of the loop, from the header of a chunk on.
  loop-body :
      (chunks : List (Bytes × Bytes)) (line rest : Bytes) (fuel input_size : ℕ) (q : ChunkedParser)
      → All IsChunk chunks
      → IsEnd line
      → q.state ≡ chunk_hdr
      → q.parser_buffer ≡ encode chunks (line ++ (crlf ++ (crlf ++ rest)))
      → q.trailers_enabled ≡ false
      → q.acked_so_far ≡ 0
      → q.parsed_so_far + encoded_length chunks + (length line + 4) < 2 ^ 64
      → encoded_length chunks + 2 ≤ fuel
      → Returns
          (λ r. r.0 ≡ some (q.parsed_so_far + encoded_length chunks + (length line + 4)))
          (read_loop strtol fuel input_size q)
  unfolding encode
  loop-body [] line rest fuel input_size q c e s b t a h f =
      let q1 = in_chunk 0 (length line + 2) (crlf ++ rest) q in
      let two : fuel ≡ suc (suc (fuel - 2)) = omega (arith, f) in
      rw two (
        rw
          (header_round (suc (fuel - 2)) input_size line (crlf ++ rest) 0 q s b e.line_end
            e.zero_size)
          (Returns-map _ _ (read_loop strtol (suc (fuel - 2)) input_size q1)
            (end_round (fuel - 2) input_size rest q1 refl refl t (omega (arith, a, h)))
            λ r d. d ∙ ap some (omega (arith, a, h))))
  loop-body ((head, bytes) ∷ chunks) line rest fuel input_size q c e s b t a h f =
      let behind = encode chunks (line ++ (crlf ++ (crlf ++ rest))) in
      let q1 = in_chunk (length bytes) (length head + 2) (bytes ++ (crlf ++ behind)) q in
      let q2 = record q1 {
        state = chunk_hdr;
        parsed_so_far = add64 q1.parsed_so_far (length bytes + 2);
        parser_buffer = behind;
      } in
      let two : fuel ≡ suc (suc (fuel - 2)) = omega (arith, f) in
      let some_data : (length bytes == 0) ≡ false = ground (arith, c.0.some_data) in
      let in_data : q1.state ≡ chunk = ap (λ z. if z then trailer else chunk) some_data in
      let round =
        header_round (suc (fuel - 2)) input_size head (bytes ++ (crlf ++ behind)) (length bytes) q s
          b c.0.line c.0.size
        ∙ data_round (fuel - 2) input_size bytes behind q1 in_data refl refl c.0.small in
      let parsed : q2.parsed_so_far ≡ q.parsed_so_far + (length head + 2 + (length bytes + 2)) =
        omega (arith, h) in
      rw two (
        rw round (
          Returns-map _ _ (read_loop strtol (fuel - 2) input_size q2)
            (loop-body chunks line rest (fuel - 2) input_size q2 c.1 e refl refl t a
              (omega (arith, parsed, h)) (omega (arith, f)))
            λ r d. d ∙ ap some (omega (arith, parsed))))

  pub encode-length :
      (chunks : List (Bytes × Bytes)) (behind : Bytes)
      → length (encode chunks behind) ≡ encoded_length chunks + length behind
  unfolding encode
  encode-length [] behind = omega arith
  encode-length ((head, bytes) ∷ chunks) behind = omega (
    arith,
    length-append head (crlf ++ (bytes ++ (crlf ++ encode chunks behind))),
    length-append bytes (crlf ++ encode chunks behind),
    encode-length chunks behind,
  )

  -- A new parser without trailers, given well-formed chunks, the end of the body and anything
  -- behind it at once, returns the length of the body, below 2^64: it takes all of it and
  -- nothing of what is behind.
  pub read-body :
      (chunks : List (Bytes × Bytes)) (line rest : Bytes)
      → All IsChunk chunks
      → IsEnd line
      → encoded_length chunks + (length line + 4) < 2 ^ 64
      → Returns
          (λ r. r.0 ≡ some (encoded_length chunks + (length line + 4)))
          (read strtol (encode chunks (line ++ (crlf ++ (crlf ++ rest)))) (chunked_parser false))
  unfolding read
  read-body chunks line rest c e h =
      let input = encode chunks (line ++ (crlf ++ (crlf ++ rest))) in
      let q = record (chunked_parser false) { parser_buffer = input } in
      let enough : encoded_length chunks + 2 ≤ length input + 1 = omega (
        arith,
        encode-length chunks (line ++ (crlf ++ (crlf ++ rest))),
        length-append line (crlf ++ (crlf ++ rest)),
      ) in
      Returns-map _ _ (read_loop strtol (length input + 1) (length input) q)
        (loop-body chunks line rest (length input + 1) (length input) q c e refl refl refl refl
          (omega (arith, h)) enough)
        λ r d. d ∙ ap some (omega arith)
