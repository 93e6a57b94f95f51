-- ===== src/Chunked.antt =====
-- src/http/chunked_parser.hh and .cc, and the number parser of src/util/ezio.cc that it calls.
pub mod Bodies
pub mod Stops
mod Tests
use octopus_mahimahi.Common.{
  ℕ, zero, suc, ◌+◌, ◌-◌, ◌%◌, ◌^◌, ◌≡◌, Bool, true, false, not, ◌&&◌, List, [], ◌∷◌, ◌++◌, Option,
  none, some, Result, ok, fail, thrown, out_of_fuel, ◌>>=◌, ◌>>◌, assert, check, length, null, take,
  drop, leb, ltb, ◌==◌, if◌then◌else◌, add32, add64, sub64,
}
use octopus_mahimahi.Packet.{Bytes}

abbrev pub starts_with : Bytes → Bytes → Bool
starts_with [] s = true
starts_with (n ∷ ns) [] = false
starts_with (n ∷ ns) (c ∷ s) = (n == c) && starts_with ns s

-- `s.find( needle )`, where `none` is `npos`.
abbrev pub find_in : Bytes → Bytes → Option ℕ
find_in needle [] = if null needle then some 0 else none
find_in needle (c ∷ s) =
    let later = find_in needle s in
    elim (starts_with needle (c ∷ s)) [
      | true ↦ some 0
      | false ↦ elim later [ none ↦ none | some i ↦ some (suc i) ]
    ]

-- `s.substr( pos )`
abbrev pub substr : ℕ → Bytes → Result Bytes
substr pos s = do check thrown (leb pos (length s)); ok (drop pos s)

abbrev pub crlf : Bytes
crlf = 13 ∷ 10 ∷ []

pub data State : Type 0 where
  chunk_hdr chunk trailer : State

pub record ChunkedParser : Type 0 where
  pub parser_buffer : Bytes
  pub current_chunk_size : ℕ
  pub acked_so_far : ℕ
  pub parsed_so_far : ℕ
  pub state : State
  pub trailers_enabled : Bool

-- `ChunkedBodyParser( trailers )`
abbrev pub chunked_parser : Bool → ChunkedParser
chunked_parser trailers = record {
  parser_buffer = [];
  current_chunk_size = 0;
  acked_so_far = 0;
  parsed_so_far = 0;
  state = chunk_hdr;
  trailers_enabled = trailers;
}

-- `strtol s base` is the C function: `none` if it sets `errno`, else the value and the number of
-- characters that it has read.
module _ (strtol : Bytes → ℕ → Option (ℕ × ℕ)) where
  unfoldable pub myatoi : Bytes → ℕ → Result ℕ
  myatoi str base = do
    check thrown (not (null str))
    elim (strtol str base) [
      | none ↦ fail thrown
      | some r ↦ do check thrown (r.1 == length str); ok r.0
    ]

  unfoldable pub get_chunk_size : Bytes → Result ℕ
  get_chunk_size hdr = do
    ending ← substr (sub64 (length hdr) 2) hdr
    assert (starts_with crlf ending)
    let pos = elim (find_in (59 ∷ []) hdr) as (λ _. Option ℕ) [
      | none ↦ find_in crlf hdr
      | some i ↦ some i
    ]
    elim pos [
      | none ↦ assert false >> ok 0
      | some i ↦ do
        let hex_string = take i hdr
        n ←
            myatoi
              (elim (find_in (32 ∷ []) hex_string) as (λ _. Bytes) [
                | none ↦ hex_string
                | some j ↦ take j hex_string
              ])
              16
        ok (n % 2 ^ 32)
    ]

  -- What `read` returns where it has not seen the end: `npos`.
  abbrev pub acknowledge : ℕ → ChunkedParser → Option ℕ × ChunkedParser
  acknowledge input_size q = (none, record q { acked_so_far = add64 q.acked_so_far input_size })

  unfoldable pub compute_ack_size : Bytes → ℕ → ChunkedParser → Result (Option ℕ × ChunkedParser)
  compute_ack_size needle input_size q = elim (find_in needle q.parser_buffer) [
    | none ↦ ok (acknowledge input_size q)
    | some loc ↦ do
      let q1 = record q { parsed_so_far = add64 q.parsed_so_far (loc + length needle) }
      assert (ltb q1.acked_so_far q1.parsed_so_far)
      ok (some (sub64 q1.parsed_so_far q1.acked_so_far), q1)
  ]

  -- The loop of `read`. A round that goes on takes two bytes or more out of the buffer: a chunk of a
  -- size within two of 2^32 ends in an exception.
  unfoldable pub read_loop : ℕ → ℕ → ChunkedParser → Result (Option ℕ × ChunkedParser)
  read_loop zero input_size q = fail out_of_fuel
  read_loop (suc fuel) input_size q = elim (null q.parser_buffer) [
    | true ↦ ok (acknowledge input_size q)
    | false ↦ elim q.state [
      | chunk_hdr ↦ elim (find_in crlf q.parser_buffer) [
        | none ↦ ok (acknowledge input_size q)
        | some it ↦ do
          n ← get_chunk_size (take (it + 2) q.parser_buffer)
          read_loop fuel input_size (record q {
            current_chunk_size = n;
            state = if n == 0 then trailer else chunk;
            parsed_so_far = add64 q.parsed_so_far (it + 2);
            parser_buffer = drop (it + 2) q.parser_buffer;
          })
      ]
      | chunk ↦ elim (leb (add32 q.current_chunk_size 2) (length q.parser_buffer)) [
        | false ↦ ok (acknowledge input_size q)
        | true ↦ do
          ending ← substr q.current_chunk_size q.parser_buffer
          assert (starts_with crlf ending)
          read_loop fuel input_size (record q {
            state = chunk_hdr;
            parsed_so_far = add64 q.parsed_so_far (add32 q.current_chunk_size 2);
            parser_buffer = drop (add32 q.current_chunk_size 2) q.parser_buffer;
          })
      ]
      | trailer ↦ compute_ack_size (if q.trailers_enabled then crlf ++ crlf else crlf) input_size q
    ]
  ]

  unfoldable pub read : Bytes → ChunkedParser → Result (Option ℕ × ChunkedParser)
  read input_buffer q =
      let q1 = record q { parser_buffer = q.parser_buffer ++ input_buffer } in
      read_loop (length q1.parser_buffer + 1) (length input_buffer) q1
