-- ===== src/Chunked/Tests.antt =====
-- A test of the parser of chunks, and an instance of its theorem.
use octopus_mahimahi.Common.{
  ℕ, ◌+◌, ◌-◌, ◌≡◌, refl, false, [], ◌∷◌, ◌++◌, Option, none, some, arith, Returns, length,
}
use octopus_mahimahi.Packet.{Bytes}
use octopus_mahimahi.Chunked.{crlf, chunked_parser, myatoi, get_chunk_size, read}
use octopus_mahimahi.Chunked.Bodies.{IsChunk, IsEnd, encode, encoded_length, read-body}

-- A number of one decimal digit.
abbrev strtol : Bytes → ℕ → Option (ℕ × ℕ)
strtol [] base = none
strtol (c ∷ s) base = some (c - 48, 1)

-- "3" before three bytes, of which two are a CRLF.
abbrev three : Bytes × Bytes
three = (51 ∷ [], 1 ∷ 13 ∷ 10 ∷ [])

three-IsChunk : IsChunk strtol three
unfolding get_chunk_size myatoi
three-IsChunk = record {
  line = omega arith;
  size = refl;
  some_data = omega arith;
  small = omega arith;
}

-- "0"
zero-IsEnd : IsEnd strtol (48 ∷ [])
unfolding get_chunk_size myatoi
zero-IsEnd = record { line_end = omega arith; zero_size = refl }

abbrev zero : Bytes
zero = 48 ∷ []

read-body_example :
    Returns
      (λ r. r.0 ≡ some (encoded_length strtol (three ∷ []) + (length zero + 4)))
      (read strtol
        (encode strtol (three ∷ []) (zero ++ (crlf ++ (crlf ++ 7 ∷ 7 ∷ []))))
        (chunked_parser false))
read-body_example =
    read-body strtol (three ∷ []) zero (7 ∷ 7 ∷ []) (three-IsChunk, tt) zero-IsEnd (omega arith)
