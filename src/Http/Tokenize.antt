-- ===== src/Http/Tokenize.antt =====
-- src/http/tokenize.hh and src/http/mime_type.cc.
pub mod Stops
use octopus_mahimahi.Common.{
  ℕ, zero, suc, ◌+◌, true, false, not, List, [], ◌∷◌, Option, none, some, Result, ok, fail, thrown,
  out_of_fuel, ◌>>=◌, ◌>>◌, check, length, null, take, drop, leb, sub64,
}
use octopus_mahimahi.Packet.{Bytes}
use octopus_mahimahi.Chunked.{find_in, substr}

-- `s.find( needle, pos )`
abbrev pub find_from : ℕ → Bytes → Bytes → Option ℕ
find_from pos needle s = elim (leb pos (length s)) [
  | false ↦ none
  | true ↦ elim (find_in needle (drop pos s)) [ none ↦ none | some i ↦ some (pos + i) ]
]

-- `s.substr( pos, n )`
abbrev pub substr_of : ℕ → ℕ → Bytes → Result Bytes
substr_of pos n s = do check thrown (leb pos (length s)); ok (take n (drop pos s))

-- The first loop of `split`, which collects the indices of the separator.
unfoldable pub index_loop : ℕ → Bytes → Bytes → ℕ → Result (List ℕ)
index_loop zero str separator next_token = fail out_of_fuel
index_loop (suc fuel) str separator next_token = elim (find_from next_token separator str) [
  | none ↦ ok []
  | some i ↦ do indices ← index_loop fuel str separator (suc i); ok (i ∷ indices)
]

-- The tokens behind the separator at `i`, where the others are at `indices`: the second loop, and the
-- last token.
unfoldable pub tokens_behind : Bytes → Bytes → ℕ → List ℕ → Result (List Bytes)
tokens_behind str separator i [] = do token ← substr (i + length separator) str; ok (token ∷ [])
tokens_behind str separator i (j ∷ indices) = do
  token ← substr_of (i + length separator) (sub64 (sub64 j i) (length separator)) str
  tokens ← tokens_behind str separator j indices
  ok (token ∷ tokens)

unfoldable pub split : Bytes → Bytes → Result (List Bytes)
split str separator = do
  indices ← index_loop (length str + 2) str separator 0
  elim indices [
    | [] ↦ ok (str ∷ [])
    | i ∷ later ↦ do tokens ← tokens_behind str separator i later; ok (take i str ∷ tokens)
  ]

-- `MIMEType( content_type ).type()`
unfoldable pub mime_type : Bytes → Result Bytes
mime_type content_type = do
  type_and_parameters ← split content_type (b';' ∷ [])
  elim type_and_parameters [
    | [] ↦ fail thrown
    | type_ ∷ parameters ↦ do check thrown (not (null type_)); ok type_
  ]
