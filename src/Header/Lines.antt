-- ===== src/Header/Lines.antt =====
-- A header line read back.
use octopus_mahimahi.Common.{
  ℕ, ◌+◌, ◌≡◌, ◌≢◌, refl, ap, sym, ◌∙◌, true, false, [], ◌∷◌, ◌++◌, append_assoc, arith, some, ok,
  All, length, length-append, drop, leb, ◌==◌,
}
use octopus_mahimahi.ByteStream.Ring.{take-append_length, drop-append_length}
use octopus_mahimahi.Packet.{Bytes}
use octopus_mahimahi.Chunked.{find_in}
use octopus_mahimahi.Chunked.Bodies.{find_in-step}
use octopus_mahimahi.Header.{http_header, str}

find_in-key :
    (key rest : Bytes)
    → All (λ c. c ≢ 58) key
    → find_in (58 ∷ []) (key ++ 58 ∷ rest) ≡ some (length key)
find_in-key [] rest h = refl
find_in-key (c ∷ key) rest h =
    find_in-step (58 ∷ []) (key ++ 58 ∷ rest) c (length key) (ground (arith, h.0))
      (find_in-key key rest h.1)

-- A header whose key has no colon, and whose value begins with another character than a space, is read
-- back from the line that `str` makes of it.
pub http_header-str :
    (key rest : Bytes) (c : ℕ)
    → All (λ b. b ≢ 58) key
    → c ≢ 32
    → http_header (str (record { key = key; value = c ∷ rest }))
      ≡ ok (record { key = key; value = c ∷ rest })
unfolding http_header str
http_header-str key rest c h n =
    let behind : Bytes = 32 ∷ c ∷ rest in
    let found = find_in-key key behind h in
    let inside : leb (length key + 1) (length (key ++ 58 ∷ behind)) ≡ true =
      ground (arith, length-append key (58 ∷ behind)) in
    let head = take-append_length key (58 ∷ behind) (length key) refl in
    let tail : drop (length key + 1) (key ++ 58 ∷ behind) ≡ behind =
      ap (drop (length key + 1)) (sym (append_assoc key (58 ∷ []) behind))
      ∙ drop-append_length (key ++ 58 ∷ []) behind (length key + 1)
          (omega (arith, length-append key (58 ∷ []))) in
    let nonspace : (c == 32) ≡ false = ground (arith, n) in
    rw (found, http_header) (rw (inside, head, tail) (rw nonspace refl))
