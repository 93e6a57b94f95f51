-- ===== src/Http/Tokenize/Stops.antt =====
-- The loop of `split` has rounds enough.
use octopus_mahimahi.Common.{
  ℕ, zero, suc, ◌+◌, ◌≤◌, ◌≡◌, List, [], ◌∷◌, some, Ends, Ends-bind, List-cases, Option-cases, inl,
  inr, arith, drop, length,
}
use octopus_mahimahi.Packet.{Bytes}
use octopus_mahimahi.Chunked.{find_in}
use octopus_mahimahi.Chunked.Stops.{Stops}
use octopus_mahimahi.Http.Sequence.Lines.{find_in-length, length-drop}
use octopus_mahimahi.Http.Tokenize.{find_from, index_loop, tokens_behind, split, mime_type}

found_at :
    (pos : ℕ) (needle s : Bytes) (i : ℕ)
    → find_from pos needle s ≡ some i
    → (pos ≤ i) × (i ≤ length s)
found_at pos needle s i h = elim (Option-cases (find_in needle (drop pos s))) [
  | inl e ↦ ground (arith, h, e)
  | inr (j, e) ↦ ground (arith, h, e, find_in-length needle (drop pos s) j e, length-drop pos s)
]

index_loop-Stops :
    (fuel : ℕ) (str separator : Bytes) (next_token : ℕ)
    → next_token ≤ length str + 1
    → length str + 2 ≤ fuel + next_token
    → Ends Stops (λ r. Unit) (index_loop fuel str separator next_token)
unfolding index_loop
index_loop-Stops zero str separator next_token h f = absurd (omega (arith, h, f))
index_loop-Stops (suc fuel) str separator next_token h f =
    elim (Option-cases (find_from next_token separator str)) [
      | inl e ↦ rw (e, index_loop) tt
      | inr (i, e) ↦
          let (after, inside) = found_at next_token separator str i e in
          rw (e, index_loop)
            (Ends-bind Stops (λ r. Unit) (λ r. Unit) (index_loop fuel str separator (suc i)) _
              (index_loop-Stops fuel str separator (suc i) (omega (arith, inside))
                (omega (arith, f, after)))
              λ r u. tt)
    ]

tokens_behind-Stops :
    (str separator : Bytes) (i : ℕ) (indices : List ℕ)
    → Ends Stops (λ r. Unit) (tokens_behind str separator i indices)
unfolding tokens_behind
tokens_behind-Stops str separator i [] = ground arith
tokens_behind-Stops str separator i (j ∷ indices) =
    ground (arith, tokens_behind-Stops str separator j indices)

pub split-Stops : (str separator : Bytes) → Ends Stops (λ r. Unit) (split str separator)
unfolding split
split-Stops str separator =
    Ends-bind Stops (λ r. Unit) (λ r. Unit) (index_loop (length str + 2) str separator 0) _
      (index_loop-Stops (length str + 2) str separator 0 (omega arith) (omega arith))
      λ indices u. elim (List-cases indices) [
        | inl e ↦ rw e tt
        | inr (i, later, e) ↦ rw e (
            Ends-bind Stops (λ r. Unit) (λ r. Unit) (tokens_behind str separator i later) _
              (tokens_behind-Stops str separator i later) λ r u. tt)
      ]

pub mime_type-Stops : (s : Bytes) → Ends Stops (λ r. Unit) (mime_type s)
unfolding mime_type
mime_type-Stops s = ground (arith, split-Stops s (b';' ∷ []))
