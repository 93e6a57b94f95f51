-- ===== src/Http/Sequence/Lines.antt =====
-- The first line of a buffer, and what more bytes behind it change.
use octopus_mahimahi.Common.{
  min, ℕ, zero, suc, ◌+◌, ◌-◌, ◌≤◌, ◌≡◌, refl, ap, true, [], ◌∷◌, ◌++◌, some, ok, arith, length,
  take, drop, leb, Option-cases, inl, inr,
}
use octopus_mahimahi.Packet.{Bytes}
use octopus_mahimahi.Chunked.{starts_with, find_in, crlf}
use octopus_mahimahi.Http.Sequence.{have_complete_line, get_and_pop_line}

pub take-append : (n : ℕ) (s t : Bytes) → n ≤ length s → take n (s ++ t) ≡ take n s
take-append zero s t h = refl
take-append (suc n) [] t h = absurd (omega (arith, h))
take-append (suc n) (c ∷ s) t h = ap (λ r. c ∷ r) (take-append n s t (omega (arith, h)))

pub drop-append : (n : ℕ) (s t : Bytes) → n ≤ length s → drop n (s ++ t) ≡ drop n s ++ t
drop-append zero s t h = refl
drop-append (suc n) [] t h = absurd (omega (arith, h))
drop-append (suc n) (c ∷ s) t h = drop-append n s t (omega (arith, h))

pub drop-past : (s t : Bytes) (n : ℕ) → drop (length s + n) (s ++ t) ≡ drop n t
drop-past [] t n = let e : 0 + n ≡ n = omega arith in rw e refl
drop-past (c ∷ s) t n =
    let e : suc (length s) + n ≡ suc (length s + n) = omega arith in rw e (drop-past s t n)

pub take-past : (s t : Bytes) (n : ℕ) → take (length s + n) (s ++ t) ≡ s ++ take n t
take-past [] t n = let e : 0 + n ≡ n = omega arith in rw e refl
take-past (c ∷ s) t n =
    let e : suc (length s) + n ≡ suc (length s + n) = omega arith in
    rw e (ap (λ r. c ∷ r) (take-past s t n))

pub drop_all : (s : Bytes) → drop (length s) s ≡ []
drop_all [] = refl
drop_all (c ∷ s) = drop_all s

pub take_all : (s : Bytes) → take (length s) s ≡ s
take_all [] = refl
take_all (c ∷ s) = ap (λ r. c ∷ r) (take_all s)

pub length-take : (n : ℕ) (s : Bytes) → length (take n s) ≡ min n (length s)
length-take zero s = omega arith
length-take (suc n) [] = omega arith
length-take (suc n) (c ∷ s) = omega (arith, length-take n s)

pub length-drop : (n : ℕ) (s : Bytes) → length (drop n s) ≡ length s - n
length-drop zero s = omega arith
length-drop (suc n) [] = omega arith
length-drop (suc n) (c ∷ s) = omega (arith, length-drop n s)

starts_with-append :
    (needle s t : Bytes)
    → length needle ≤ length s
    → starts_with needle (s ++ t) ≡ starts_with needle s
starts_with-append [] s t h = refl
starts_with-append (n ∷ ns) [] t h = absurd (omega (arith, h))
starts_with-append (n ∷ ns) (c ∷ s) t h = rw (starts_with-append ns s t (omega (arith, h))) refl

starts_with-length : (needle s : Bytes) → starts_with needle s ≡ true → length needle ≤ length s
starts_with-length [] s h = omega arith
starts_with-length (n ∷ ns) [] h = ground (arith, h)
starts_with-length (n ∷ ns) (c ∷ s) h = ground (arith, h, starts_with-length ns s)

pub find_in-length :
    (needle s : Bytes) (i : ℕ) → find_in needle s ≡ some i → i + length needle ≤ length s
find_in-length [] [] i h = ground arith
find_in-length (n ∷ ns) [] i h = ground arith
find_in-length needle (c ∷ s) i h =
    ground (arith, starts_with-length needle (c ∷ s), find_in-length needle s (i - 1))

-- What has been found stays where it is.
pub find_in-append :
    (needle s t : Bytes) (i : ℕ) → find_in needle s ≡ some i → find_in needle (s ++ t) ≡ some i
find_in-append [] [] [] i h = h
find_in-append [] [] (d ∷ t) i h = h
find_in-append (n ∷ ns) [] t i h = ground arith
find_in-append needle (c ∷ s) t i h =
    let fits = find_in-length needle (c ∷ s) i h in
    ground (
      arith,
      starts_with-append needle (c ∷ s) t (omega (arith, fits)),
      find_in-append needle s t (i - 1),
    )

pub has_line : (b : Bytes) → have_complete_line b ≡ true → (i : ℕ) × (find_in crlf b ≡ some i)
has_line b h = elim (Option-cases (find_in crlf b)) [ inl e ↦ ground arith | inr e ↦ e ]

pub popped :
    (b : Bytes) (i : ℕ)
    → find_in crlf b ≡ some i
    → get_and_pop_line b ≡ ok (take i b, drop (i + 2) b)
unfolding get_and_pop_line
popped b i h =
    let fits = find_in-length crlf b i h in
    let inside : leb (i + 2) (length b) ≡ true = ground (arith, fits) in
    rw (h, get_and_pop_line) (rw inside refl)
