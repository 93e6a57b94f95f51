-- ===== src/Replay/Best.antt =====
-- What a score says, and that the loop finds the best.
use octopus_mahimahi.Common.{
  ℕ, suc, ◌+◌, ◌^◌, ◌≡◌, ◌≢◌, ◌≤◌, ◌<◌, ◌⊎◌, inl, inr, refl, ap, sym, ◌∙◌, subst, Bool, true, not,
  ◌&&◌, List, [], ◌∷◌, ◌++◌, append_assoc, append-nil, Option, none, some, Result, ok, ◌>>=◌,
  length, take, get_elem?, ltb, ◌==◌, codes, same_bytes, arith, All, All-append, All-map, Returns,
  Returns-map, Returns-ok, Bool-cases,
}
use octopus_mahimahi.Packet.{Bytes}
use octopus_mahimahi.Header.{HttpHeader}
use octopus_mahimahi.Http.Message.{has_key, value_of}
use octopus_mahimahi.Http.Request.{HttpRequest}
use octopus_mahimahi.Replay.{
  SavedRecord, is_https_scheme, strip_query, prefix_loop, header_match, match_score, best_loop,
}

same_bytes→≡ : (s t : Bytes) → same_bytes s t ≡ true → s ≡ t
same_bytes→≡ [] [] h = refl
same_bytes→≡ [] (d ∷ t) h = ground (arith, h)
same_bytes→≡ (c ∷ s) [] h = ground (arith, h)
same_bytes→≡ (c ∷ s) (d ∷ t) h = ground (arith, h, same_bytes→≡ s t)

-- `n` is the length of the longest common prefix.
pub record IsCommon (s t : Bytes) (n : ℕ) : Type 0 where
  pub common : take n s ≡ take n t
  pub inside : (n ≤ length s) × (n ≤ length t)
  pub longest : (n ≡ length s) ⊎ ((n ≡ length t) ⊎ (get_elem? s n ≢ get_elem? t n))

prefix_loop_lem : (i : ℕ) (s t : Bytes) → (n : ℕ) × ((prefix_loop i s t ≡ i + n) × IsCommon s t n)
prefix_loop_lem i [] t = (
  0,
  (omega arith, record { common = refl; inside = (omega arith, omega arith); longest = inl refl }),
)
prefix_loop_lem i (c ∷ s) [] = (
  0,
  (
    omega arith,
    record { common = refl; inside = (omega arith, omega arith); longest = inr (inl refl) },
  ),
)
prefix_loop_lem i (c ∷ s) (d ∷ t) =
    let (n, (e, h)) = prefix_loop_lem (suc i) s t in
    elim (Bool-cases (c == d)) [
      | inl same ↦ (
        suc n,
        (
          rw (same, prefix_loop) (omega (arith, e)),
          record {
            common = ground (arith, same, h.common);
            inside = (omega (arith, h.inside), omega (arith, h.inside));
            longest = elim h.longest [
              | inl a ↦ inl (omega (arith, a))
              | inr b ↦ elim b [ inl a ↦ inr (inl (omega (arith, a))) | inr a ↦ inr (inr a) ]
            ];
          },
        ),
      )
      | inr other ↦ (
        0,
        (
          rw (other, prefix_loop) (omega arith),
          record {
            common = refl;
            inside = (omega arith, omega arith);
            longest = inr (inr λ e. ground (arith, other, e));
          },
        ),
      )
    ]

value_of-Returns :
    (name : Bytes) (hs : List HttpHeader)
    → has_key name hs ≡ true
    → Returns (λ v. Unit) (value_of name hs)
value_of-Returns name [] h = ground (arith, h)
value_of-Returns name (k ∷ hs) h = ground (arith, h, value_of-Returns name hs)

module _ (getenv : Bytes → Option Bytes) where
  header_match-Returns :
      (var name : Bytes) (r : HttpRequest) → Returns (λ b. Unit) (header_match getenv var name r)
  unfolding header_match
  header_match-Returns var name r = ground (arith, value_of-Returns name r.headers)

  -- What a positive score says of a stored record: the scheme, the two headers and the path are
  -- those of the request, and the score is the length of the common prefix.
  pub record IsMatch (request_line : Bytes) (https : Bool) (r : SavedRecord) (n : ℕ) : Type 0 where
    pub scheme : is_https_scheme r.scheme ≡ https
    pub host : header_match getenv (codes "HTTP_HOST") (codes "Host") r.request ≡ ok true
    pub agent :
        header_match getenv (codes "HTTP_USER_AGENT") (codes "User-Agent") r.request ≡ ok true
    pub path : strip_query request_line ≡ strip_query r.request.first_line
    pub prefix : IsCommon request_line r.request.first_line n

  -- The score of a record is defined, and is 0 or that of a match, for a request line below 2^32 bytes.
  pub match_score-IsMatch :
      (line : Bytes) (https : Bool) (r : SavedRecord)
      → length line < 2 ^ 32
      → Returns (λ n. (n ≡ 0) ⊎ IsMatch line https r n) (match_score getenv r line https)
  unfolding match_score
  match_score-IsMatch line https r h =
      let scheme = is_https_scheme r.scheme in
      let (host, (e3, u3)) =
        Returns-ok (λ b. Unit) (header_match getenv (codes "HTTP_HOST") (codes "Host") r.request)
          (header_match-Returns (codes "HTTP_HOST") (codes "Host") r.request) in
      let (agent, (e4, u4)) =
        Returns-ok (λ b. Unit)
          (header_match getenv (codes "HTTP_USER_AGENT") (codes "User-Agent") r.request)
          (header_match-Returns (codes "HTTP_USER_AGENT") (codes "User-Agent") r.request) in
      let path = same_bytes (strip_query line) (strip_query r.request.first_line) in
      let (n, (counted, common)) = prefix_loop_lem 0 line r.request.first_line in
      elim (Bool-cases (https && not scheme)) [
        | inl e1 ↦ rw (e1, match_score) (inl refl)
        | inr e1 ↦ elim (Bool-cases (not https && scheme)) [
          | inl e2 ↦ rw (e1, match_score) (rw e2 (inl refl))
          | inr e2 ↦ elim (Bool-cases host) [
            | inr e5 ↦ rw (e1, match_score) (rw (e2, e3, e5) (inl refl))
            | inl e5 ↦ elim (Bool-cases agent) [
              | inr e6 ↦ rw (e1, match_score) (rw (e2, e3, e5) (rw (e4, e6) (inl refl)))
              | inl e6 ↦ elim (Bool-cases path) [
                | inr e7 ↦
                    rw (e1, match_score) (rw (e2, e3, e5) (rw (e4, e6) (rw (e7, ◌>>=◌) (inl refl))))
                | inl e7 ↦
                    rw (e1, match_score)
                      (rw (e2, e3, e5)
                        (rw (e4, e6)
                          (rw (e7, ◌>>=◌)
                            (inr (record {
                              scheme = ground (arith, e1, e2);
                              host = e3 ∙ ap ok e5;
                              agent = e4 ∙ ap ok e6;
                              path =
                                  same_bytes→≡ (strip_query line) (strip_query r.request.first_line)
                                    e7;
                              prefix =
                                  subst (IsCommon line r.request.first_line)
                                    (omega (arith, counted, common.inside, h)) common;
                            })))))
              ]
            ]
          ]
        ]
      ]

  module _ (line : Bytes) (https : Bool) (small : length line < 2 ^ 32) where
    abbrev score : SavedRecord → Result ℕ
    score r = match_score getenv r line https

    -- `r` matches with the score `n`, between records of which the earlier ones have smaller scores.
    pub record IsFirst (n : ℕ) (r : SavedRecord) (before : List SavedRecord) : Type 0 where
      pub scored : score r ≡ ok n
      pub matches : IsMatch line https r n
      pub smaller : All (λ s. Returns (λ k. k < n) (score s)) before

    -- `n` is the best score of the records, and `best` the first that has it.
    pub record IsBest (records : List SavedRecord) (n : ℕ) (best : Option SavedRecord)
        : Type 0 where
      pub none_better : All (λ s. Returns (λ k. k ≤ n) (score s)) records
      pub found :
          0 < n
          → (before : List SavedRecord) × (r : SavedRecord) × (after : List SavedRecord) × ((records
                ≡ before ++ r ∷ after)
              × ((best ≡ some r) × IsFirst n r before))

    is_match : (r : SavedRecord) (n : ℕ) → score r ≡ ok n → 0 < n → IsMatch line https r n
    is_match r n e p =
        elim (subst (Returns (λ k. (k ≡ 0) ⊎ IsMatch line https r k)) e
          (match_score-IsMatch line https r small)) [
            | inl z ↦ absurd (omega (arith, z, p))
            | inr m ↦ m
          ]

    better :
        (seen : List SavedRecord) (m n : ℕ) (old : Option SavedRecord) (r : SavedRecord)
        → IsBest seen m old
        → score r ≡ ok n
        → m < n
        → IsBest (seen ++ r ∷ []) n (some r)
    better seen m n old r h e l = record {
      none_better =
          All-append (λ s. Returns (λ k. k ≤ n) (score s)) seen (r ∷ [])
            (All-map (λ s. Returns (λ k. k ≤ m) (score s)) (λ s. Returns (λ k. k ≤ n) (score s))
              seen
              (λ s b. Returns-map (λ k. k ≤ m) (λ k. k ≤ n) (score s) b λ k c. omega (arith, c, l))
              h.none_better)
            (subst (Returns (λ k. k ≤ n)) (sym e) (omega arith), tt);
      found = λ p. (
        seen,
        r,
        [],
        (
          refl,
          (
            refl,
            record {
              scored = e;
              matches = is_match r n e (omega (arith, l));
              smaller =
                  All-map (λ s. Returns (λ k. k ≤ m) (score s))
                    (λ s. Returns (λ k. k < n) (score s)) seen
                    (λ s b.
                      Returns-map (λ k. k ≤ m) (λ k. k < n) (score s) b λ k c. omega (arith, c, l))
                    h.none_better;
            },
          ),
        ),
      );
    }

    no_better :
        (seen : List SavedRecord) (m n : ℕ) (old : Option SavedRecord) (r : SavedRecord)
        → IsBest seen m old
        → score r ≡ ok n
        → n ≤ m
        → IsBest (seen ++ r ∷ []) m old
    no_better seen m n old r h e l = record {
      none_better =
          All-append (λ s. Returns (λ k. k ≤ m) (score s)) seen (r ∷ []) h.none_better
            (subst (Returns (λ k. k ≤ m)) (sym e) l, tt);
      found = λ p.
          let (before, s, after, (split, rest)) = h.found p in
          (
            before,
            s,
            after ++ r ∷ [],
            (ap (λ t. t ++ r ∷ []) split ∙ append_assoc before (s ∷ after) (r ∷ []), rest),
          );
    }

    best_loop_lem :
        (records seen : List SavedRecord) (m : ℕ) (old : Option SavedRecord)
        → IsBest seen m old
        → Returns
            (λ b. IsBest (seen ++ records) b.0 b.1)
            (best_loop getenv line https records (m, old))
    unfolding best_loop
    best_loop_lem [] seen m old h = subst (λ t. IsBest t m old) (sym (append-nil seen)) h
    best_loop_lem (r ∷ records) seen m old h =
        let (n, (e, u)) =
          Returns-ok (λ n. (n ≡ 0) ⊎ IsMatch line https r n) (score r)
            (match_score-IsMatch line https r small) in
        let next : (k : ℕ) (b : Option SavedRecord)
            → IsBest (seen ++ r ∷ []) k b
            → Returns (λ c. IsBest (seen ++ r ∷ records) c.0 c.1)
                (best_loop getenv line https records (k, b)) =
          λ k b i.
            subst
              (λ t. Returns (λ c. IsBest t c.0 c.1) (best_loop getenv line https records (k, b)))
              (append_assoc seen (r ∷ []) records) (best_loop_lem records (seen ++ r ∷ []) k b i) in
        elim (Bool-cases (ltb m n)) [
          | inl l ↦
              rw (e, best_loop)
                (rw l (next n (some r) (better seen m n old r h e (ground (arith, l)))))
          | inr l ↦
              rw (e, best_loop)
                (rw l (next m old (no_better seen m n old r h e (ground (arith, l)))))
        ]

    -- For a request line below 2^32 bytes every stored record has a score, and the loop finds the best
    -- score and, if it is not 0, the first record that has it. That record has the scheme, the host,
    -- the user agent and the path of the request, and the score is the length of the prefix that
    -- its first line has in common with the request line.
    pub best_loop-IsBest :
        (records : List SavedRecord)
        → Returns (λ b. IsBest records b.0 b.1) (best_loop getenv line https records (0, none))
    best_loop-IsBest records =
        best_loop_lem records [] 0 none
          (record { none_better = tt; found = λ p. absurd (omega (arith, p)) })
