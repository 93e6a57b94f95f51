-- ===== src/Link/Construct/Valid.antt =====
-- A link made from a well-formed trace.
use octopus_mahimahi.Common.{
  ℕ, zero, suc, ◌+◌, ◌-◌, ◌%◌, ◌^◌, ◌≡◌, ◌≢◌, ◌≤◌, ◌<◌, ◌⊎◌, inl, inr, refl, ap, sym, ◌∙◌, subst,
  Bool, true, false, ◌||◌, List, [], ◌∷◌, ◌++◌, append_assoc, append-nil, Option, none, some, ok,
  ◌>>=◌, ◌>>◌, arith, All, Returns, Returns-bind, Returns-ok, Bool-cases, length, null, get_or,
  last_or, replicate, leb, ltb, ◌==◌, add64, sub64, sub32, signed_lt,
}
use octopus_mahimahi.Packet.{Bytes}
use octopus_mahimahi.Chunked.{myatoi}
use octopus_mahimahi.Queue.Bitrate.{sign_extend}
use octopus_mahimahi.Link.State.{LinkQueue}
use octopus_mahimahi.Link.Trace.{Rising, Rising-last, get_or-le-last, back-last_or}
use octopus_mahimahi.Queue.Abstract.{PacketQueue, IsQueue}
use octopus_mahimahi.Link.Held.{held}
use octopus_mahimahi.Link.Rationalize.{IsLink}
use octopus_mahimahi.Link.Construct.{
  getlines, element, cycle_of, left_loop, interval_of, bitrate_at, bitrate_loop, rounds, bitrates,
  open_log, load_loop, link_queue,
}

element-get_or : (ts : List ℕ) (i : ℕ) → i < length ts → element ts i ≡ ok (get_or ts i 0)
unfolding element
element-get_or [] i h = absurd (omega arith)
element-get_or (t ∷ ts) zero h = refl
element-get_or (t ∷ ts) (suc i) h = element-get_or ts i (omega arith)

last-get_or : (d : ℕ) (ts : List ℕ) → 0 < length ts → get_or ts (length ts - 1) 0 ≡ last_or d ts
last-get_or d [] h = absurd (omega arith)
last-get_or d (t ∷ []) h = refl
last-get_or d (t ∷ u ∷ ts) h =
    let e : suc (suc (length ts)) - 1 ≡ suc (suc (length ts) - 1) = omega arith in
    rw e (last-get_or t (u ∷ ts) (omega arith))

last_or-append : (d : ℕ) (ts : List ℕ) (t : ℕ) → last_or d (ts ++ t ∷ []) ≡ t
last_or-append d [] t = refl
last_or-append d (u ∷ ts) t = last_or-append u ts t

-- A trace of which `cycle` is an `int`.
pub record IsTrace (s : List ℕ) : Type 0 where
  pub rising : Rising 0 s
  pub lasting : 0 < last_or 0 s
  pub small : last_or 0 s < 2 ^ 31
  pub some_time : 0 < length s
  pub short : length s < 2 ^ 31

module _ (s : List ℕ) (v : IsTrace s) where
  abbrev time : ℕ → ℕ
  time i = get_or s i 0

  time_bound : (i : ℕ) → i < length s → time i ≤ last_or 0 s
  time_bound i h = get_or-le-last 0 i s v.rising h

  -- Where the loop may stop: there is time between the two places.
  abbrev Apart : ℕ → ℕ → Type 0
  Apart i left = (left < length s) × (0 < interval_of s i left (time i) (time left))

  -- Behind the start of the trace the loop stops at once.
  around :
      (fuel i : ℕ)
      → 0 < fuel
      → i < length s
      → 50 ≤ time i
      → Returns
          (Apart i)
          (left_loop fuel s i ((length s - 1) % 2 ^ 32) (sign_extend (sub32 0 (cycle_of s))))
  unfolding left_loop
  around zero i f h t = absurd (omega (arith, f))
  around (suc fuel) i f h t =
      let k = (length s - 1) % 2 ^ 32 in
      let end_ : k ≡ length s - 1 = omega (arith, v.short) in
      let here = element-get_or s k (omega (arith, end_, v.some_time)) in
      let there = element-get_or s i h in
      let last : time k ≡ last_or 0 s = ap time end_ ∙ last-get_or 0 s v.some_time in
      let stops : ltb (sub64 (time i) 50) (add64 (time k) (sign_extend (sub32 0 (cycle_of s))))
          ≡ false =
        ground (arith, last, v.small, v.lasting, t, time_bound i h) in
      let apart : 0 < interval_of s i k (time i) (time k) =
        ground (arith, last, end_, v.small, v.lasting, t, time_bound i h, h) in
      rw (here, left_loop) (rw there (rw (stops, ◌>>=◌) (omega (arith, end_, v.some_time), apart)))

  apart_here :
      (i left : ℕ) → left ≡ i → i < length s → 0 < interval_of s i left (time i) (time left)
  apart_here i left same h =
      let here : 0 < interval_of s i i (time i) (time i) =
        ground (arith, v.small, v.lasting, time_bound i h) in
      subst (λ k. 0 < interval_of s i k (time i) (time k)) (sym same) here

  -- Before that it goes down from `i`.
  down :
      (fuel i left : ℕ)
      → left + 1 < fuel
      → i < length s
      → left ≤ i
      → (left ≡ i) ⊎ (50 ≤ time i)
      → Returns (Apart i) (left_loop fuel s i left 0)
  unfolding left_loop
  down zero i left f h l w = absurd (omega (arith, f))
  down (suc fuel) i left f h l w =
      let here = element-get_or s left (omega (arith, l, h)) in
      let there = element-get_or s i h in
      let bounds = time_bound i h in
      let bound = time_bound left (omega (arith, l, h)) in
      elim (Bool-cases (ltb (sub64 (time i) 50) (add64 (time left) 0))) [
        | inr e ↦
            let apart : 0 < interval_of s i left (time i) (time left) = elim w [
              | inl same ↦ apart_here i left same h
              | inr late ↦ ground (arith, e, late, bounds, bound, v.small)
            ] in
            rw (here, left_loop) (rw there (rw (e, ◌>>=◌) (omega (arith, l, h), apart)))
        | inl e ↦
            let late : 50 ≤ time i = ground (arith, e, bounds, bound, v.small) in
            elim (Bool-cases (left == 0)) [
              | inl z ↦
                  rw (here, left_loop)
                    (rw there (rw (e, ◌>>=◌) (rw z (around fuel i (omega (arith, f)) h late))))
              | inr z ↦
                  rw (here, left_loop)
                    (rw there (
                      rw (e, ◌>>=◌)
                        (rw z (
                          down fuel i (left - 1) (ground (arith, z, f)) h (omega (arith, l))
                            (inr late)))))
            ]
      ]

  rate_at : (i : ℕ) → i < length s → Returns (λ b. Unit) (bitrate_at s i)
  unfolding bitrate_at
  rate_at i h =
      Returns-bind (Apart i) (λ b. Unit) (left_loop (length s + 2) s i i 0) _
        (down (length s + 2) i i (omega (arith, h)) h (omega arith) (inl refl))
        λ left a.
          let here = element-get_or s left a.0 in
          let there = element-get_or s i h in
          let divides : (interval_of s i left (time i) (time left) == 0) ≡ false =
            ground (arith, a.1) in
          rw here (rw there (rw divides tt))

  rates : (i n : ℕ) → i + n ≤ length s → Returns (λ bs. length bs ≡ n) (bitrate_loop s i n)
  unfolding bitrate_loop
  rates i zero h = refl
  rates i (suc n) h =
      Returns-bind (λ b. Unit) (λ bs. length bs ≡ suc n) (bitrate_at s i) _
        (rate_at i (omega (arith, h)))
        λ b u.
          Returns-bind (λ bs. length bs ≡ n) (λ bs. length bs ≡ suc n) (bitrate_loop s (suc i) n) _
            (rates (suc i) n (omega (arith, h))) λ bs e. ap suc e

  length-replicate : (n b : ℕ) → length (replicate n b) ≡ n
  length-replicate zero b = refl
  length-replicate (suc n) b = ap suc (length-replicate n b)

  bitrates-Returns : Returns (λ bs. length bs ≡ length s) (bitrates s)
  unfolding bitrates
  bitrates-Returns =
      let end_ = back-last_or s v.some_time in
      let all : rounds s ≡ length s = ground (arith, v.short) in
      let divides : (last_or 0 s == 0) ≡ false = ground (arith, v.lasting) in
      elim (Bool-cases (signed_lt (last_or 0 s % 2 ^ 32) 100)) [
        | inl e ↦
            rw (end_, bitrates)
              (rw (e, ◌>>=◌) (rw (divides, ◌>>◌) (length-replicate (rounds s) _ ∙ all)))
        | inr e ↦
            rw (end_, bitrates)
              (rw (e, ◌>>=◌)
                (subst (λ n. Returns (λ bs. length bs ≡ length s) (bitrate_loop s 0 n)) (sym all)
                  (rates 0 (length s) (omega arith))))
      ]

module _ (strtol : Bytes → ℕ → Option (ℕ × ℕ)) where
  -- The lines have the numbers.
  abbrev pub Reads : List Bytes → List ℕ → Type 0
  Reads [] [] = Unit
  Reads [] (t ∷ times) = ⊥
  Reads (line ∷ lines) [] = ⊥
  Reads (line ∷ lines) (t ∷ times) =
      (null line ≡ false) × ((myatoi strtol line 10 ≡ ok t) × Reads lines times)

  load_loop_lem :
      (lines : List Bytes) (times acc : List ℕ)
      → Reads lines times
      → Rising (last_or 0 acc) times
      → last_or (last_or 0 acc) times < 2 ^ 64
      → load_loop strtol lines acc ≡ ok (acc ++ times)
  unfolding load_loop
  load_loop_lem [] [] acc h r b = ap ok (sym (append-nil acc))
  load_loop_lem [] (t ∷ times) acc h r b = absurd h
  load_loop_lem (line ∷ lines) [] acc h r b = absurd h
  load_loop_lem (line ∷ lines) (t ∷ times) acc h r b =
      let whole : t % 2 ^ 64 ≡ t = omega (arith, Rising-last t times r.1, b) in
      let rises : (null acc || leb (last_or 0 acc) t) ≡ true = ground (arith, r.0) in
      let later =
        load_loop_lem lines times (acc ++ t ∷ []) h.1.1
          (subst (λ k. Rising k times) (sym (last_or-append 0 acc t)) r.1)
          (subst (λ k. last_or k times < 2 ^ 64) (sym (last_or-append 0 acc t)) b)
        ∙ ap ok (append_assoc acc (t ∷ []) times) in
      rw (h.0, load_loop) (rw (h.1.0, ◌>>=◌) (rw whole (rw (rises, ◌>>◌) later)))

  -- A log that is asked for can be opened.
  abbrev pub Opens : Option Bool → Type 0
  Opens logfile = logfile ≢ some false

  open_log_lem : (logfile : Option Bool) → Opens logfile → Returns (λ l. Unit) (open_log logfile)
  unfolding open_log
  open_log_lem none h = tt
  open_log_lem (some true) h = tt
  open_log_lem (some false) h = absurd (h refl)

  module _ {Q : Type 0} {ops : PacketQueue Q} (laws : IsQueue ops) (rate : ℕ → ℕ → ℕ) where
    -- A link that starts: it can be used, at the start of its trace, and has no packets.
    pub record Starts (times : List ℕ) (q : LinkQueue Q) : Type 0 where
      pub is_link : IsLink laws rate q
      pub trace : q.schedule ≡ times
      pub at_start : (q.next_delivery ≡ 0) × (q.base_timestamp ≡ 0)
      pub nothing_held : held laws q ≡ []
      pub nothing_sent : q.output_queue ≡ []

    -- Not as root, from a file whose lines are numbers, not falling, of which the last is positive and below
    -- 2^31, and fewer than 2^31, with a valid and empty queue and a log that opens, the constructor
    -- returns a link that can be used: its loops end, and nothing is divided by zero.
    pub link_queue-Starts :
        (trace : Bytes) (times : List ℕ) (logfile : Option Bool) (repeat throughput delay : Bool)
        (packet_queue : Q)
        → Reads (getlines [] trace) times
        → IsTrace times
        → Opens logfile
        → laws.IsValid packet_queue
        → laws.packets packet_queue ≡ []
        → Returns
            (Starts times)
            (link_queue strtol false (some trace) logfile repeat throughput delay packet_queue)
    unfolding link_queue
    link_queue-Starts trace times logfile repeat throughput delay packet_queue h v o w e =
        let loaded =
          load_loop_lem (getlines [] trace) times [] h v.rising (omega (arith, v.small)) in
        let (bitrate, (computed, counted)) =
          Returns-ok (λ bs. length bs ≡ length times) (bitrates times) (bitrates-Returns times v) in
        let (log, (opened, u)) =
          Returns-ok (λ l. Unit) (open_log logfile) (open_log_lem logfile o) in
        let same : (length bitrate == length times) ≡ true = ground (arith, counted) in
        let some_times : null times ≡ false = ground (arith, v.some_time) in
        let end_ = back-last_or times v.some_time in
        let lasting : (last_or 0 times == 0) ≡ false = ground (arith, v.lasting) in
        rw (loaded, link_queue)
          (rw (computed, ◌>>=◌)
            (rw (same, ◌>>◌)
              (rw (some_times, ◌>>◌)
                (rw (end_, ◌>>=◌)
                  (rw (lasting, ◌>>◌)
                    (rw (opened, ◌>>=◌)
                      (record {
                        is_link = record {
                          timed = record {
                            rising = v.rising;
                            lasting = v.lasting;
                            short = omega (arith, v.short);
                            inside = v.some_time;
                            room = omega (arith, v.small);
                          };
                          can_send = record {
                            valid = w;
                            small = omega arith;
                            whole = omega arith;
                            timely = subst (All _) (sym e) tt;
                          };
                        };
                        trace = refl;
                        at_start = (refl, refl);
                        nothing_held = e;
                        nothing_sent = refl;
                      })))))))
