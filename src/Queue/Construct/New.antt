-- ===== src/Queue/Construct/New.antt =====
-- What the constructors make of their arguments.
use octopus_mahimahi.Common.{
  ℕ, ◌^◌, ◌≡◌, ◌≢◌, ◌⊎◌, inl, inr, refl, ap, sym, ◌∙◌, subst, Bool, true, false, ◌&&◌, [], Option,
  ok, Ends, Ends-bind, Ends-self, ◌<◌, Bool-cases, ◌>>◌, arith, All, length, ◌==◌, codes,
}
use octopus_mahimahi.Packet.{Bytes}
use octopus_mahimahi.Chunked.{myatoi}
use octopus_mahimahi.Http.Request.Demands.{Throws}
use octopus_mahimahi.Queue.{DroppingQueue}
use octopus_mahimahi.Queue.Fifo.{total, within}
use octopus_mahimahi.Queue.Counts.{Fits, IsCounted, limits}
use octopus_mahimahi.Queue.Limits.{IsSized, IsValid}
use octopus_mahimahi.Queue.Pie.{Doubles}
use octopus_mahimahi.Queue.Construct.{get_arg, number_arg, dropping_queue, codel_queue, pie_queue}

get_arg-Throws : (args name : Bytes) → Ends Throws (λ v. Unit) (get_arg args name)
unfolding get_arg
get_arg-Throws args name = ground arith

module _ (strtol : Bytes → ℕ → Option (ℕ × ℕ)) where
  myatoi-Throws : (s : Bytes) → Ends Throws (λ n. Unit) (myatoi strtol s 10)
  unfolding myatoi
  myatoi-Throws s = ground arith

  number_arg-Throws :
      (args name : Bytes)
      → Ends Throws (λ n. number_arg strtol args name ≡ ok n) (number_arg strtol args name)
  unfolding number_arg
  number_arg-Throws args name = Ends-self Throws (number_arg strtol args name) (
      Ends-bind Throws (λ v. Unit) (λ n. Unit) (get_arg args name) _ (get_arg-Throws args name)
        λ argv u. ground (arith, myatoi-Throws argv))

  -- A queue as the arguments have it: empty, with the limits that they give, of which one is not 0.
  pub record IsNew (args : Bytes) (q : DroppingQueue) : Type 0 where
    pub nothing : q.internal_queue ≡ []
    pub counted : IsCounted q
    pub inside : within (limits q) q.internal_queue ≡ true
    pub packets : number_arg strtol args (codes "packets") ≡ ok q.packet_limit
    pub bytes : number_arg strtol args (codes "bytes") ≡ ok q.byte_limit
    pub limited : (q.packet_limit ≢ 0) ⊎ (q.byte_limit ≢ 0)

  empty-IsNew :
      (args : Bytes) (q : DroppingQueue)
      → q.internal_queue ≡ []
      → (q.queue_size_in_bytes ≡ 0) × (q.queue_size_in_packets ≡ 0)
      → number_arg strtol args (codes "packets") ≡ ok q.packet_limit
      → number_arg strtol args (codes "bytes") ≡ ok q.byte_limit
      → (q.packet_limit == 0 && q.byte_limit == 0) ≡ false
      → IsNew args q
  empty-IsNew args q e z p b l = record {
    nothing = e;
    counted = record {
      bytes = z.0 ∙ sym (ap total e);
      packets = z.1 ∙ sym (ap length e);
      fit = subst (All Fits) (sym e) tt;
      small = subst (λ ps. total ps < 2 ^ 31) (sym e) (omega arith);
    };
    inside = subst (λ ps. within (limits q) ps ≡ true) (sym e) (ground arith);
    packets = p;
    bytes = b;
    limited = ground (arith, l);
  }

  -- Limits that leave room for a packet make it valid for every operation.
  pub IsNew-IsValid :
      (args : Bytes) (q : DroppingQueue) → IsNew args q → IsSized (limits q) → IsValid q
  IsNew-IsValid args q n s = record { counted = n.counted; inside = n.inside; sized = s }

  pub dropping_queue-IsNew :
      (opens : Bytes → Bool) (bandwidth : ℕ) (args : Bytes)
      → Ends Throws (IsNew args) (dropping_queue strtol opens bandwidth args)
  unfolding dropping_queue
  dropping_queue-IsNew opens bandwidth args =
      Ends-bind Throws (λ n. number_arg strtol args (codes "packets") ≡ ok n) (IsNew args)
        (number_arg strtol args (codes "packets")) _ (number_arg-Throws args (codes "packets"))
        λ packet_limit p.
          Ends-bind Throws (λ n. number_arg strtol args (codes "bytes") ≡ ok n) (IsNew args)
            (number_arg strtol args (codes "bytes")) _ (number_arg-Throws args (codes "bytes"))
            λ byte_limit b. elim (Bool-cases (packet_limit == 0 && byte_limit == 0)) [
              | inl z ↦ rw (z, ◌>>◌) refl
              | inr z ↦
                  rw (z, ◌>>◌)
                    (Ends-bind Throws (λ v. Unit) (IsNew args) (get_arg args (codes "log_file")) _
                      (get_arg-Throws args (codes "log_file"))
                      λ log_file u. empty-IsNew args _ refl (refl, refl) p b z)
            ]

  -- The constructor of CoDel throws, or makes a new queue with a target and an interval that are
  -- not 0.
  pub codel_queue-IsNew :
      (opens : Bytes → Bool) (bandwidth : ℕ) (args : Bytes)
      → Ends Throws
          (λ q. IsNew args q.base × ((q.target ≢ 0) × (q.interval ≢ 0)))
          (codel_queue strtol opens bandwidth args)
  unfolding codel_queue
  codel_queue-IsNew opens bandwidth args = ground (
    arith,
    dropping_queue-IsNew opens bandwidth args,
    number_arg-Throws args (codes "target"),
    number_arg-Throws args (codes "interval"),
  )

  -- The constructor of PIE throws, or makes a new queue with a reference delay and a burst that
  -- are not 0, a period of 30 ms and nothing measured yet.
  pub pie_queue-IsNew :
      {D G : Type 0} (doubles : Doubles D) (prng : G) (now : ℕ) (opens : Bytes → Bool)
      (bandwidth : ℕ) (args : Bytes)
      → Ends Throws
          (λ q. IsNew args q.base × ((q.qdelay_ref ≢ 0) × ((q.max_burst ≢ 0) × (q.t_update ≡ 30))))
          (pie_queue strtol doubles prng now opens bandwidth args)
  unfolding pie_queue
  pie_queue-IsNew doubles prng now opens bandwidth args = ground (
    arith,
    dropping_queue-IsNew opens bandwidth args,
    number_arg-Throws args (codes "qdelay_ref"),
    number_arg-Throws args (codes "max_burst"),
  )
