-- ===== src/EventLoop/Children.antt =====
-- What a signal does to the child processes.
use octopus_mahimahi.Common.{
  ℕ, ◌≡◌, refl, Bool, true, false, ◌&&◌, [], ◌∷◌, Option, none, some, Result, ok, Ends, Ends-bind,
  subst, ◌>>=◌, arith, Bool-cases, ◌⊎◌, inl, inr, Option-cases, if◌then◌else◌,
}
use octopus_mahimahi.Http.Request.Demands.{Throws}
use octopus_mahimahi.Poller.{CallbackResult, exit}
use octopus_mahimahi.EventLoop.{
  ChildProcess, Children, Kernel, Signal, sigcont, sigchld, sighup, sigterm, sigquit, sigint,
  other_signal, waitable, visit, wait, signal, resume, resume_all, reap, reap_loop, handle_signal,
  all_terminated,
}

-- The loop has made nothing of a child, or one change of a child that had not terminated. If `calm`,
-- a child that has terminated now has its own status to continue with.
pub record Reaped (calm : Bool) (x x1 : ℕ × ChildProcess) : Type 0 where
  pub status : x1.0 ≡ x.0
  pub same : x1.1.pid ≡ x.1.pid
  pub here : x1.1.moved_away ≡ false
  pub final : x.1.terminated ≡ true → x1.1 ≡ x.1
  pub quiet :
      calm ≡ true → x1.1.terminated ≡ true → (x.1.terminated ≡ true) ⊎ (x1.1.exit_status ≡ x.0)

abbrev pub Each : Bool → Children → Children → Type 0
Each calm [] [] = Unit
Each calm [] (y ∷ ys) = ⊥
Each calm (x ∷ xs) [] = ⊥
Each calm (x ∷ xs) (y ∷ ys) = Reaped calm x y × Each calm xs ys

-- The children are those of this event loop.
abbrev pub Held : Children → Type 0
Held [] = Unit
Held (x ∷ xs) = (x.1.moved_away ≡ false) × Held xs

abbrev pub is_calm : Option CallbackResult → Bool
is_calm (some (exit n)) = false
is_calm o = true

keep : (calm : Bool) (x : ℕ × ChildProcess) → x.1.moved_away ≡ false → Reaped calm x x
keep calm x h = record {
  status = refl;
  same = refl;
  here = h;
  final = λ t. refl;
  quiet = λ c t. inl t;
}

calmer : (calm : Bool) (x x1 : ℕ × ChildProcess) → Reaped true x x1 → Reaped calm x x1
calmer calm x x1 k = record {
  status = k.status;
  same = k.same;
  here = k.here;
  final = k.final;
  quiet = λ c t. k.quiet refl t;
}

Each-refl : (calm : Bool) (xs : Children) → Held xs → Each calm xs xs
Each-refl calm [] h = tt
Each-refl calm (x ∷ xs) h = (keep calm x h.0, Each-refl calm xs h.1)

all_terminated-Throws : (xs : Children) → Held xs → Ends Throws (λ b. Unit) (all_terminated xs)
unfolding all_terminated
all_terminated-Throws [] h = tt
all_terminated-Throws (x ∷ xs) h = ground (arith, h.0, all_terminated-Throws xs h.1)

others_lem :
    (before : Bool) (xs : Children)
    → Held xs
    → Ends Throws (λ b. Unit) (if before then all_terminated xs else ok false)
others_lem true xs h = all_terminated-Throws xs h
others_lem false xs h = tt

module _ {W : Type 0} (kernel : Kernel W) where
  waitable_lem :
      (w : W) (p : ChildProcess)
      → p.moved_away ≡ false
      → p.terminated ≡ false
      → Ends Throws (λ h. Unit) (waitable kernel w p)
  unfolding waitable
  waitable_lem w p m t = ground arith

  wait_lem :
      (w : W) (p : ChildProcess)
      → p.moved_away ≡ false
      → p.terminated ≡ false
      → Ends Throws (λ r. (r.0.pid ≡ p.pid) × (r.0.moved_away ≡ false)) (wait kernel w true p)
  unfolding wait
  wait_lem w p m t = ground arith

  changed :
      (calm : Bool) (x : ℕ × ChildProcess) (p : ChildProcess)
      → x.1.terminated ≡ false
      → (p.pid ≡ x.1.pid) × (p.moved_away ≡ false)
      → (calm ≡ true → p.terminated ≡ true → p.exit_status ≡ x.0)
      → Reaped calm x (x.0, p)
  changed calm x p t k q = record {
    status = refl;
    same = k.0;
    here = k.1;
    final = λ y. ground (arith, t, y);
    quiet = λ c y. inr (q c y);
  }

  reap_lem :
      (w : W) (others : Result Bool) (x : ℕ × ChildProcess)
      → Ends Throws (λ b. Unit) others
      → x.1.moved_away ≡ false
      → x.1.terminated ≡ false
      → Ends Throws (λ s. Reaped (is_calm s.0) x (x.0, s.1.1)) (reap kernel w others x)
  unfolding reap
  reap_lem w others x o m t =
      Ends-bind Throws (λ r. (r.0.pid ≡ x.1.pid) × (r.0.moved_away ≡ false)) _
        (wait kernel w true x.1) _ (wait_lem w x.1 m t)
        λ r k. elim (Bool-cases r.0.terminated) [
          | inl y ↦ ground (arith, y, changed true x r.0 t k, changed false x r.0 t k, o)
          | inr y ↦ ground (arith, y, changed true x r.0 t k)
        ]

  watched :
      (w : W) (others : Result Bool) (x : ℕ × ChildProcess)
      → Ends Throws (λ b. Unit) others
      → x.1.moved_away ≡ false
      → x.1.terminated ≡ false
      → Ends Throws
          (λ s. Reaped (is_calm s.0) x (x.0, s.1.1))
          (waitable kernel w x.1 >>= λ h.
            if h.0 then reap kernel h.1 others x else ok (none, (h.1, x.1)))
  watched w others x o m t =
      Ends-bind Throws (λ h. Unit) _ (waitable kernel w x.1) _ (waitable_lem w x.1 m t)
        λ h u. elim (Bool-cases h.0) [
          | inl e ↦ rw e (reap_lem h.1 others x o m t)
          | inr e ↦ rw e (keep true x m)
        ]

  visit_lem :
      (w : W) (others : Result Bool) (x : ℕ × ChildProcess)
      → Ends Throws (λ b. Unit) others
      → x.1.moved_away ≡ false
      → Ends Throws (λ s. Reaped (is_calm s.0) x (x.0, s.1.1)) (visit kernel w others x)
  unfolding visit
  visit_lem w others x o m = elim (Bool-cases x.1.terminated) [
    | inl t ↦ ground (arith, t, keep true x m)
    | inr t ↦ ground (arith, t, watched w others x o m t)
  ]

  reap_loop_lem :
      (w : W) (before : Bool) (children : Children)
      → Held children
      → Ends Throws (λ r. Each (is_calm r.0) children r.1.1) (reap_loop kernel w before children)
  unfolding reap_loop
  reap_loop_lem w before [] h = tt
  reap_loop_lem w before (x ∷ children) h =
      Ends-bind Throws (λ s. Reaped (is_calm s.0) x (x.0, s.1.1)) _
        (visit kernel w (if before then all_terminated children else ok false) x) _
        (visit_lem w (if before then all_terminated children else ok false) x
          (others_lem before children h.1) h.0)
        λ s k. elim (Option-cases s.0) [
          | inl o ↦ rw o (
              Ends-bind Throws (λ r. Each (is_calm r.0) children r.1.1) _
                (reap_loop kernel s.1.0 (before && s.1.1.terminated) children) _
                (reap_loop_lem s.1.0 (before && s.1.1.terminated) children h.1)
                λ r e. (
                  calmer (is_calm r.0) x (x.0, s.1.1)
                      (subst (λ r. Reaped (is_calm r) x (x.0, s.1.1)) o k),
                  e,
                ))
          | inr (result, o) ↦ rw o (
            subst (λ r. Reaped (is_calm r) x (x.0, s.1.1)) o k,
            Each-refl (is_calm (some result)) children h.1,
          )
        ]

  resume_lem :
      (w : W) (p : ChildProcess)
      → p.moved_away ≡ false
      → Ends Throws (λ v. Unit) (resume kernel w p)
  unfolding resume signal
  resume_lem w p m = ground arith

  resume_all_lem :
      (w : W) (children : Children)
      → Held children
      → Ends Throws (λ w1. Unit) (resume_all kernel w children)
  unfolding resume_all
  resume_all_lem w [] h = tt
  resume_all_lem w (x ∷ children) h =
      Ends-bind Throws (λ v. Unit) _ (resume kernel w x.1) _ (resume_lem w x.1 h.0)
        λ v u. resume_all_lem v children h.1

  -- For any signal, where no child process object has been moved away, `handle_signal` fails no
  -- assertion: it throws an exception or returns with the same children, of which those that had
  -- terminated have not changed; if its result is not Exit, each child that has terminated in the call
  -- has its own continue status as its exit status.
  pub handle_signal-Reaped :
      (w : W) (sig : Signal) (children : Children)
      → Held children
      → Ends Throws
          (λ r. Each (is_calm (some r.0)) children r.1.1)
          (handle_signal kernel w sig children)
  unfolding handle_signal
  handle_signal-Reaped w sigcont children h =
      Ends-bind Throws (λ v. Unit) _ (resume_all kernel w children) _ (resume_all_lem w children h)
        λ v u. Each-refl true children h
  handle_signal-Reaped w sigchld [] h = refl
  handle_signal-Reaped w sigchld (x ∷ children) h =
      Ends-bind Throws (λ r. Each (is_calm r.0) (x ∷ children) r.1.1) _
        (reap_loop kernel w true (x ∷ children)) _ (reap_loop_lem w true (x ∷ children) h)
        λ r e. elim (Option-cases r.0) [
          | inl o ↦ rw o (subst (λ v. Each (is_calm v) (x ∷ children) r.1.1) o e)
          | inr (result, o) ↦ rw o (subst (λ v. Each (is_calm v) (x ∷ children) r.1.1) o e)
        ]
  handle_signal-Reaped w sighup children h = Each-refl false children h
  handle_signal-Reaped w sigterm children h = Each-refl false children h
  handle_signal-Reaped w sigquit children h = Each-refl false children h
  handle_signal-Reaped w sigint children h = Each-refl false children h
  handle_signal-Reaped w other_signal children h = refl
