-- ===== src/EventLoop.antt =====
-- src/util/event_loop.hh and .cc, src/util/child_process.hh and .cc: signals and child processes.
pub mod Children
mod Tests
use octopus_mahimahi.Common.{
  ℕ, zero, suc, ◌+◌, ◌^◌, ◌≡◌, Bool, true, false, not, ◌&&◌, ◌||◌, List, [], ◌∷◌, ◌++◌, Option,
  none, some, Result, ok, fail, thrown, ◌>>=◌, ◌>>◌, assert, check, ◌==◌, if◌then◌else◌, null,
  sub32,
}
use octopus_mahimahi.Poller.{CallbackResult, continue_, exit}

-- An `int` is its 32 bits.
pub record ChildProcess : Type 0 where
  pub pid : ℕ
  pub running : Bool
  pub terminated : Bool
  pub exit_status : ℕ
  pub died_on_signal : Bool
  pub moved_away : Bool

-- `si_code`, as far as the code names its values.
pub data SiCode : Type 0 where
  cld_exited cld_killed cld_dumped cld_stopped cld_continued other_code : SiCode

-- `siginfo_t`, with whether `si_signo` is SIGCHLD.
pub record SigInfo : Type 0 where
  pub si_pid : ℕ
  pub is_sigchld : Bool
  pub si_code : SiCode
  pub si_status : ℕ

-- `ssi_signo`, as far as the code names its values.
pub data Signal : Type 0 where
  sigcont sigchld sighup sigterm sigquit sigint other_signal : Signal

-- The system calls, in a world of type `W`: `none` if one fails. `waitid` takes the process, whether
-- WNOHANG is set and whether WNOWAIT is; `kill` and `raise` send SIGCONT and SIGSTOP.
pub record Kernel (W : Type 0) : Type 0 where
  pub waitid : W → ℕ → Bool → Bool → Option (SigInfo × W)
  pub kill : W → ℕ → Option W
  pub raise : W → Option W

abbrev pub system_call : {A : Type 0} → Option A → Result A
system_call none = fail thrown
system_call (some a) = ok a

abbrev pub Children : Type 0
Children = List (ℕ × ChildProcess)

unfoldable pub add_special_child_process : ℕ → ChildProcess → Children → Children
add_special_child_process continue_status p children = children ++ (continue_status, p) ∷ []

-- An exit status of -1
unfoldable pub add_child_process : ChildProcess → Children → Children
add_child_process p children = children ++ (sub32 0 1, p) ∷ []

-- The test that all children have terminated, for the children behind one of them.
unfoldable pub all_terminated : Children → Result Bool
all_terminated [] = ok true
all_terminated (x ∷ children) = do
  assert (not x.1.moved_away)
  elim x.1.terminated [ true ↦ all_terminated children | false ↦ ok false ]

module _ {W : Type 0} (kernel : Kernel W) where
  unfoldable pub waitable : W → ChildProcess → Result (Bool × W)
  waitable w p = do
    assert (not p.moved_away)
    assert (not p.terminated)
    r ← system_call (kernel.waitid w p.pid true true)
    if r.0.si_pid == 0
        then ok (false, r.1)
        else (if r.0.si_pid == p.pid then ok (true, r.1) else fail thrown)

  abbrev pub state_change : SigInfo → ChildProcess → Result ChildProcess
  state_change info p = elim info.si_code [
    | cld_exited ↦ ok (record p { terminated = true; exit_status = info.si_status })
    | cld_killed ↦
        ok (record p { terminated = true; exit_status = info.si_status; died_on_signal = true })
    | cld_dumped ↦
        ok (record p { terminated = true; exit_status = info.si_status; died_on_signal = true })
    | cld_stopped ↦ ok (record p { running = false })
    | cld_continued ↦ ok (record p { running = true })
    | other_code ↦ fail thrown
  ]

  unfoldable pub wait : W → Bool → ChildProcess → Result (ChildProcess × W)
  wait w nonblocking p = do
    assert (not p.moved_away)
    assert (not p.terminated)
    r ← system_call (kernel.waitid w p.pid nonblocking false)
    check thrown (not (nonblocking && r.0.si_pid == 0))
    check thrown (r.0.si_pid == p.pid)
    check thrown r.0.is_sigchld
    p1 ← state_change r.0 p
    ok (p1, r.1)

  -- `signal( SIGCONT )`
  unfoldable pub signal : W → ChildProcess → Result W
  signal w p = do
    assert (not p.moved_away)
    if p.terminated then ok w else system_call (kernel.kill w p.pid)

  unfoldable pub resume : W → ChildProcess → Result W
  resume w p = do assert (not p.moved_away); if p.running then ok w else signal w p

  unfoldable pub resume_all : W → Children → Result W
  resume_all w [] = ok w
  resume_all w (x ∷ children) = do w1 ← resume w x.1; resume_all w1 children

  -- What follows a change of state: `none` to go on. `others` is the test that all the other
  -- children have terminated.
  unfoldable pub reap :
      W → Result Bool → ℕ × ChildProcess → Result (Option CallbackResult × (W × ChildProcess))
  reap w others (continue_status, p) = do
    r ← wait w true p
    let p1 = r.0
    if p1.terminated
        then (do
          check thrown (p1.exit_status == 0 || p1.exit_status == continue_status)
          all ← others
          ok (
            (if all
                then some (exit 0)
                else (if p1.exit_status == continue_status then some continue_ else some (exit 0))),
            (r.1, p1),
          ))
        else (if p1.running
            then ok (none, (r.1, p1))
            else (do w1 ← system_call (kernel.raise r.1); ok (none, (w1, p1))))

  -- The body of the loop over the children behind SIGCHLD.
  unfoldable pub visit :
      W → Result Bool → ℕ × ChildProcess → Result (Option CallbackResult × (W × ChildProcess))
  visit w others x = do
    assert (not x.1.moved_away)
    if x.1.terminated
        then ok (none, (w, x.1))
        else (do h ← waitable w x.1; if h.0 then reap h.1 others x else ok (none, (h.1, x.1)))

  -- The loop, with whether the children before these have terminated.
  unfoldable pub reap_loop : W → Bool → Children → Result (Option CallbackResult × (W × Children))
  reap_loop w before [] = ok (none, (w, []))
  reap_loop w before (x ∷ children) = do
    s ← visit w (if before then all_terminated children else ok false) x
    elim s.0 [
      | some result ↦ ok (some result, (s.1.0, (x.0, s.1.1) ∷ children))
      | none ↦ do
        r ← reap_loop s.1.0 (before && s.1.1.terminated) children
        ok (r.0, (r.1.0, (x.0, s.1.1) ∷ r.1.1))
    ]

  unfoldable pub handle_signal : W → Signal → Children → Result (CallbackResult × (W × Children))
  handle_signal w sigcont children = do w1 ← resume_all w children; ok (continue_, (w1, children))
  handle_signal w sigchld children = do
    check thrown (not (null children))
    r ← reap_loop w true children
    ok (elim r.0 [ none ↦ continue_ | some result ↦ result ], r.1)
  handle_signal w sighup children = ok (exit 0, (w, children))
  handle_signal w sigterm children = ok (exit 0, (w, children))
  handle_signal w sigquit children = ok (exit 0, (w, children))
  handle_signal w sigint children = ok (exit 0, (w, children))
  handle_signal w other_signal children = fail thrown
