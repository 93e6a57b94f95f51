-- ===== src/EventLoop/Tests.antt =====
-- Two child processes, in a world that is the list of the statuses with which processes have ended
-- and which nothing has waited for.
use octopus_mahimahi.Common.{
  ℕ, ◌≡◌, refl, true, false, List, [], ◌∷◌, Option, none, some, ok, Ends, ◌==◌, if◌then◌else◌,
  sub32,
}
use octopus_mahimahi.Http.Request.Demands.{Throws}
use octopus_mahimahi.Poller.{continue_, exit}
use octopus_mahimahi.EventLoop.{
  ChildProcess, Children, Kernel, cld_exited, sigchld, handle_signal, reap_loop, visit, waitable,
  wait, reap, all_terminated, add_child_process, add_special_child_process,
}
use octopus_mahimahi.EventLoop.Children.{Each, is_calm, handle_signal-Reaped}

abbrev status_of : ℕ → List (ℕ × ℕ) → Option ℕ
status_of pid [] = none
status_of pid ((p, s) ∷ w) = if p == pid then some s else status_of pid w

abbrev without : ℕ → List (ℕ × ℕ) → List (ℕ × ℕ)
without pid [] = []
without pid ((p, s) ∷ w) = if p == pid then w else (p, s) ∷ without pid w

abbrev kernel : Kernel (List (ℕ × ℕ))
kernel = record {
  waitid = λ w pid nohang nowait. elim (status_of pid w) [
    | none ↦ some (record { si_pid = 0; is_sigchld = true; si_code = cld_exited; si_status = 0 }, w)
    | some s ↦ some (
      record { si_pid = pid; is_sigchld = true; si_code = cld_exited; si_status = s },
      if nowait then w else without pid w,
    )
  ];
  kill = λ w pid. some w;
  raise = λ w. some w;
}

abbrev child : ℕ → ChildProcess
child n = record {
  pid = n;
  running = true;
  terminated = false;
  exit_status = 0;
  died_on_signal = false;
  moved_away = false;
}

abbrev both : Children
both = (7, child 10) ∷ (sub32 0 1, child 11) ∷ []

made : add_child_process (child 11) (add_special_child_process 7 (child 10) []) ≡ both
unfolding add_child_process add_special_child_process
made = refl

ordinary_exit :
    handle_signal kernel ((11, 0) ∷ []) sigchld both
    ≡ ok (exit 0, ([], (7, child 10) ∷ (sub32 0 1, record (child 11) { terminated = true }) ∷ []))
unfolding handle_signal reap_loop visit waitable wait reap all_terminated
ordinary_exit = refl

-- Both have ended behind one signal: the second stays unseen, and the loop goes on.
second_unseen :
    handle_signal kernel ((10, 7) ∷ (11, 0) ∷ []) sigchld both
    ≡ ok (
      continue_,
      (
        (11, 0) ∷ [],
        (7, record (child 10) { terminated = true; exit_status = 7 }) ∷ (sub32 0 1, child 11) ∷ [],
      ),
    )
unfolding handle_signal reap_loop visit waitable wait reap all_terminated
second_unseen = refl

handle_signal-Reaped_example :
    Ends Throws
      (λ r. Each (is_calm (some r.0)) both r.1.1)
      (handle_signal kernel ((10, 7) ∷ (11, 0) ∷ []) sigchld both)
handle_signal-Reaped_example =
    handle_signal-Reaped kernel ((10, 7) ∷ (11, 0) ∷ []) sigchld both (refl, (refl, tt))
