-- ===== src/Poller/Tests.antt =====
-- One action that reads a descriptor, in a world that is the count of its reads.
use octopus_mahimahi.Common.{
  ℕ, suc, ◌≡◌, refl, true, false, List, [], ◌∷◌, Option, none, some, ok, fail, thrown, Ends, arith,
}
use octopus_mahimahi.Http.Request.Demands.{Throws}
use octopus_mahimahi.Poller.{
  prepare, wanted, serve_loop, serve, service_count, Action, Poller, Events, Direction,
  in_direction, continue_, success, timeout, add_action, poll,
}
use octopus_mahimahi.Poller.Progress.{Polled, poll-Progress}
use octopus_mahimahi.Poller.Counts.{actions}

abbrev reader : Action ℕ
reader = record {
  fd = 4;
  read_count = λ n. n;
  write_count = λ n. 0;
  at_eof = λ n. false;
  direction = in_direction;
  callback = λ n. ok (continue_, suc n);
  when_interested = λ n. true;
  active = true;
}

-- It writes and is asked to read.
abbrev lazy : Action ℕ
lazy = record reader { callback = λ n. ok (continue_, n) }

abbrev readers : Poller ℕ
readers = add_action reader []

abbrev answer : ℕ → List (Option Direction) → ℕ → Option (Option (List Events) × ℕ)
answer n asked t =
    some (some (record { broken = false; readable = true; writable = false } ∷ []), n)

served :
    poll answer 100 7 readers
    ≡ ok (success, (8, (reader, record { fd = 4; events = some in_direction }) ∷ []))
unfolding add_action poll prepare wanted serve_loop serve service_count
served = refl

busy_wait : poll answer 100 7 (add_action lazy []) ≡ fail thrown
unfolding add_action poll prepare wanted serve_loop serve service_count
busy_wait = refl

timed_out :
    poll (λ n a t. some (none, n)) 100 7 readers
    ≡ ok (timeout, (7, (reader, record { fd = 4; events = some in_direction }) ∷ []))
unfolding add_action poll prepare wanted serve_loop serve service_count
timed_out = refl

poll-Progress_example : Ends Throws (Polled (actions readers) 7) (poll answer 100 7 readers)
unfolding add_action service_count wanted
poll-Progress_example =
    poll-Progress answer 100 7 readers (refl, tt) (λ w. (omega arith, tt), tt)
      λ t. ((omega arith, tt), (refl, refl))
