-- ===== src/Poller.antt =====
-- src/util/poller.hh and .cc: one call of poll over the actions of the event loop.
pub mod Counts
pub mod Progress
mod Tests
use octopus_mahimahi.Common.{
  ℕ, zero, suc, ◌≡◌, Bool, true, false, not, ◌&&◌, ◌||◌, List, [], ◌∷◌, ◌++◌, Option, none, some,
  Result, ok, fail, thrown, undefined, ◌>>=◌, ◌>>◌, assert, check, length, null, ◌==◌,
  if◌then◌else◌,
}

pub data Direction : Type 0 where
  in_direction out_direction : Direction

-- `Result::Type` of a callback, and of a call of `poll` with its exit status.
pub data CallbackResult : Type 0 where
  continue_ cancel : CallbackResult
  exit : ℕ → CallbackResult

pub data PollResult : Type 0 where
  success timeout : PollResult
  exited : ℕ → PollResult

-- `revents` of a `pollfd`, as far as the code looks at them: one of POLLERR, POLLHUP and POLLNVAL, and
-- each direction.
pub record Events : Type 0 where
  pub broken : Bool
  pub readable : Bool
  pub writable : Bool

-- `Action`, in a world of type `W`, which the callbacks read and change.
pub record Action (W : Type 0) : Type 0 where
  pub fd : ℕ
  pub read_count : W → ℕ
  pub write_count : W → ℕ
  pub at_eof : W → Bool
  pub direction : Direction
  pub callback : W → Result (CallbackResult × W)
  pub when_interested : W → Bool
  pub active : Bool

-- `pollfd`, with `events` as the one direction that it has, if any.
pub record Pollfd : Type 0 where
  pub fd : ℕ
  pub events : Option Direction

-- Each action with its `pollfd`: two vectors of one length.
abbrev pub Poller : Type 0 → Type 0
Poller W = List (Action W × Pollfd)

abbrev pub some_event : Option Direction → Bool
some_event none = false
some_event (some d) = true

-- `revents & events`
abbrev pub meets : Events → Option Direction → Bool
meets e none = false
meets e (some in_direction) = e.readable
meets e (some out_direction) = e.writable

abbrev pub is_in : Direction → Bool
is_in in_direction = true
is_in out_direction = false

abbrev pub any_event : List (Option Direction) → Bool
any_event [] = false
any_event (d ∷ events) = some_event d || any_event events

module _ {W : Type 0} where
  unfoldable pub add_action : Action W → Poller W → Poller W
  add_action action p = p ++ (action, record { fd = action.fd; events = none }) ∷ []

  unfoldable pub service_count : Action W → W → ℕ
  service_count a w = elim a.direction [
    | in_direction ↦ a.read_count w
    | out_direction ↦ a.write_count w
  ]

  -- The events of one `pollfd` before the call.
  unfoldable pub wanted : W → Action W → Option Direction
  wanted w a =
      let events = if a.active && a.when_interested w then some a.direction else none in
      if is_in a.direction && a.at_eof w then none else events

  unfoldable pub prepare : W → Poller W → Result (Poller W)
  prepare w [] = ok []
  prepare w ((a, f) ∷ p) = do
    assert (f.fd == a.fd)
    rest ← prepare w p
    ok ((a, record f { events = wanted w a }) ∷ rest)

  -- The part of the loop for one action whose events are met: `none` to go on.
  unfoldable pub serve : W → Action W → Result (Option ℕ × (W × Action W))
  serve w a = do
    let count_before = service_count a w
    r ← a.callback w
    elim r.0 [
      | exit status ↦ ok (some status, (r.1, a))
      | cancel ↦ do
        check thrown (not (count_before == service_count a r.1))
        ok (none, (r.1, record a { active = false }))
      | continue_ ↦ do check thrown (not (count_before == service_count a r.1)); ok (none, (r.1, a))
    ]

  -- The loop over the `pollfd`s behind the call, with the events that it has returned.
  unfoldable pub serve_loop : W → List Events → Poller W → Result (PollResult × (W × Poller W))
  serve_loop w events [] = ok (success, (w, []))
  serve_loop w [] ((a, f) ∷ p) = fail undefined
  serve_loop w (e ∷ events) ((a, f) ∷ p) = elim e.broken [
    | true ↦ ok (exited 0, (w, (a, f) ∷ p))
    | false ↦ elim (meets e f.events) [
      | false ↦ do r ← serve_loop w events p; ok (r.0, (r.1.0, (a, f) ∷ r.1.1))
      | true ↦ do
        s ← serve w a
        elim s.0 [
          | some status ↦ ok (exited status, (s.1.0, (s.1.1, f) ∷ p))
          | none ↦ do r ← serve_loop s.1.0 events p; ok (r.0, (r.1.0, (s.1.1, f) ∷ r.1.1))
        ]
    ]
  ]

  abbrev pub wanted_events : Poller W → List (Option Direction)
  wanted_events [] = []
  wanted_events ((a, f) ∷ p) = f.events ∷ wanted_events p

  -- `system_poll` is the system call: `none` if it fails, else the events, or none of them if it times
  -- out.
  unfoldable pub poll :
      (W → List (Option Direction) → ℕ → Option (Option (List Events) × W))
      → ℕ
      → W
      → Poller W
      → Result (PollResult × (W × Poller W))
  poll system_poll timeout_ms w p = do
    p1 ← prepare w p
    elim (any_event (wanted_events p1)) [
      | false ↦ ok (exited 0, (w, p1))
      | true ↦ elim (system_poll w (wanted_events p1) timeout_ms) [
        | none ↦ fail thrown
        | some answer ↦ elim answer.0 [
          | none ↦ ok (timeout, (answer.1, p1))
          | some events ↦ serve_loop answer.1 events p1
        ]
      ]
    ]
