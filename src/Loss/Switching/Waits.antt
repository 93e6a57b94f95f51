-- ===== src/Loss/Switching/Waits.antt =====
-- When the loop over the switches of a link ends, and the wait that follows.
use octopus_mahimahi.Common.{
  ℕ, zero, suc, ◌+◌, ◌^◌, ◌≤◌, ◌<◌, ◌≡◌, ◌⊎◌, true, false, fail, out_of_fuel, Returns, ltb, null,
  min, Result, ◌-◌, if◌then◌else◌,
}
use octopus_mahimahi.Loss.{max_wait}
use octopus_mahimahi.Loss.Switching.{Processes, SwitchingLink, bound, drawn, switch}

-- A link after the loop, where it was `q` before.
pub record Switched {G : Type 0} (now : ℕ) (q q1 : SwitchingLink G) : Type 0 where
  pub after : now < q1.next_switch_time
  pub soon : (q1 ≡ q) ⊎ (q1.next_switch_time ≤ now + 2 ^ 30)
  pub kept : q1.base.packet_queue ≡ q.base.packet_queue

module _ {G D : Type 0} (processes : Processes G D) where
  -- `x > (1 << 30)` is false of a double only if it converts to 2^30 or less.
  abbrev pub Bounded : Type 0
  Bounded = (x : D) → processes.is_long x ≡ false → processes.to_uint64 x ≤ 2 ^ 30

  -- The milliseconds that the next `n` draws add up to. A draw below a millisecond adds nothing.
  abbrev pub span : ℕ → SwitchingLink G → ℕ
  span zero q = 0
  span (suc n) q = bound processes (drawn processes q).0 + span n (switch processes q)

  -- What a call gives that has `fuel` rounds.
  abbrev pub Waits : ℕ → ℕ → SwitchingLink G → Result (ℕ × SwitchingLink G) → Type 0
  Waits fuel now q r = elim (ltb now (q.next_switch_time + span fuel q)) [
    | true ↦
        Returns
          (λ w.
            Switched now q w.1
            × (w.0 ≡ (
                if null q.base.packet_queue then min max_wait (w.1.next_switch_time - now) else 0)))
          r
    | false ↦ r ≡ fail out_of_fuel
  ]
