-- ===== src/Loss/Switching.antt =====
-- SwitchingLink of src/frontend/loss_queue.hh and .cc: a link that is on and off for random times.
pub mod Waits
use octopus_mahimahi.Common.{
  ℕ, zero, suc, ◌-◌, ◌^◌, ◌≡◌, Bool, true, false, not, Result, ok, fail, out_of_fuel, ◌>>=◌, ltb,
  leb, add64, ◌==◌, if◌then◌else◌,
}
use octopus_mahimahi.Packet.{Bytes}
use octopus_mahimahi.Loss.{LossQueue, max_wait, wait_time}

-- `on_process_` and `off_process_` draw a double from the state `G` of the generator.
pub record Processes (G D : Type 0) : Type 0 where
  pub on_process : G → D × G
  pub off_process : G → D × G
  pub is_long : D → Bool
  pub to_uint64 : D → ℕ

pub record SwitchingLink (G : Type 0) : Type 0 where
  pub base : LossQueue G
  pub link_is_on : Bool
  pub next_switch_time : ℕ

module _ {G D : Type 0} (processes : Processes G D) where
  -- `is_long x` stands for `x > (1 << 30)`.
  unfoldable pub bound : D → ℕ
  bound x = if processes.is_long x then 2 ^ 30 else processes.to_uint64 x

  abbrev pub drawn : SwitchingLink G → D × G
  drawn q =
      if not q.link_is_on
      then processes.off_process q.base.prng
      else processes.on_process q.base.prng

  -- The body of the loop in `wait_time`.
  unfoldable pub switch : SwitchingLink G → SwitchingLink G
  switch q = record {
    base = record q.base { prng = (drawn q).1 };
    link_is_on = not q.link_is_on;
    next_switch_time = add64 q.next_switch_time (bound (drawn q).0);
  }

  unfoldable pub switch_loop : ℕ → ℕ → SwitchingLink G → Result (SwitchingLink G)
  switch_loop zero now q = if leb q.next_switch_time now then fail out_of_fuel else ok q
  switch_loop (suc fuel) now q = elim (leb q.next_switch_time now) [
    | false ↦ ok q
    | true ↦ switch_loop fuel now (switch q)
  ]

  unfoldable pub switching_wait : ℕ → ℕ → SwitchingLink G → Result (ℕ × SwitchingLink G)
  switching_wait fuel now q = do
    q1 ← switch_loop fuel now q
    ok (
      (if wait_time q1.base == 0
          then 0
          else (if ltb max_wait (q1.next_switch_time - now)
              then max_wait
              else q1.next_switch_time - now)),
      q1,
    )

-- `SwitchingLink::drop_packet`
unfoldable pub drop_switching : {G : Type 0} → SwitchingLink G → Bytes → G → Bool × G
drop_switching q packet g = (not q.link_is_on, g)
