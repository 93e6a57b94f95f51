-- ===== src/Queue/Bitrate/Share.antt =====
-- The share of the link that the Octopus queue gives to a flow.
use octopus_mahimahi.Common.{ℕ, ◌+◌, ◌-◌, ◌/◌, ◌^◌, ◌≤◌, ◌<◌, ◌≡◌, ◌≢◌, arith}
use octopus_mahimahi.Queue.Bitrate.Departures.{fair_share}

-- The share of a flow of rate `own` in a bandwidth `b`, with peers of rate `peer`. Without peers it is
-- all. From the half on it is the half at least, and up to the half the flow's own rate at least. If
-- the flow is above the half and the peers below it, it is what they leave.
pub record IsShare (own peer b share : ℕ) : Type 0 where
  pub alone : peer ≡ 0 → share ≡ b
  pub half : b / 2 ≤ own → b / 2 ≤ share
  pub own_rate : own ≤ b / 2 → own ≤ share
  pub left_over : peer ≢ 0 → peer < b / 2 → b / 2 < own → share ≡ b - peer
  pub at_most : own ≤ b → share ≤ b + 500

-- For rates and a bandwidth in range, the fair share is one in the sense of `IsShare`.
pub fair_share-IsShare :
    (own peer b : ℕ)
    → own + 500 < 2 ^ 32
    → peer < 2 ^ 32
    → b < 2 ^ 32
    → IsShare own peer b (fair_share own peer b)
unfolding fair_share
fair_share-IsShare own peer b ho hp hb = record {
  alone = λ z. ground (arith, z);
  half = λ h. ground (arith, h, hb, hp, ho);
  own_rate = λ h. ground (arith, h, hb, hp, ho);
  left_over = λ n h k. ground (arith, n, h, k, hb, hp, ho);
  at_most = λ h. ground (arith, h, hb, hp, ho);
}
