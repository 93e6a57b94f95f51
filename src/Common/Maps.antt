-- ===== src/Common/Maps.antt =====
-- `std::map` with numbers for keys, as a list of its entries.
use Prim.Native.Nat.{ℕ}
use mathlib.Core.Bool.{true, false}
use mathlib.Core.List.{List, [], ◌∷◌}
use mathlib.Core.Option.{Option, none, some}
use octopus_mahimahi.Common.Tests.{◌==◌}

module _ {ℓ} {V : Type ℓ} where
  abbrev pub find : ℕ → List (ℕ × V) → Option V
  find k [] = none
  find k ((j, v) ∷ m) = elim (k == j) [ true ↦ some v | false ↦ find k m ]

  -- `m[ k ] = v`
  abbrev pub put : ℕ → V → List (ℕ × V) → List (ℕ × V)
  put k v [] = (k, v) ∷ []
  put k v ((j, w) ∷ m) = elim (k == j) [ true ↦ (j, v) ∷ m | false ↦ (j, w) ∷ put k v m ]

  abbrev pub erase : ℕ → List (ℕ × V) → List (ℕ × V)
  erase k [] = []
  erase k ((j, w) ∷ m) = elim (k == j) [ true ↦ m | false ↦ (j, w) ∷ erase k m ]

  -- `m[ k ]`, where a missing key reads as `d`.
  abbrev pub value_or : V → ℕ → List (ℕ × V) → V
  value_or d k m = elim (find k m) [ none ↦ d | some v ↦ v ]

  -- `m[ k ]` puts `d` there if the key is missing.
  abbrev pub touch : V → ℕ → List (ℕ × V) → List (ℕ × V)
  touch d k m = put k (value_or d k m) m
