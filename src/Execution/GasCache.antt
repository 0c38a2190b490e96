-- ===== src/Execution/GasCache.antt =====
-- src/execution/gas.ts: the cache of gas estimates, a `Map` in insertion order. Times are in
-- milliseconds; a difference of times that would be negative is below every age, as 0 is.
pub mod Remember
use ts_hsync_arb.Prelude.{
  ℕ, ◌-◌, Bool, true, false, Option, none, some, List, [], ◌∷◌, ltb, length, if◌then◌else◌,
}
use ts_hsync_arb.Prelude.Int.{ℤ}
use ts_hsync_arb.Prelude.Keys.{Key, get, set, delete}

pub record Estimate : Type 0 where
  pub estimate : ℤ
  pub updated_at : ℕ

abbrev pub GasCache {ℓ} : Type ℓ → Type ℓ
GasCache K = List (K × Estimate)

-- The `while` loop that drops the oldest entries.
abbrev pub evict {ℓ} : {K : Type ℓ} → ℕ → GasCache K → GasCache K
evict max_entries [] = []
evict max_entries (entry ∷ cache) =
    if ltb max_entries (length (entry ∷ cache)) then evict max_entries cache else entry ∷ cache

module _ {ℓ} {K : Type ℓ} ⦃key : Key K⦄ where
  -- getCachedGasEstimate
  pub get_cached_gas_estimate : K → ℕ → ℕ → GasCache K → Option ℤ × GasCache K
  get_cached_gas_estimate k now ttl cache = elim (get k cache) [
    | none ↦ (none, cache)
    | some e ↦
        if ltb ttl (now - e.updated_at)
        then (none, delete k cache)
        else (some e.estimate, set k e (delete k cache))
  ]

  -- rememberGasEstimate
  pub remember_gas_estimate : K → ℤ → ℕ → ℕ → GasCache K → GasCache K
  remember_gas_estimate k estimate now max_entries cache =
      evict max_entries (set k (record { estimate = estimate; updated_at = now }) (delete k cache))
