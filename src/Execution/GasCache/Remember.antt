-- ===== src/Execution/GasCache/Remember.antt =====
-- rememberGasEstimate and getCachedGasEstimate of src/execution/gas.ts, one after the other.
use ts_hsync_arb.Prelude.{
  ℕ, ◌+◌, ◌-◌, ◌≤◌, ◌<◌, ◌≡◌, arith, refl, false, none, some, [], ◌∷◌, ltb, length, Bool-cases, inl,
  inr,
}
use ts_hsync_arb.Prelude.Int.{ℤ}
use ts_hsync_arb.Prelude.Keys.{Key, get, set, delete, get-set_self, get-delete}
use ts_hsync_arb.Execution.GasCache.{
  Estimate, GasCache, evict, get_cached_gas_estimate, remember_gas_estimate,
}

length-evict :
    {K : Type 0} (max_entries : ℕ) (cache : GasCache K)
    → length (evict max_entries cache) ≤ max_entries
length-evict max_entries [] = omega arith
length-evict max_entries (entry ∷ cache) =
    elim (Bool-cases (ltb max_entries (length (entry ∷ cache)))) [
      | inl over ↦ rw over (length-evict max_entries cache)
      | inr fits ↦ rw fits (ground arith)
    ]

module _ {K : Type 0} ⦃key : Key K⦄ where
  -- The newest entry is never the one that is dropped.
  get-evict-set :
      (k : K) (e : Estimate) (max_entries : ℕ) (cache : GasCache K)
      → 0 < max_entries
      → get k cache ≡ none
      → get k (evict max_entries (set k e cache)) ≡ some e
  get-evict-set k e max_entries [] room absent =
      let fits : ltb max_entries 1 ≡ false = ground arith in
      rw fits (rw ((key.same_iff k k).1 refl) refl)
  get-evict-set k e max_entries ((j, v) ∷ cache) room absent = elim (Bool-cases (key.same j k)) [
    | inl here ↦ let found : get k ((j, v) ∷ cache) ≡ some v = rw here refl in absurd cc
    | inr elsewhere ↦
        let absent' : get k cache ≡ none = ground (arith, absent, elsewhere) in
        elim (Bool-cases (ltb max_entries (length ((j, v) ∷ set k e cache)))) [
          | inl over ↦ rw elsewhere (rw over (get-evict-set k e max_entries cache room absent'))
          | inr fits ↦ rw elsewhere (rw fits (rw elsewhere (get-set_self k e cache)))
        ]
  ]

  -- With room for one entry at least, remembering an estimate leaves at most the given number of
  -- entries, and until the estimate is older than the time to live, the cache returns it.
  pub remember_gas_estimate_lem :
      (k : K) (estimate : ℤ) (now later ttl max_entries : ℕ) (cache : GasCache K)
      → 0 < max_entries
      → later ≤ now + ttl
      → let cache' = remember_gas_estimate k estimate now max_entries cache in
        (length cache' ≤ max_entries)
        × ((get_cached_gas_estimate k later ttl cache').0 ≡ some estimate)
  unfolding remember_gas_estimate get_cached_gas_estimate
  remember_gas_estimate_lem k estimate now later ttl max_entries cache room fresh =
      let e : Estimate = record { estimate = estimate; updated_at = now } in
      let found = get-evict-set k e max_entries (delete k cache) room (get-delete k cache) in
      let young : ltb ttl (later - now) ≡ false = ground arith in
      (
        length-evict max_entries (set k e (delete k cache)),
        rw (found, get_cached_gas_estimate) (rw young refl),
      )
