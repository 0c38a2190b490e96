-- ===== src/Execution/NonceManager.antt =====
-- src/execution/nonce_manager.ts: class NonceManager, one call after another. Keys are the lower-cased
-- addresses. `onchain` is the count that _fetchOnchain would return if the call made it, `none` where the
-- request is rejected. The map of running synchronisations is empty between calls that do not overlap.
pub mod Increasing
pub mod Reuse
use ts_hsync_arb.Prelude.{
  ℕ, suc, ◌+◌, ◌-◌, Bool, true, false, not, Option, none, some, List, [], ◌∷◌, ltb, if◌then◌else◌,
}
use ts_hsync_arb.Prelude.Keys.{Key, get, set}

pub record Entry : Type 0 where
  pub nonce : ℕ
  pub pending : ℕ
  pub dirty : Bool

-- `_state`
abbrev pub State {ℓ} : Type ℓ → Type ℓ
State K = List (K × Entry)

-- The entry set by _ensureSynced.
abbrev pub synced : ℕ → Entry
synced onchain = record { nonce = onchain; pending = 0; dirty = false }

-- What _ensureSynced leaves, `none` where it throws.
abbrev pub ensure_synced : Option ℕ → Option Entry
ensure_synced none = none
ensure_synced (some onchain) = some (synced onchain)

-- The entry that `next` reads after its synchronisation, if it makes one.
abbrev pub current : Option Entry → Option ℕ → Option Entry
current none onchain = ensure_synced onchain
current (some e) onchain = if e.dirty then ensure_synced onchain else some e

module _ {ℓ} {K : Type ℓ} ⦃key : Key K⦄ where
  -- The end of `next`, on the entry read.
  abbrev pub allocate : K → Option Entry → State K → Option ℕ × State K
  allocate k none st = (none, st)
  allocate k (some e) st =
      (some (e.nonce + e.pending), set k (record e { pending = e.pending + 1 }) st)

  -- next: the nonce, `none` where the call throws, and the state.
  pub next : K → Option ℕ → State K → Option ℕ × State K
  next k onchain st = allocate k (current (get k st) onchain) st

  -- confirm
  pub confirm : K → State K → State K
  confirm k st = elim (get k st) [
    | none ↦ st
    | some e ↦
        set k
          (record e {
            nonce = e.nonce + 1;
            pending = if ltb 0 e.pending then e.pending - 1 else e.pending;
          })
          st
  ]

  -- revert
  pub revert : K → State K → State K
  revert k st = elim (get k st) [
    | none ↦ st
    | some e ↦
        set k (record e { pending = if ltb 0 e.pending then e.pending - 1 else e.pending }) st
  ]

  -- resync
  pub resync : K → State K → State K
  resync k st = elim (get k st) [
    | none ↦ st
    | some e ↦ set k (record e { dirty = true; pending = 0 }) st
  ]

  -- markDropped
  pub mark_dropped : K → State K → State K
  mark_dropped = resync

  -- peek
  pub peek : K → State K → Option (ℕ × ℕ)
  peek k st = elim (get k st) [ none ↦ none | some e ↦ some (e.nonce, e.pending) ]

  -- reset
  pub reset : State K → State K
  reset st = []

pub data Call {ℓ} (K : Type ℓ) : Type ℓ where
  allocates : K → Option ℕ → Call K
  confirms reverts resyncs : K → Call K
  resets : Call K

module _ {ℓ} {K : Type ℓ} ⦃key : Key K⦄ where
  -- A nonce with the key it is handed out for.
  abbrev pub given_to : K → Option ℕ → Option (K × ℕ)
  given_to k none = none
  given_to k (some nonce) = some (k, nonce)

  -- One call: the nonce handed out, with its key, and the new state.
  pub step : Call K → State K → Option (K × ℕ) × State K
  step (allocates k onchain) st = let (nonce, st') = next k onchain st in (given_to k nonce, st')
  step (confirms k) st = (none, confirm k st)
  step (reverts k) st = (none, revert k st)
  step (resyncs k) st = (none, resync k st)
  step resets st = (none, reset st)
