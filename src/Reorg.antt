-- ===== src/Reorg.antt =====
-- src/reorg/detect.ts. A block number enters as Number reads it, `none` where it is not finite; a hash enters
-- as itself, `none` where it is missing or empty.
pub mod Conflict
use ts_hsync_arb.Prelude.{ℕ, Bool, true, false, Option, none, some, ◌==◌, not, if◌then◌else◌}
use ts_hsync_arb.Prelude.Keys.{Key}

-- The row of the registry.
pub record StoredGuard (H : Type 0) : Type 0 where
  pub block_number : Option ℕ
  pub block_hash : Option H
  pub first_block_number : Option ℕ
  pub first_parent_hash : Option H

-- The guard of a HyperSync response, as far as it is read.
pub record RollbackGuard (H : Type 0) : Type 0 where
  pub new_block_number : Option ℕ
  pub new_parent_hash : Option H

module _ {H : Type 0} ⦃key : Key H⦄ where
  -- `block === storedBlock && storedHash && parent !== storedHash`
  abbrev pub conflicts : ℕ → H → Option ℕ → Option H → Bool
  conflicts block parent none stored_hash = false
  conflicts block parent (some stored_block) none = false
  conflicts block parent (some stored_block) (some stored_hash) =
      if block == stored_block then not (key.same parent stored_hash) else false

  -- The part of detectReorg after its guards.
  abbrev pub compare_guards : Option ℕ → Option H → StoredGuard H → Option ℕ
  compare_guards none parent stored = none
  compare_guards (some block) none stored = none
  compare_guards (some block) (some parent) stored =
      if conflicts block parent stored.block_number stored.block_hash
      then stored.block_number
      else if conflicts block parent stored.first_block_number stored.first_parent_hash
      then some block
      else none

  -- detectReorg; `none` is its false.
  pub detect_reorg : Option (StoredGuard H) → Option (RollbackGuard H) → Option ℕ
  detect_reorg stored none = none
  detect_reorg none (some new_guard) = none
  detect_reorg (some stored) (some new_guard) =
      compare_guards new_guard.new_block_number new_guard.new_parent_hash stored
