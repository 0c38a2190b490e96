-- ===== src/Tests/Reorg.antt =====
-- src/reorg/detect.ts on a registry whose last block was replaced.
use ts_hsync_arb.Prelude.{ℕ, ◌≡◌, ◌↔◌, some}
use ts_hsync_arb.Prelude.Keys.{nat_key}
use ts_hsync_arb.Reorg.{StoredGuard, RollbackGuard, detect_reorg}
use ts_hsync_arb.Reorg.Conflict.{Conflict, detect_reorg_iff}

abbrev stored_guard : StoredGuard ℕ
stored_guard = record {
  block_number = some 100;
  block_hash = some 7;
  first_block_number = some 90;
  first_parent_hash = some 3;
}

abbrev next_guard : RollbackGuard ℕ
next_guard = record { new_block_number = some 100; new_parent_hash = some 8 }

detect_reorg_iff_example :
    (detect_reorg (some stored_guard) (some next_guard) ≡ some 100)
    ↔ Conflict stored_guard next_guard 100
detect_reorg_iff_example = detect_reorg_iff stored_guard next_guard 100
