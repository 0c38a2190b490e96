-- ===== src/Reorg/Conflict.antt =====
-- When detectReorg reports a reorganisation.
use ts_hsync_arb.Prelude.{
  ℕ, ◌≡◌, ◌≢◌, ◌↔◌, ◌⊎◌, inl, inr, refl, ap, ◌∙◌, subst, arith, true, Option, none, some,
  Bool-cases,
}
use ts_hsync_arb.Prelude.Keys.{Key}
use ts_hsync_arb.Reorg.{StoredGuard, RollbackGuard, conflicts, compare_guards, detect_reorg}

module _ {H : Type 0} ⦃key : Key H⦄ where
  -- At the block the registry has a hash, and it is not the parent.
  abbrev pub Mismatch : ℕ → H → Option ℕ → Option H → Type 0
  Mismatch block parent stored_block stored_hash =
      (stored_block ≡ some block) × ((hash : H) × (stored_hash ≡ some hash) × (parent ≢ hash))

  -- The new guard has a parent hash for the block, and one of the two hashes of the registry is for the same
  -- block and differs from it.
  abbrev pub ConflictOf : StoredGuard H → Option ℕ → Option H → ℕ → Type 0
  ConflictOf stored number parent_hash block =
      (number ≡ some block)
      × ((parent : H) × (parent_hash ≡ some parent)
          × (Mismatch block parent stored.block_number stored.block_hash
              ⊎ Mismatch block parent stored.first_block_number stored.first_parent_hash))

  abbrev pub Conflict : StoredGuard H → RollbackGuard H → ℕ → Type 0
  Conflict stored new_guard = ConflictOf stored new_guard.new_block_number new_guard.new_parent_hash

  conflicts-Mismatch :
      (block : ℕ) (parent : H) (b : Option ℕ) (h : Option H)
      → conflicts block parent b h ≡ true
      → Mismatch block parent b h
  conflicts-Mismatch block parent none h c = absurd (ground (arith, c))
  conflicts-Mismatch block parent (some b) none c = absurd (ground (arith, c))
  conflicts-Mismatch block parent (some b) (some h) c =
      let same_block : some b ≡ some block = ground (arith, c) in
      (same_block, (h, refl, λ same. ground (arith, c, (key.same_iff parent h).1 same)))

  Mismatch-conflicts :
      (block : ℕ) (parent : H) (b : Option ℕ) (h : Option H)
      → Mismatch block parent b h
      → conflicts block parent b h ≡ true
  Mismatch-conflicts block parent none h m = absurd (ground (arith, m.0))
  Mismatch-conflicts block parent (some b) none (same_block, (hash, same_hash, differ)) =
      absurd (ground (arith, same_hash))
  Mismatch-conflicts block parent (some b) (some h) (same_block, (hash, same_hash, differ)) =
      elim (Bool-cases (key.same parent h)) [
        | inl e ↦ absurd (differ (ground (arith, (key.same_iff parent h).0 e, same_hash)))
        | inr e ↦ ground (arith, e, same_block)
      ]

  compare_guards_sound :
      (stored : StoredGuard H) (number : Option ℕ) (parent_hash : Option H) (block : ℕ)
      → compare_guards number parent_hash stored ≡ some block
      → ConflictOf stored number parent_hash block
  compare_guards_sound stored none parent_hash block c = absurd (ground (arith, c))
  compare_guards_sound stored (some n) none block c = absurd (ground (arith, c))
  compare_guards_sound stored (some n) (some parent) block c =
      elim (Bool-cases (conflicts n parent stored.block_number stored.block_hash)) [
        | inl last ↦
            let m = conflicts-Mismatch n parent stored.block_number stored.block_hash last in
            let same : n ≡ block = ground (arith, m.0, rw last at c) in
            (
              ap some same,
              (
                parent,
                refl,
                inl (subst (λ b. Mismatch b parent stored.block_number stored.block_hash) same m),
              ),
            )
        | inr fine ↦
            elim (Bool-cases
              (conflicts n parent stored.first_block_number stored.first_parent_hash)) [
                | inl first ↦
                    let m =
                      conflicts-Mismatch n parent stored.first_block_number stored.first_parent_hash
                        first in
                    let same : n ≡ block = ground (arith, rw first at (rw fine at c)) in
                    (
                      ap some same,
                      (
                        parent,
                        refl,
                        inr (
                            subst
                              (λ b.
                                Mismatch b parent stored.first_block_number
                                  stored.first_parent_hash)
                              same m),
                      ),
                    )
                | inr none_at_all ↦ absurd (ground (arith, rw none_at_all at (rw fine at c)))
              ]
      ]

  compare_guards_complete :
      (stored : StoredGuard H) (number : Option ℕ) (parent_hash : Option H) (block : ℕ)
      → ConflictOf stored number parent_hash block
      → compare_guards number parent_hash stored ≡ some block
  compare_guards_complete stored none parent_hash block (at_block, (p, known, m)) =
      absurd (ground (arith, at_block))
  compare_guards_complete stored (some n) none block (at_block, (p, known, m)) =
      absurd (ground (arith, known))
  compare_guards_complete stored (some n) (some parent) block (at_block, (p, known, m)) =
      let same : block ≡ n = ground (arith, at_block) in
      let same_parent : p ≡ parent = ground (arith, known) in
      elim (Bool-cases (conflicts n parent stored.block_number stored.block_hash)) [
        | inl last ↦
            rw last (
              (conflicts-Mismatch n parent stored.block_number stored.block_hash last).0 ∙ at_block)
        | inr fine ↦ elim m [
          | inl here ↦ absurd (
              ground (
                arith,
                fine,
                Mismatch-conflicts n parent stored.block_number stored.block_hash
                    (rw same at (rw same_parent at here)),
              ))
          | inr there ↦
              let found =
                Mismatch-conflicts n parent stored.first_block_number stored.first_parent_hash
                  (rw same at (rw same_parent at there)) in
              rw fine (rw found at_block)
        ]
      ]

  -- detectReorg reports a block exactly when the new guard has a parent hash for it and a hash of the registry
  -- for the same block, of its last block or of the parent of its first, is another one.
  pub detect_reorg_iff :
      (stored : StoredGuard H) (new_guard : RollbackGuard H) (block : ℕ)
      → (detect_reorg (some stored) (some new_guard) ≡ some block) ↔ Conflict stored new_guard block
  unfolding detect_reorg
  detect_reorg_iff stored new_guard block = (
    compare_guards_sound stored new_guard.new_block_number new_guard.new_parent_hash block,
    compare_guards_complete stored new_guard.new_block_number new_guard.new_parent_hash block,
  )
