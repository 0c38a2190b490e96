-- ===== src/Util/BoundedPriority/Merge.antt =====
-- Insertions at the two ends of equal elements commute, so that inserting from the left sorts.
use ts_hsync_arb.Prelude.{
  ◌≡◌, refl, sym, ◌∙◌, arith, Bool, true, List, [], ◌∷◌, Bool-cases, inl, inr,
}
use ts_hsync_arb.Prelude.Arrays.{every, insert_sorted, sort}
use ts_hsync_arb.Prelude.Arrays.Sorting.{InOrder, every-insert_sorted}
use ts_hsync_arb.Util.BoundedPriority.Place.{Agrees}

module _ {ℓ} {A : Type ℓ} where
  -- The insertion of every item, from the left.
  abbrev pub insert_all : (A → A → Bool) → List A → List A → List A
  insert_all below sorted [] = sorted
  insert_all below sorted (x ∷ xs) = insert_all below (insert_sorted below x sorted) xs

  insert_sorted_comm :
      (before below : A → A → Bool)
      → Agrees before below
      → (z x : A) (ys : List A)
      → insert_sorted before z (insert_sorted below x ys)
        ≡ insert_sorted below x (insert_sorted before z ys)
  insert_sorted_comm before below agrees z x [] = ground (arith, agrees.opposite x z)
  insert_sorted_comm before below agrees z x (y ∷ ys) = ground (
    arith,
    agrees.opposite x z,
    agrees.opposite x y,
    agrees.opposite y z,
    agrees.opposite y x,
    agrees.weaken x y,
    agrees.weaken y z,
    agrees.through z y x,
    agrees.through z x y,
    agrees.through x y z,
    insert_sorted_comm before below agrees z x ys,
  )

  insert_all-insert_sorted :
      (before below : A → A → Bool)
      → Agrees before below
      → (z : A) (sorted xs : List A)
      → insert_all below (insert_sorted before z sorted) xs
        ≡ insert_sorted before z (insert_all below sorted xs)
  insert_all-insert_sorted before below agrees z sorted [] = refl
  insert_all-insert_sorted before below agrees z sorted (x ∷ xs) =
      rw (sym (insert_sorted_comm before below agrees z x sorted))
        (insert_all-insert_sorted before below agrees z (insert_sorted below x sorted) xs)

  pub insert_all-sort :
      (before below : A → A → Bool)
      → Agrees before below
      → (xs : List A) → insert_all below [] xs ≡ sort before xs
  insert_all-sort before below agrees [] = refl
  insert_all-sort before below agrees (x ∷ xs) =
      insert_all-insert_sorted before below agrees x [] xs
      ∙ rw (insert_all-sort before below agrees xs) refl

  every_before :
      (before below : A → A → Bool)
      → Agrees before below
      → (x y : A) (zs : List A) → before x y ≡ true
      → every (before y) zs ≡ true
      → every (before x) zs ≡ true
  every_before before below agrees x y [] h hs = refl
  every_before before below agrees x y (z ∷ zs) h hs =
      ground (arith, agrees.through x y z, every_before before below agrees x y zs)

  pub insert_below-InOrder :
      (before below : A → A → Bool)
      → Agrees before below
      → (x : A) (xs : List A) → InOrder before xs
      → InOrder before (insert_sorted below x xs)
  insert_below-InOrder before below agrees x [] h = (refl, tt)
  insert_below-InOrder before below agrees x (y ∷ ys) h = elim (Bool-cases (below x y)) [
    | inl e ↦
        let ahead : every (before x) (y ∷ ys) ≡ true =
          rw (agrees.weaken x y e)
            (every_before before below agrees x y ys (agrees.weaken x y e) h.0) in
        rw e (ahead, (h.0, h.1))
    | inr e ↦ rw e (
      every-insert_sorted (before y) below x ys (ground (arith, agrees.opposite x y)) h.0,
      insert_below-InOrder before below agrees x ys h.1,
    )
  ]
