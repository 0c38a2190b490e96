-- ===== src/Util/BoundedPriority/Selection.antt =====
-- takeTopNBy against a sort of all the items.
use ts_hsync_arb.Prelude.{
  ℕ, zero, suc, ◌≤◌, ◌≡◌, refl, sym, ap, ◌∙◌, arith, Bool, Option, none, some, List, [], ◌∷◌,
  length, ltb, leb, Bool-cases, inl, inr,
}
use ts_hsync_arb.Prelude.Int.{ℤ, pos, negsuc, ltb_ℤ, leb_ℤ, ◌≤ℤ◌}
use ts_hsync_arb.Prelude.Arrays.{insert_sorted, sort, take}
use ts_hsync_arb.Prelude.Arrays.Member.{length-take}
use ts_hsync_arb.Prelude.Arrays.Sorting.{InOrder, take-InOrder}
use ts_hsync_arb.Util.BoundedPriority.{
  find_place, splice, popped, place_item, select, take_top_n_by,
}
use ts_hsync_arb.Util.BoundedPriority.Place.{Agrees, find_place_lem}
use ts_hsync_arb.Util.BoundedPriority.Merge.{insert_all, insert_all-sort, insert_below-InOrder}

-- The number of items that a limit allows.
abbrev pub allowed : Option ℤ → ℕ
allowed none = 0
allowed (some (pos n)) = n
allowed (some (negsuc n)) = 0

module _ {ℓ} {A : Type ℓ} where
  take_all : (n : ℕ) (xs : List A) → length xs ≤ n → take n xs ≡ xs
  take_all zero [] h = refl
  take_all zero (x ∷ xs) h = absurd (omega arith)
  take_all (suc n) [] h = refl
  take_all (suc n) (x ∷ xs) h = rw (take_all n xs (omega arith)) refl

  take_twice : (m : ℕ) (xs : List A) → take m (take (suc m) xs) ≡ take m xs
  take_twice zero xs = refl
  take_twice (suc m) [] = refl
  take_twice (suc m) (x ∷ xs) = rw (take_twice m xs) refl

  take-cons : (n : ℕ) (y : A) (ys : List A) → take n (y ∷ take n ys) ≡ take n (y ∷ ys)
  take-cons zero y ys = refl
  take-cons (suc m) y ys = rw (take_twice m ys) refl

  popped-take : (n : ℕ) (xs : List A) → length xs ≡ suc n → popped xs ≡ take n xs
  popped-take n [] h = absurd (omega arith)
  popped-take zero (x ∷ []) h = refl
  popped-take (suc n) (x ∷ []) h = absurd (omega arith)
  popped-take zero (x ∷ y ∷ ys) h = absurd (omega arith)
  popped-take (suc n) (x ∷ y ∷ ys) h = rw (popped-take n (y ∷ ys) (omega arith)) refl

  length-splice : (p : ℕ) (item : A) (xs : List A) → length (splice p item xs) ≡ suc (length xs)
  length-splice zero item xs = refl
  length-splice (suc p) item [] = refl
  length-splice (suc p) item (x ∷ xs) = omega (arith, length-splice p item xs)

  take-splice :
      (n p : ℕ) (item : A) (xs : List A)
      → p ≤ length xs
      → length xs ≤ n
      → n ≤ p
      → xs ≡ take n (splice p item xs)
  take-splice zero zero item [] h h' h'' = refl
  take-splice (suc n) zero item xs h h' h'' = absurd (omega arith)
  take-splice n (suc p) item [] h h' h'' = absurd (omega arith)
  take-splice zero p item (x ∷ xs) h h' h'' = absurd (omega arith)
  take-splice (suc n) (suc p) item (x ∷ xs) h h' h'' =
      ap (λ ys. x ∷ ys) (take-splice n p item xs (omega arith) (omega arith) (omega arith))

  place_item_lem :
      (n p : ℕ) (item : A) (xs : List A)
      → p ≤ length xs
      → length xs ≤ n
      → place_item n item xs p ≡ take n (splice p item xs)
  place_item_lem n p item xs h h' = elim (Bool-cases (leb n p)) [
    | inl over ↦ rw over (take-splice n p item xs h h' (ground (arith, over)))
    | inr room ↦ elim (Bool-cases (ltb n (length (splice p item xs)))) [
      | inl full ↦ rw room (
          rw full
            (popped-take n (splice p item xs) (ground (arith, full, length-splice p item xs))))
      | inr fits ↦ rw room (rw fits (sym (take_all n (splice p item xs) (ground (arith, fits)))))
    ]
  ]

  take-insert_sorted :
      (below : A → A → Bool) (n : ℕ) (x : A) (ys : List A)
      → take n (insert_sorted below x (take n ys)) ≡ take n (insert_sorted below x ys)
  take-insert_sorted below zero x ys = refl
  take-insert_sorted below (suc n) x [] = refl
  take-insert_sorted below (suc n) x (y ∷ ys) = elim (Bool-cases (below x y)) [
    | inl e ↦ rw e (rw (take-cons n y ys) refl)
    | inr e ↦ rw e (rw (take-insert_sorted below n x ys) refl)
  ]

  -- What the loop keeps are the first of the sorted items seen.
  select_lem :
      (before below : A → A → Bool)
      → Agrees before below
      → (n : ℕ) (sorted items : List A) → InOrder before sorted
      → select below n (take n sorted) items ≡ take n (insert_all below sorted items)
  unfolding select
  select_lem before below agrees n sorted [] ordered = refl
  select_lem before below agrees n sorted (item ∷ items) ordered =
      let kept = take n sorted in
      let (inside, placed) =
        find_place_lem before below agrees item kept (take-InOrder before n sorted ordered) in
      let one =
        place_item_lem n (find_place (length kept) below item kept 0 (length kept)) item kept inside
          (length-take n sorted) in
      let step = one ∙ ap (take n) placed ∙ take-insert_sorted below n item sorted in
      ap (λ xs. select below n xs items) step
      ∙ select_lem before below agrees n (insert_sorted below item sorted) items
          (insert_below-InOrder before below agrees item sorted ordered)

  -- What Array.prototype.sort asks of a comparison.
  pub record Comparison (compare : A → A → ℤ) : Type ℓ where
    pub opposite : (x y : A) → ltb_ℤ (compare x y) (pos 0) ≡ ltb_ℤ (pos 0) (compare y x)
    pub through : (x y z : A) → compare x y ≤ℤ pos 0 → compare y z ≤ℤ pos 0 → compare x z ≤ℤ pos 0

  abbrev pub not_after : (A → A → ℤ) → A → A → Bool
  not_after compare x y = leb_ℤ (compare x y) (pos 0)

  Comparison-Agrees :
      (compare : A → A → ℤ)
      → Comparison compare
      → Agrees (not_after compare) (λ x y. ltb_ℤ (compare x y) (pos 0))
  Comparison-Agrees compare laws = record {
    opposite = λ x y. ground (arith, laws.opposite x y);
    weaken = λ x y h. ground (arith, h);
    through = λ x y z h h'. ground (arith, laws.through x y z);
  }

  -- By a comparison that is antisymmetric and transitive, takeTopNBy returns the first items, as many as the
  -- limit allows, of a stable sort of all items, so that ties go to the earlier item.
  pub take_top_n_by_lem :
      (compare : A → A → ℤ)
      → Comparison compare
      → (items : List A) (limit : Option ℤ)
      → take_top_n_by items limit compare ≡ take (allowed limit) (sort (not_after compare) items)
  unfolding take_top_n_by
  take_top_n_by_lem compare laws items none = refl
  take_top_n_by_lem compare laws items (some (negsuc n)) = refl
  take_top_n_by_lem compare laws items (some (pos zero)) = refl
  take_top_n_by_lem compare laws items (some (pos (suc n))) =
      let agrees = Comparison-Agrees compare laws in
      select_lem (not_after compare) (λ x y. ltb_ℤ (compare x y) (pos 0)) agrees (suc n) [] items tt
      ∙ ap (take (suc n))
          (insert_all-sort (not_after compare) (λ x y. ltb_ℤ (compare x y) (pos 0)) agrees items)
