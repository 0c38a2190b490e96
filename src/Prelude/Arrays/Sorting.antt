-- ===== src/Prelude/Arrays/Sorting.antt =====
-- A stable sort by a total test: its result is in order and keeps what holds of every element.
use mathlib.Core.Path.{◌≡◌, refl}
use mathlib.Core.Bool.{Bool, true, false}
use mathlib.Core.Logic.{inl, inr}
use mathlib.Core.List.{List, [], ◌∷◌}
use Prim.Native.Nat.{ℕ, zero, suc}
use native.Mathlib.Omega.{arith}
use ts_hsync_arb.Prelude.Tests.{Bool-cases}
use ts_hsync_arb.Prelude.Arrays.{every, filter, take, insert_sorted, sort}
use ts_hsync_arb.Prelude.Arrays.Member.{every-filter_other, every-take}

module _ {ℓ} {A : Type ℓ} where
  -- Each element may stand before all that follow it.
  abbrev pub InOrder : (A → A → Bool) → List A → Type 0
  InOrder before [] = Unit
  InOrder before (x ∷ xs) = (every (before x) xs ≡ true) × InOrder before xs

  pub every-insert_sorted :
      (p : A → Bool) (before : A → A → Bool) (x : A) (xs : List A)
      → p x ≡ true
      → every p xs ≡ true
      → every p (insert_sorted before x xs) ≡ true
  every-insert_sorted p before x [] hx h = rw hx refl
  every-insert_sorted p before x (y ∷ ys) hx h = ground (arith, every-insert_sorted p before x ys)

  pub every-sort :
      (p : A → Bool) (before : A → A → Bool) (xs : List A)
      → every p xs ≡ true
      → every p (sort before xs) ≡ true
  every-sort p before [] h = refl
  every-sort p before (x ∷ xs) h = elim (Bool-cases (p x)) [
    | inl e ↦
        every-insert_sorted p before x (sort before xs) e
          (every-sort p before xs (ground (arith, h, e)))
    | inr e ↦ absurd (ground (arith, h, e))
  ]

  -- What `before` is for a comparison of numbers.
  pub record Total (before : A → A → Bool) : Type ℓ where
    pub other_way : (x y : A) → before x y ≡ false → before y x ≡ true
    pub through : (x y z : A) → before x y ≡ true → before y z ≡ true → before x z ≡ true

  every_through :
      (before : A → A → Bool)
      → Total before
      → (x y : A) (zs : List A) → before x y ≡ true
      → every (before y) zs ≡ true
      → every (before x) zs ≡ true
  every_through before total x y [] h hs = refl
  every_through before total x y (z ∷ zs) h hs =
      ground (arith, total.through x y z, every_through before total x y zs)

  insert_sorted-InOrder :
      (before : A → A → Bool)
      → Total before
      → (x : A) (xs : List A) → InOrder before xs
      → InOrder before (insert_sorted before x xs)
  insert_sorted-InOrder before total x [] h = (refl, tt)
  insert_sorted-InOrder before total x (y ∷ ys) h = elim (Bool-cases (before x y)) [
    | inl e ↦
        let ahead : every (before x) (y ∷ ys) ≡ true =
          rw e (every_through before total x y ys e h.0) in
        rw e (ahead, (h.0, h.1))
    | inr e ↦ rw e (
      every-insert_sorted (before y) before x ys (total.other_way x y e) h.0,
      insert_sorted-InOrder before total x ys h.1,
    )
  ]

  pub sort-InOrder :
      (before : A → A → Bool) → Total before → (xs : List A) → InOrder before (sort before xs)
  sort-InOrder before total [] = tt
  sort-InOrder before total (x ∷ xs) =
      insert_sorted-InOrder before total x (sort before xs) (sort-InOrder before total xs)

  pub filter-InOrder :
      (before : A → A → Bool) (test : A → Bool) (xs : List A)
      → InOrder before xs
      → InOrder before (filter test xs)
  filter-InOrder before test [] h = tt
  filter-InOrder before test (x ∷ xs) h = elim (Bool-cases (test x)) [
    | inl e ↦ rw e (every-filter_other (before x) test xs h.0, filter-InOrder before test xs h.1)
    | inr e ↦ rw e (filter-InOrder before test xs h.1)
  ]

  pub take-InOrder :
      (before : A → A → Bool) (n : ℕ) (xs : List A) → InOrder before xs → InOrder before (take n xs)
  take-InOrder before zero xs h = tt
  take-InOrder before (suc n) [] h = tt
  take-InOrder before (suc n) (x ∷ xs) h =
      (every-take (before x) n xs h.0, take-InOrder before n xs h.1)

  insert_sorted-Apart :
      (r before : A → A → Bool)
      → ((x y : A) → r x y ≡ true → r y x ≡ true)
      → (x : A) (xs : List A) → every (r x) xs ≡ true
      → InOrder r xs
      → InOrder r (insert_sorted before x xs)
  insert_sorted-Apart r before flip x [] hx h = (refl, tt)
  insert_sorted-Apart r before flip x (y ∷ ys) hx h = elim (Bool-cases (before x y)) [
    | inl e ↦ rw e (hx, (h.0, h.1))
    | inr e ↦
        let past : every (r y) (insert_sorted before x ys) ≡ true =
          every-insert_sorted (r y) before x ys (flip x y (ground (arith, hx))) h.0 in
        rw e (past, insert_sorted-Apart r before flip x ys (ground (arith, hx)) h.1)
  ]

  -- What holds of every two elements, in either order, holds of every two after sorting.
  pub sort-Apart :
      (r before : A → A → Bool)
      → ((x y : A) → r x y ≡ true → r y x ≡ true)
      → (xs : List A) → InOrder r xs
      → InOrder r (sort before xs)
  sort-Apart r before flip [] h = tt
  sort-Apart r before flip (x ∷ xs) h =
      insert_sorted-Apart r before flip x (sort before xs) (every-sort (r x) before xs h.0)
        (sort-Apart r before flip xs h.1)
