-- ===== src/Prelude/Arrays/Member.antt =====
-- Membership in filtered and cut arrays, and in sets.
use mathlib.Core.Path.{◌≡◌, refl}
use mathlib.Core.Bool.{Bool, true, ◌||◌}
use mathlib.Core.Logic.{◌⊎◌, inl, inr}
use mathlib.Core.List.{List, [], ◌∷◌}
use Prim.Native.Nat.{ℕ, zero, suc, ◌≤◌}
use native.Mathlib.Omega.{arith}
use ts_hsync_arb.Prelude.Tests.{Bool-cases}
use ts_hsync_arb.Prelude.Lists.{length}
use ts_hsync_arb.Prelude.Keys.{Key}
use ts_hsync_arb.Prelude.Arrays.{every, filter, take, has, add, insert_sorted, sort}

module _ {ℓ} {A : Type ℓ} where
  -- An element at some position of the list.
  pub data In (a : A) : List A → Type ℓ where
    first : (xs : List A) → In a (a ∷ xs)
    later : (x : A) {xs : List A} → In a xs → In a (x ∷ xs)

  pub length-filter : (test : A → Bool) (xs : List A) → length (filter test xs) ≤ length xs
  length-filter test [] = omega arith
  length-filter test (x ∷ xs) = ground (arith, length-filter test xs)

  -- A filter that drops nothing is the identity.
  pub filter-length :
      (test : A → Bool) (xs : List A) → length xs ≤ length (filter test xs) → filter test xs ≡ xs
  filter-length test [] h = refl
  filter-length test (x ∷ xs) h = ground (arith, filter-length test xs, length-filter test xs)

  pub length-take : (n : ℕ) (xs : List A) → length (take n xs) ≤ n
  length-take zero xs = omega arith
  length-take (suc n) [] = omega arith
  length-take (suc n) (x ∷ xs) = omega (arith, length-take n xs)

  pub every-filter : (test : A → Bool) (xs : List A) → every test (filter test xs) ≡ true
  every-filter test [] = refl
  every-filter test (x ∷ xs) = elim (Bool-cases (test x)) [
    | inl e ↦ rw e (rw e (every-filter test xs))
    | inr e ↦ rw e (every-filter test xs)
  ]

  pub every-filter_other :
      (p test : A → Bool) (xs : List A) → every p xs ≡ true → every p (filter test xs) ≡ true
  every-filter_other p test [] h = refl
  every-filter_other p test (x ∷ xs) h = ground (arith, every-filter_other p test xs)

  pub every-take :
      (p : A → Bool) (n : ℕ) (xs : List A) → every p xs ≡ true → every p (take n xs) ≡ true
  every-take p zero xs h = refl
  every-take p (suc n) [] h = refl
  every-take p (suc n) (x ∷ xs) h = ground (arith, every-take p n xs)

  pub every-In : (p : A → Bool) {a : A} {xs : List A} → In a xs → every p xs ≡ true → p a ≡ true
  every-In p (first xs) h = ground (arith, h)
  every-In p (later x m) h = every-In p m (ground (arith, h))

module _ {ℓ} {K : Type ℓ} ⦃key : Key K⦄ where
  pub has-add : (j k : K) (set : List K) → has j (add k set) ≡ (key.same k j || has j set)
  has-add j k [] = ground (arith, key.same_iff k j)
  has-add j k (i ∷ set) =
      ground (arith, key.same_iff k j, key.same_iff i k, key.same_iff i j, has-add j k set)

module _ {ℓ} {A : Type ℓ} where
  pub not-In-nil : {x : A} → In x [] → ⊥
  not-In-nil = elim [ ]

  pub In-cons : {x y : A} {ys : List A} → In x (y ∷ ys) → (x ≡ y) ⊎ In x ys
  In-cons (first ys) = inl refl
  In-cons (later y m) = inr m

  In-insert_sorted :
      (before : A → A → Bool) (x y : A) (ys : List A)
      → In x (insert_sorted before y ys)
      → (x ≡ y) ⊎ In x ys
  In-insert_sorted before x y [] m = In-cons m
  In-insert_sorted before x y (z ∷ zs) m = elim (Bool-cases (before y z)) [
    | inl here ↦ In-cons (rw here at m)
    | inr on ↦ elim (In-cons (rw on at m)) [
      | inl same ↦ inr (rw same (first zs))
      | inr further ↦ elim (In-insert_sorted before x y zs further) [
        | inl same ↦ inl same
        | inr below ↦ inr (later z below)
      ]
    ]
  ]

  -- A sort has no new elements.
  pub In-sort : (before : A → A → Bool) (x : A) (xs : List A) → In x (sort before xs) → In x xs
  In-sort before x [] m = m
  In-sort before x (y ∷ ys) m = elim (In-insert_sorted before x y (sort before ys) m) [
    | inl same ↦ rw same (first ys)
    | inr below ↦ later y (In-sort before x ys below)
  ]
