-- ===== src/Prelude/Arrays.antt =====
-- Array methods with a Boolean callback: every, some, filter, slice, sort; and a `Set` as the array of its
-- elements in the order of insertion.
pub mod Member
pub mod Sorting
use mathlib.Core.Bool.{Bool, true, false}
use mathlib.Core.Option.{Option, none, some}
use mathlib.Core.List.{List, [], ◌∷◌}
use Prim.Native.Nat.{ℕ, zero, suc}
use ts_hsync_arb.Prelude.Tests.{if◌then◌else◌}
use ts_hsync_arb.Prelude.Keys.{Key}

module _ {ℓ} {A : Type ℓ} where
  abbrev pub every : (A → Bool) → List A → Bool
  every test [] = true
  every test (x ∷ xs) = if test x then every test xs else false

  abbrev pub any : (A → Bool) → List A → Bool
  any test [] = false
  any test (x ∷ xs) = if test x then true else any test xs

  abbrev pub filter : (A → Bool) → List A → List A
  filter test [] = []
  filter test (x ∷ xs) = let rest = filter test xs in if test x then x ∷ rest else rest

  -- slice(0, n)
  abbrev pub take : ℕ → List A → List A
  take zero xs = []
  take (suc n) [] = []
  take (suc n) (x ∷ xs) = x ∷ take n xs

  -- The values that are there, in their order.
  abbrev pub present : List (Option A) → List A
  present [] = []
  present (none ∷ xs) = present xs
  present (some x ∷ xs) = x ∷ present xs

  -- One step of a stable sort: `x` stands before what `before x` does not refuse.
  abbrev pub insert_sorted : (A → A → Bool) → A → List A → List A
  insert_sorted before x [] = x ∷ []
  insert_sorted before x (y ∷ ys) = if before x y then x ∷ y ∷ ys else y ∷ insert_sorted before x ys

  -- Array.prototype.sort, which is stable; `before x y` says that `compare(x, y) <= 0`.
  abbrev pub sort : (A → A → Bool) → List A → List A
  sort before [] = []
  sort before (x ∷ xs) = insert_sorted before x (sort before xs)

module _ {ℓ} {K : Type ℓ} ⦃key : Key K⦄ where
  -- Set.has
  abbrev pub has : K → List K → Bool
  has k [] = false
  has k (j ∷ js) = if key.same j k then true else has k js

  -- Set.add
  abbrev pub add : K → List K → List K
  add k [] = k ∷ []
  add k (j ∷ js) = if key.same j k then j ∷ js else j ∷ add k js
