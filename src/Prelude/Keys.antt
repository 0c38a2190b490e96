-- ===== src/Prelude/Keys.antt =====
-- Dictionaries with keys compared by a Boolean equality (`Map` of the source), as association lists.
use mathlib.Core.Path.{◌≡◌, refl}
use mathlib.Core.Logic.{◌↔◌}
use mathlib.Core.Bool.{Bool, true}
use mathlib.Core.Option.{Option, none, some}
use mathlib.Core.List.{List, [], ◌∷◌}
use Prim.Native.Nat.{ℕ}
use native.Mathlib.Omega.{arith}
use ts_hsync_arb.Prelude.Tests.{if◌then◌else◌, ◌==◌}

pub record Key {ℓ} (K : Type ℓ) : Type ℓ where
  pub same : K → K → Bool
  pub same_iff : (a b : K) → (same a b ≡ true) ↔ (a ≡ b)

pub nat_same_iff : (a b : ℕ) → ((a == b) ≡ true) ↔ (a ≡ b)
nat_same_iff a b = ground arith

instance abbrev pub nat_key : Key ℕ
nat_key = record { same = λ a b. a == b; same_iff = nat_same_iff }

module _ {ℓ κ} {K : Type ℓ} {V : Type κ} ⦃key : Key K⦄ where
  -- Map.get
  abbrev pub get : K → List (K × V) → Option V
  get k [] = none
  get k ((j, v) ∷ m) = if key.same j k then some v else get k m

  -- Map.set: the value is replaced in its place, or the key goes to the end.
  abbrev pub set : K → V → List (K × V) → List (K × V)
  set k v [] = (k, v) ∷ []
  set k v ((j, w) ∷ m) = if key.same j k then (j, v) ∷ m else (j, w) ∷ set k v m

  -- Map.delete
  abbrev pub delete : K → List (K × V) → List (K × V)
  delete k [] = []
  delete k ((j, v) ∷ m) = let rest = delete k m in if key.same j k then rest else (j, v) ∷ rest

  pub get-delete : (k : K) (m : List (K × V)) → get k (delete k m) ≡ none
  get-delete k [] = refl
  get-delete k ((j, v) ∷ m) = ground (arith, get-delete k m)

  pub get-set :
      (k j : K) (v : V) (m : List (K × V))
      → get j (set k v m) ≡ (if key.same k j then some v else get j m)
  get-set k j v [] = refl
  get-set k j v ((i, w) ∷ m) =
      ground (arith, key.same_iff k j, key.same_iff i k, key.same_iff i j, get-set k j v m)

  pub get-set_self : (k : K) (v : V) (m : List (K × V)) → get k (set k v m) ≡ some v
  get-set_self k v m = rw (get-set k k v m) (rw ((key.same_iff k k).1 refl) refl)
