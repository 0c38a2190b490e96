-- ===== src/Math/InitializedTicks/Order.antt =====
-- The order of the sorted ticks of src/math/uniswap_v3.ts.
use ts_hsync_arb.Prelude.{
  ℕ, zero, suc, ◌≤◌, ◌≡◌, arith, subst, some, List, [], ◌∷◌, get_elem?, Bool-cases, inl, inr,
}
use ts_hsync_arb.Prelude.Int.{ℤ, leb_ℤ, ◌≤ℤ◌, le_of_leb, lt_of_leb}
use ts_hsync_arb.Math.InitializedTicks.{sort_ticks, insert}

abbrev pub Ascending : List ℤ → Type 0
Ascending ticks =
    (i j : ℕ) (a b : ℤ) → i ≤ j → get_elem? ticks i ≡ some a → get_elem? ticks j ≡ some b → a ≤ℤ b

-- A list in order, with a bound for its first element.
abbrev pub Sorted : ℤ → List ℤ → Type 0
Sorted least [] = Unit {0}
Sorted least (t ∷ ts) = (least ≤ℤ t) × Sorted t ts

abbrev pub Ordered : List ℤ → Type 0
Ordered [] = Unit {0}
Ordered (t ∷ ts) = Sorted t ts

insert-Sorted :
    (least t : ℤ) (ts : List ℤ) → least ≤ℤ t → Sorted least ts → Sorted least (insert t ts)
insert-Sorted least t [] h s = (h, tt)
insert-Sorted least t (u ∷ us) h (lu, s) = elim (Bool-cases (leb_ℤ t u)) [
  | inl le ↦ rw le (h, (le_of_leb t u le, s))
  | inr gt ↦ rw gt (lu, insert-Sorted u t us (omega (arith, lt_of_leb t u gt)) s)
]

insert-Ordered : (t : ℤ) (ts : List ℤ) → Ordered ts → Ordered (insert t ts)
insert-Ordered t [] s = tt
insert-Ordered t (u ∷ us) s = elim (Bool-cases (leb_ℤ t u)) [
  | inl le ↦ rw le (le_of_leb t u le, s)
  | inr gt ↦ rw gt (insert-Sorted u t us (omega (arith, lt_of_leb t u gt)) s)
]

pub sort_ticks-Ordered : (ts : List ℤ) → Ordered (sort_ticks ts)
sort_ticks-Ordered [] = tt
sort_ticks-Ordered (t ∷ ts) = insert-Ordered t (sort_ticks ts) (sort_ticks-Ordered ts)

Sorted-le :
    (least : ℤ) (ts : List ℤ) (j : ℕ) (b : ℤ)
    → Sorted least ts
    → get_elem? ts j ≡ some b
    → least ≤ℤ b
Sorted-le least [] j b s e = absurd cc
Sorted-le least (t ∷ ts) zero b (h, s) e = let same : t ≡ b = cc in subst (λ v. least ≤ℤ v) same h
Sorted-le least (t ∷ ts) (suc j) b (h, s) e = omega (arith, Sorted-le t ts j b s e)

Ordered-tail : (t : ℤ) (ts : List ℤ) → Sorted t ts → Ordered ts
Ordered-tail t [] s = tt
Ordered-tail t (u ∷ us) (h, s) = s

pub Ordered-Ascending : (ts : List ℤ) → Ordered ts → Ascending ts
Ordered-Ascending [] s i j a b le ei ej = absurd cc
Ordered-Ascending (t ∷ ts) s zero zero a b le ei ej =
    let same : a ≡ b = cc in subst (λ v. a ≤ℤ v) same (omega arith)
Ordered-Ascending (t ∷ ts) s zero (suc j) a b le ei ej =
    let same : t ≡ a = cc in subst (λ v. v ≤ℤ b) same (Sorted-le t ts j b s ej)
Ordered-Ascending (t ∷ ts) s (suc i) zero a b le ei ej = absurd (omega arith)
Ordered-Ascending (t ∷ ts) s (suc i) (suc j) a b le ei ej =
    Ordered-Ascending ts (Ordered-tail t ts s) i j a b (omega arith) ei ej
