-- ===== src/Util/BoundedPriority.antt =====
-- src/util/bounded_priority.ts: takeTopNBy. A comparison returns an integer; a limit enters as an integer,
-- `none` where it is not finite.
pub mod Place
pub mod Merge
pub mod Selection
use ts_hsync_arb.Prelude.{
  ℕ, zero, suc, ◌+◌, ◌/◌, Bool, true, false, List, [], ◌∷◌, Option, none, some, get_elem?, length,
  ltb, leb, if◌then◌else◌,
}
use ts_hsync_arb.Prelude.Int.{ℤ, pos, negsuc, ltb_ℤ}

module _ {ℓ} {A : Type ℓ} where
  -- `compare(item, selected[mid]) < 0`, false out of range.
  abbrev pub sorts_below : (A → A → Bool) → A → Option A → Bool
  sorts_below below item none = false
  sorts_below below item (some other) = below item other

  -- The binary search, on fuel that bounds its rounds.
  unfoldable pub find_place : ℕ → (A → A → Bool) → A → List A → ℕ → ℕ → ℕ
  find_place zero below item selected lo hi = lo
  find_place (suc fuel) below item selected lo hi =
      let mid = (lo + hi) / 2 in
      elim (ltb lo hi) [
        | true ↦ elim (sorts_below below item (get_elem? selected mid)) [
          | true ↦ find_place fuel below item selected lo mid
          | false ↦ find_place fuel below item selected (suc mid) hi
        ]
        | false ↦ lo
      ]

  -- splice(at, 0, item)
  abbrev pub splice : ℕ → A → List A → List A
  splice zero item xs = item ∷ xs
  splice (suc at) item [] = item ∷ []
  splice (suc at) item (x ∷ xs) = x ∷ splice at item xs

  -- What pop leaves.
  abbrev pub popped : List A → List A
  popped [] = []
  popped (x ∷ []) = []
  popped (x ∷ y ∷ ys) = x ∷ popped (y ∷ ys)

  -- The body of the loop over the items, after the search.
  abbrev pub place_item : ℕ → A → List A → ℕ → List A
  place_item limit item selected lo =
      let longer = splice lo item selected in
      if leb limit lo then selected else if ltb limit (length longer) then popped longer else longer

  unfoldable pub select : (A → A → Bool) → ℕ → List A → List A → List A
  select below limit selected [] = selected
  select below limit selected (item ∷ items) =
      let lo = find_place (length selected) below item selected 0 (length selected) in
      select below limit (place_item limit item selected lo) items

  pub take_top_n_by : List A → Option ℤ → (A → A → ℤ) → List A
  take_top_n_by items none compare = []
  take_top_n_by items (some (pos zero)) compare = []
  take_top_n_by items (some (pos (suc n))) compare =
      select (λ x y. ltb_ℤ (compare x y) (pos 0)) (suc n) [] items
  take_top_n_by items (some (negsuc n)) compare = []
