-- ===== src/Util/BoundedPriority/Place.antt =====
-- The binary search of takeTopNBy: on an array in order it finds the place of a stable insertion.
use ts_hsync_arb.Prelude.{
  ℕ, zero, suc, ◌+◌, ◌/◌, ◌≤◌, ◌<◌, ◌≡◌, refl, arith, Bool, true, false, not, List, [], ◌∷◌,
  get_elem?, length, ltb, Bool-cases, inl, inr,
}
use ts_hsync_arb.Prelude.Arrays.{every, insert_sorted}
use ts_hsync_arb.Prelude.Arrays.Sorting.{InOrder}
use ts_hsync_arb.Util.BoundedPriority.{sorts_below, find_place, splice}

module _ {ℓ} {A : Type ℓ} where
  -- The two tests of one comparison: `before x y` is `compare(x, y) <= 0`, `below x y` is `compare(x, y) < 0`.
  pub record Agrees (before below : A → A → Bool) : Type ℓ where
    pub opposite : (x y : A) → below x y ≡ not (before y x)
    pub weaken : (x y : A) → below x y ≡ true → before x y ≡ true
    pub through : (x y z : A) → before x y ≡ true → before y z ≡ true → before x z ≡ true

  -- The place: what is ahead of it stays ahead of the item, what is from it on goes behind.
  pub record Place (below : A → A → Bool) (item : A) (xs : List A) (p : ℕ) : Type 0 where
    pub inside : p ≤ length xs
    pub ahead : (i : ℕ) → i < p → sorts_below below item (get_elem? xs i) ≡ false
    pub behind : (i : ℕ) → p ≤ i → i < length xs → sorts_below below item (get_elem? xs i) ≡ true

  -- Once the item sorts below an element, it does below all that follow.
  abbrev Rising : (A → A → Bool) → A → List A → Type 0
  Rising below item xs =
      (i j : ℕ)
      → i ≤ j
      → j < length xs
      → sorts_below below item (get_elem? xs i) ≡ true
      → sorts_below below item (get_elem? xs j) ≡ true

  find_place-Place :
      (fuel : ℕ) (below : A → A → Bool) (item : A) (xs : List A) (lo hi : ℕ)
      → hi ≤ lo + fuel
      → lo ≤ hi
      → hi ≤ length xs
      → Rising below item xs
      → ((i : ℕ) → i < lo → sorts_below below item (get_elem? xs i) ≡ false)
      → ((i : ℕ) → hi ≤ i → i < length xs → sorts_below below item (get_elem? xs i) ≡ true)
      → Place below item xs (find_place fuel below item xs lo hi)
  unfolding find_place
  find_place-Place zero below item xs lo hi enough ordered fits rising ahead behind = record {
    inside = omega arith;
    ahead = ahead;
    behind = λ i h h'. behind i (omega arith) h';
  }
  find_place-Place (suc fuel) below item xs lo hi enough ordered fits rising ahead behind =
      elim (Bool-cases (ltb lo hi)) [
        | inr done ↦
            let met : hi ≤ lo = ground (arith, done) in
            rw (done, find_place)
              (record {
                inside = omega arith;
                ahead = ahead;
                behind = λ i h h'. behind i (omega arith) h';
              })
        | inl more ↦
            let open_range : lo < hi = ground (arith, more) in
            elim (Bool-cases (sorts_below below item (get_elem? xs ((lo + hi) / 2)))) [
              | inl up ↦
                  rw (more, find_place)
                    (rw up (
                      find_place-Place fuel below item xs lo ((lo + hi) / 2) (omega arith)
                        (omega arith) (omega arith) rising ahead
                        (λ i h h'. rising ((lo + hi) / 2) i h h' up)))
              | inr down ↦
                  rw (more, find_place)
                    (rw down (
                      find_place-Place fuel below item xs (suc ((lo + hi) / 2)) hi (omega arith)
                        (omega arith) fits rising
                        (λ i h. elim (Bool-cases (sorts_below below item (get_elem? xs i))) [
                          | inr stays ↦ stays
                          | inl up ↦ absurd (
                              ground (
                                arith,
                                down,
                                rising i ((lo + hi) / 2) (omega arith) (omega arith) up,
                              ))
                        ])
                        behind))
            ]
      ]

  every_at :
      (p : A → Bool) (below : A → A → Bool) (item : A) (xs : List A) (j : ℕ)
      → ((y : A) → p y ≡ true → below item y ≡ true)
      → every p xs ≡ true
      → j < length xs
      → sorts_below below item (get_elem? xs j) ≡ true
  every_at p below item [] j through h inside = absurd (omega arith)
  every_at p below item (x ∷ xs) zero through h inside = through x (ground (arith, h))
  every_at p below item (x ∷ xs) (suc j) through h inside =
      every_at p below item xs j through (ground (arith, h)) (omega arith)

  below_through :
      (before below : A → A → Bool)
      → Agrees before below
      → (x y z : A) → below x y ≡ true
      → before y z ≡ true
      → below x z ≡ true
  below_through before below agrees x y z h h' =
      ground (arith, agrees.opposite x y, agrees.opposite x z, agrees.through y z x)

  InOrder-Rising :
      (before below : A → A → Bool)
      → Agrees before below
      → (item : A) (xs : List A) → InOrder before xs
      → Rising below item xs
  InOrder-Rising before below agrees item [] ordered i j le inside h = absurd (omega arith)
  InOrder-Rising before below agrees item (x ∷ xs) ordered zero zero le inside h = h
  InOrder-Rising before below agrees item (x ∷ xs) ordered zero (suc j) le inside h =
      every_at (before x) below item xs j (λ y. below_through before below agrees item x y h)
        ordered.0 (omega arith)
  InOrder-Rising before below agrees item (x ∷ xs) ordered (suc i) zero le inside h =
      absurd (omega arith)
  InOrder-Rising before below agrees item (x ∷ xs) ordered (suc i) (suc j) le inside h =
      InOrder-Rising before below agrees item xs ordered.1 i j (omega arith) (omega arith) h

  Place-splice :
      (below : A → A → Bool) (item : A) (xs : List A) (p : ℕ)
      → Place below item xs p
      → splice p item xs ≡ insert_sorted below item xs
  Place-splice below item [] zero place = refl
  Place-splice below item [] (suc p) place = refl
  Place-splice below item (x ∷ xs) zero place = rw (place.behind 0 (omega arith) (omega arith)) refl
  Place-splice below item (x ∷ xs) (suc p) place =
      let rest : Place below item xs p = record {
        inside = omega (arith, place.inside);
        ahead = λ i h. place.ahead (suc i) (omega arith);
        behind = λ i h h'. place.behind (suc i) (omega arith) (omega arith);
      } in
      rw (place.ahead 0 (omega arith)) (rw (Place-splice below item xs p rest) refl)

  -- On an array in order the search ends inside it, where a stable insertion puts the item.
  pub find_place_lem :
      (before below : A → A → Bool)
      → Agrees before below
      → (item : A) (xs : List A) → InOrder before xs
      → (find_place (length xs) below item xs 0 (length xs) ≤ length xs)
        × (splice (find_place (length xs) below item xs 0 (length xs)) item xs
            ≡ insert_sorted below item xs)
  find_place_lem before below agrees item xs ordered =
      let place =
        find_place-Place (length xs) below item xs 0 (length xs) (omega arith) (omega arith)
          (omega arith) (InOrder-Rising before below agrees item xs ordered)
          (λ i h. absurd (omega arith)) (λ i h h'. absurd (omega arith)) in
      (
        place.inside,
        Place-splice below item xs (find_place (length xs) below item xs 0 (length xs)) place,
      )
