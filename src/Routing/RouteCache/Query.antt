-- ===== src/Routing/RouteCache/Query.antt =====
-- getByPools of src/routing/route_cache.ts, on a cache whose index is that of its routes.
use ts_hsync_arb.Prelude.{
  ℕ, zero, suc, ◌≡◌, ◌↔◌, refl, sym, ap, subst, ◌∙◌, arith, Bool, true, Option, some, List, [], ◌∷◌,
  map, get_elem?, Bool-cases, Option-cases, inl, inr, ◌==◌,
}
use ts_hsync_arb.Prelude.Keys.{Key, nat_key}
use ts_hsync_arb.Prelude.Arrays.{any, present, has}
use ts_hsync_arb.Prelude.Arrays.Member.{In, first, later, not-In-nil, In-cons}
use ts_hsync_arb.Routing.RouteCache.{CachedEntry, RouteCache, index_routes, collect, get_by_pools}
use ts_hsync_arb.Routing.RouteCache.Index.{
  touches, touches_at, hits, hits-index_routes, has-collect, touched_from_lem,
}

module _ {ℓ} {A : Type ℓ} where
  In-get_elem? : {x : A} (xs : List A) (i : ℕ) → get_elem? xs i ≡ some x → In x xs
  In-get_elem? [] i e = absurd cc
  In-get_elem? {x} (y ∷ ys) zero e = let same : y ≡ x = cc in rw same (first ys)
  In-get_elem? (y ∷ ys) (suc i) e = later y (In-get_elem? ys i e)

  get_elem?-In : {x : A} {xs : List A} → In x xs → (i : ℕ) × (get_elem? xs i ≡ some x)
  get_elem?-In (first xs) = (0, refl)
  get_elem?-In (later y m) = let (i, e) = get_elem?-In m in (suc i, e)

  In-present :
      (f : ℕ → Option A) {x : A} (i : ℕ) (is : List ℕ)
      → has i is ≡ true
      → f i ≡ some x
      → In x (present (map f is))
  In-present f i [] h e = absurd cc
  In-present f {x} i (j ∷ is) h e = elim (Bool-cases (j == i)) [
    | inl here ↦
        let same : f j ≡ some x = ground (arith, here, e) in rw same (first (present (map f is)))
    | inr elsewhere ↦
        let further = In-present f i is (ground (arith, h, elsewhere)) e in
        elim (Option-cases (f j)) [
          | inl absent ↦ rw absent further
          | inr (y, at) ↦ rw at (later y further)
        ]
  ]

  present-In :
      (f : ℕ → Option A) {x : A} (is : List ℕ)
      → In x (present (map f is))
      → (i : ℕ) × (has i is ≡ true) × (f i ≡ some x)
  present-In f [] m = absurd (not-In-nil m)
  present-In f {x} (j ∷ is) m = elim (Option-cases (f j)) [
    | inl absent ↦
        let below : In x (present (map f is)) =
          subst (λ o. In x (present (o ∷ map f is))) absent m in
        let (i, h, e) = present-In f is below in (i, ground (arith, h), e)
    | inr (y, at) ↦
        let split : In x (y ∷ present (map f is)) =
          subst (λ o. In x (present (o ∷ map f is))) at m in
        elim (In-cons split) [
          | inl same ↦ (j, ground arith, at ∙ ap some (sym same))
          | inr below ↦ let (i, h, e) = present-In f is below in (i, ground (arith, h), e)
        ]
  ]

module _ {K : Type 0} ⦃key : Key K⦄ where
  any_same : (p q : K → Bool) (xs : List K) → ((x : K) → p x ≡ q x) → any p xs ≡ any q xs
  any_same p q [] h = refl
  any_same p q (x ∷ xs) h = ground (arith, h x, any_same p q xs h)

  -- The numbers that getByPools collects.
  found :
      (routes : List (CachedEntry K)) (changed : List (Option K)) (j : ℕ)
      → has j (collect (index_routes 0 routes []) changed [])
        ≡ any (λ pool. touches_at pool (get_elem? routes j)) (present changed)
  found routes changed j =
      let pointwise : (pool : K)
          → hits pool j (index_routes 0 routes []) ≡ touches_at pool (get_elem? routes j) =
        λ pool.
          ground (arith, hits-index_routes pool 0 j routes [], touched_from_lem pool 0 j routes) in
      has-collect j (index_routes 0 routes []) changed []
      ∙ ground (
        arith,
        any_same (λ p. hits p j (index_routes 0 routes [])) (λ p. touches_at p (get_elem? routes j))
            (present changed) pointwise,
      )

  -- Where the index is that of the routes, getByPools returns exactly the cached routes with an edge
  -- of a changed pool.
  pub get_by_pools_lem :
      (cache : RouteCache K) (changed : List (Option K)) (entry : CachedEntry K)
      → cache.pool_index ≡ index_routes 0 cache.routes []
      → In entry (get_by_pools cache changed)
        ↔ (In entry cache.routes × (touches changed entry ≡ true))
  unfolding get_by_pools
  get_by_pools_lem cache changed entry indexed =
      let index = index_routes 0 cache.routes [] in
      let numbers = collect index changed [] in
      let fetched = present (map (λ i. get_elem? cache.routes i) numbers) in
      let at : (i : ℕ)
          → get_elem? cache.routes i ≡ some entry
          → has i numbers ≡ touches changed entry =
        λ i e.
          subst (λ o. has i numbers ≡ any (λ p. touches_at p o) (present changed)) e
            (found cache.routes changed i) in
      let there : In entry fetched → In entry cache.routes × (touches changed entry ≡ true) = λ m.
        let (i, h, e) = present-In (get_elem? cache.routes) numbers m in
        (In-get_elem? cache.routes i e, sym (at i e) ∙ h) in
      let back : (In entry cache.routes × (touches changed entry ≡ true)) → In entry fetched = λ m.
        let (i, e) = get_elem?-In m.0 in
        let h : has i numbers ≡ true = at i e ∙ m.1 in
        In-present (get_elem? cache.routes) i numbers h e in
      rw indexed (there, back)
