-- ===== src/Routing/RouteCache/Latest.antt =====
-- The map `latestByRouteKey` of RouteCache.update: one entry for each route key.
use ts_hsync_arb.Prelude.{
  ◌≡◌, refl, subst, arith, Bool, true, false, not, List, [], ◌∷◌, map, Bool-cases, inl, inr,
}
use ts_hsync_arb.Prelude.Results.{Result, ok, err, ◌>>=◌, Result-cases}
use ts_hsync_arb.Prelude.Keys.{Key, set}
use ts_hsync_arb.Prelude.Arrays.{every}
use ts_hsync_arb.Prelude.Arrays.Sorting.{InOrder}
use ts_hsync_arb.Routing.RouteIdentity.{RouteKey, route_identity_from_edges}
use ts_hsync_arb.Routing.RouteIdentity.Keys.{route_key, same_route_key, same_route_key_iff}
use ts_hsync_arb.Routing.RouteCache.{CachedEntry, has_valid_pool_edges, set_latest}

module _ {ℓ κ} {K : Type ℓ} {V : Type κ} ⦃key : Key K⦄ where
  abbrev pub distinct : K × V → K × V → Bool
  distinct a b = not (key.same a.0 b.0)

  every-set :
      (p : K × V → Bool) (k : K) (v : V) (m : List (K × V))
      → ((j : K) → key.same j k ≡ true → p (j, v) ≡ true)
      → every p m ≡ true
      → every p (set k v m) ≡ true
  every-set p k v [] h hs = ground (arith, h k, key.same_iff k k)
  every-set p k v ((j, w) ∷ m) h hs = elim (Bool-cases (key.same j k)) [
    | inl e ↦ rw e (ground (arith, h j e, hs))
    | inr e ↦ rw e (ground (arith, hs, every-set p k v m h))
  ]

  set-InOrder :
      (k : K) (v : V) (m : List (K × V)) → InOrder distinct m → InOrder distinct (set k v m)
  set-InOrder k v [] h = (refl, tt)
  set-InOrder k v ((j, w) ∷ m) h = elim (Bool-cases (key.same j k)) [
    | inl e ↦ rw e h
    | inr e ↦
        let others : every (distinct (j, w)) (set k v m) ≡ true =
          every-set (distinct (j, w)) k v m
            (λ i same.
              ground (arith, e, same, key.same_iff i k, key.same_iff j i, key.same_iff j k))
            h.0 in
        rw e (others, set-InOrder k v m h.1)
  ]

module _ {K : Type 0} ⦃key : Key K⦄ where
  abbrev pub identity_of : CachedEntry K → Result (RouteKey K)
  identity_of e = route_identity_from_edges e.path.start_token e.path.edges

  abbrev is_key : RouteKey K → Result (RouteKey K) → Bool
  is_key k (err e) = false
  is_key k (ok j) = same_route_key j k

  abbrev other_key : Result (RouteKey K) → Result (RouteKey K) → Bool
  other_key (err e) b = true
  other_key (ok k) (err e) = true
  other_key (ok k) (ok j) = not (same_route_key k j)

  -- Two entries for different routes.
  abbrev pub differs : CachedEntry K → CachedEntry K → Bool
  differs a b = other_key (identity_of a) (identity_of b)

  abbrev pub valid : CachedEntry K → Bool
  valid e = has_valid_pool_edges e.path

  pub record IsLatest (latest : List (RouteKey K × CachedEntry K)) : Type 0 where
    pub keyed : every (λ b. is_key b.0 (identity_of b.1)) latest ≡ true
    pub fresh : InOrder distinct latest
    pub addressed : every (λ b. valid b.1) latest ≡ true

  abbrev set_next :
      CachedEntry K
      → List (CachedEntry K)
      → List (RouteKey K × CachedEntry K)
      → Result (RouteKey K)
      → Result (List (RouteKey K × CachedEntry K))
  set_next entry entries latest identity = identity >>= λ k. set_latest entries (set k entry latest)

  pub set_latest-IsLatest :
      (entries : List (CachedEntry K)) (latest latest' : List (RouteKey K × CachedEntry K))
      → every valid entries ≡ true
      → IsLatest latest
      → set_latest entries latest ≡ ok latest'
      → IsLatest latest'
  set_latest-IsLatest [] latest latest' vs h e =
      let same : latest ≡ latest' = cc in subst IsLatest same h
  set_latest-IsLatest (entry ∷ entries) latest latest' vs h e =
      elim (Result-cases (identity_of entry)) [
        | inl (thrown, fails) ↦
            let thrown_on : err thrown ≡ ok latest' =
              subst (λ r. set_next entry entries latest r ≡ ok latest') fails e in
            absurd cc
        | inr (k, is) ↦
            let own : is_key k (identity_of entry) ≡ true =
              rw is ((same_route_key_iff k k).1 refl) in
            let kept : IsLatest (set k entry latest) = record {
              keyed =
                  every-set (λ b. is_key b.0 (identity_of b.1)) k entry latest
                    (λ j same. let here : j ≡ k = (same_route_key_iff j k).0 same in rw here own)
                    h.keyed;
              fresh = set-InOrder k entry latest h.fresh;
              addressed =
                  every-set (λ b. valid b.1) k entry latest (λ j same. ground (arith, vs))
                    h.addressed;
            } in
            set_latest-IsLatest entries (set k entry latest) latest' (ground (arith, vs)) kept
              (subst (λ r. set_next entry entries latest r ≡ ok latest') is e)
      ]

  other_key-flip : (r s : Result (RouteKey K)) → other_key r s ≡ true → other_key s r ≡ true
  other_key-flip (err e) (err f) h = refl
  other_key-flip (err e) (ok j) h = refl
  other_key-flip (ok k) (err f) h = refl
  other_key-flip (ok k) (ok j) h = ground (arith, h, same_route_key_iff k j, same_route_key_iff j k)

  other_key-is_key :
      (k j : RouteKey K) (r s : Result (RouteKey K))
      → is_key k r ≡ true
      → is_key j s ≡ true
      → not (same_route_key k j) ≡ true
      → other_key r s ≡ true
  other_key-is_key k j (err e) s hr hs d = refl
  other_key-is_key k j (ok i) (err f) hr hs d = refl
  other_key-is_key k j (ok i) (ok l) hr hs d = ground (
    arith,
    d,
    same_route_key_iff i k,
    same_route_key_iff l j,
    same_route_key_iff i l,
    same_route_key_iff k j,
  )

  pub differs-flip : (a b : CachedEntry K) → differs a b ≡ true → differs b a ≡ true
  differs-flip a b h = other_key-flip (identity_of a) (identity_of b) h

  every-differs :
      (k : RouteKey K) (e : CachedEntry K) (latest : List (RouteKey K × CachedEntry K))
      → is_key k (identity_of e) ≡ true
      → every (λ b. is_key b.0 (identity_of b.1)) latest ≡ true
      → every (distinct (k, e)) latest ≡ true
      → every (differs e) (map (λ b. b.1) latest) ≡ true
  every-differs k e [] hk hs ds = refl
  every-differs k e ((j, f) ∷ latest) hk hs ds =
      let head =
        other_key-is_key k j (identity_of e) (identity_of f) hk (ground (arith, hs))
          (ground (arith, ds)) in
      let tail = every-differs k e latest hk (ground (arith, hs)) (ground (arith, ds)) in
      rw head tail

  pub values-Apart :
      (latest : List (RouteKey K × CachedEntry K))
      → every (λ b. is_key b.0 (identity_of b.1)) latest ≡ true
      → InOrder distinct latest
      → InOrder differs (map (λ b. b.1) latest)
  values-Apart [] hs ds = tt
  values-Apart ((k, e) ∷ latest) hs ds = (
    every-differs k e latest (ground (arith, hs)) (ground (arith, hs)) ds.0,
    values-Apart latest (ground (arith, hs)) ds.1,
  )

  pub values-valid :
      (latest : List (RouteKey K × CachedEntry K))
      → every (λ b. valid b.1) latest ≡ true
      → every valid (map (λ b. b.1) latest) ≡ true
  values-valid [] h = refl
  values-valid ((k, e) ∷ latest) h = ground (arith, h, values-valid latest)
