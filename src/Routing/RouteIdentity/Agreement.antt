-- ===== src/Routing/RouteIdentity/Agreement.antt =====
-- routeIdentityFromEdges and routeIdentityFromSerializedPath, the keys on the two sides of a worker.
use ts_hsync_arb.Prelude.{
  ◌≡◌, refl, arith, suc, ◌==◌, true, false, Option, List, [], ◌∷◌, map, length,
}
use ts_hsync_arb.Routing.RouteIdentity.{
  EdgeIdentity, segments_of, serialized_segments, route_identity_from_edges,
  route_identity_from_serialized_path,
}

module _ {ℓ} {K : Type ℓ} where
  abbrev pub pools : List (EdgeIdentity K) → List (Option K)
  pools = map λ e. e.pool_address

  abbrev pub ins : List (EdgeIdentity K) → List (Option K)
  ins = map λ e. e.token_in

  abbrev pub outs : List (EdgeIdentity K) → List (Option K)
  outs = map λ e. e.token_out

  length-ins : (edges : List (EdgeIdentity K)) → length (ins edges) ≡ length edges
  length-ins [] = refl
  length-ins (e ∷ edges) = omega (arith, length-ins edges)

  length-pools : (edges : List (EdgeIdentity K)) → length (pools edges) ≡ length edges
  length-pools [] = refl
  length-pools (e ∷ edges) = omega (arith, length-pools edges)

  length-outs : (edges : List (EdgeIdentity K)) → length (outs edges) ≡ length edges
  length-outs [] = refl
  length-outs (e ∷ edges) = omega (arith, length-outs edges)

  serialized-segments_of :
      (edges : List (EdgeIdentity K))
      → serialized_segments (pools edges) (ins edges) (outs edges) ≡ segments_of edges
  serialized-segments_of [] = refl
  serialized-segments_of (e ∷ edges) = rw (serialized-segments_of edges) refl

  -- For a path with at least one edge, the key of its serialized form is the key of its edges, and
  -- where an address is missing both throw the same error.
  pub serialized-route_identity :
      (start : Option K) (edge : EdgeIdentity K) (edges : List (EdgeIdentity K))
      → let path = edge ∷ edges in
        route_identity_from_serialized_path start (pools path) (ins path) (outs path)
        ≡ route_identity_from_edges start path
  unfolding route_identity_from_edges route_identity_from_serialized_path
  serialized-route_identity start edge edges =
      let some_edge : (suc (length edges) == 0) ≡ false = ground arith in
      let same_length : (suc (length edges) == suc (length edges)) ≡ true = ground arith in
      rw (length-ins edges, length-pools edges, length-outs edges, serialized-segments_of edges)
        (rw (some_edge, same_length) refl)
