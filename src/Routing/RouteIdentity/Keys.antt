-- ===== src/Routing/RouteIdentity/Keys.antt =====
-- Equality of route keys: the joined strings of src/routing/route_identity.ts are equal when their parts are.
use mathlib.Core.Path.{◌≡◌}
use ts_hsync_arb.Prelude.{Bool, true, false, List, [], ◌∷◌, ◌↔◌, arith, if◌then◌else◌}
use ts_hsync_arb.Prelude.Keys.{Key}
use ts_hsync_arb.Routing.RouteIdentity.{Segment, RouteKey}

module _ {K : Type 0} ⦃key : Key K⦄ where
  abbrev pub same_segment : Segment K → Segment K → Bool
  same_segment a b =
      if key.same a.pool b.pool
      then if key.same a.from b.from then key.same a.to b.to else false
      else false

  abbrev pub same_segments : List (Segment K) → List (Segment K) → Bool
  same_segments [] [] = true
  same_segments [] (b ∷ ys) = false
  same_segments (a ∷ xs) [] = false
  same_segments (a ∷ xs) (b ∷ ys) = if same_segment a b then same_segments xs ys else false

  abbrev pub same_route_key : RouteKey K → RouteKey K → Bool
  same_route_key a b =
      if key.same a.start b.start then same_segments a.segments b.segments else false

  same_segment_iff : (a b : Segment K) → (same_segment a b ≡ true) ↔ (a ≡ b)
  same_segment_iff a b =
      ground (arith, key.same_iff a.pool b.pool, key.same_iff a.from b.from, key.same_iff a.to b.to)

  same_segments_iff : (xs ys : List (Segment K)) → (same_segments xs ys ≡ true) ↔ (xs ≡ ys)
  same_segments_iff [] [] = ground arith
  same_segments_iff [] (b ∷ ys) = ground arith
  same_segments_iff (a ∷ xs) [] = ground arith
  same_segments_iff (a ∷ xs) (b ∷ ys) =
      ground (arith, same_segment_iff a b, same_segments_iff xs ys)

  pub same_route_key_iff : (a b : RouteKey K) → (same_route_key a b ≡ true) ↔ (a ≡ b)
  same_route_key_iff a b =
      ground (arith, key.same_iff a.start b.start, same_segments_iff a.segments b.segments)

  instance abbrev pub route_key : Key (RouteKey K)
  route_key = record { same = same_route_key; same_iff = same_route_key_iff }
