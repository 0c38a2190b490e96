-- ===== src/Routing/RouteIdentity.antt =====
-- src/routing/route_identity.ts: the keys of routes. An address enters in its normalised form, `none`
-- where normalizeEvmAddress returns null. A key stands by the parts that the source joins with `:` and
-- `|`, which no normalised address contains.
pub mod Keys
pub mod Agreement
use ts_hsync_arb.Prelude.{
  ℕ, Bool, true, false, not, ◌||◌, Option, none, some, List, [], ◌∷◌, ◌==◌, length, if◌then◌else◌,
}
use ts_hsync_arb.Prelude.Int.{ℤ, pos, eqb_ℤ, leb_ℤ}
use ts_hsync_arb.Prelude.Number.{Number, whole, other, is_safe_integer}
use ts_hsync_arb.Prelude.Results.{
  Error, route_edges_empty, start_token_required, pool_address_required, token_in_required,
  token_out_required, segment_length_mismatch, hop_count_not_positive, hop_count_mismatch, Result,
  ok, err, throw_if, ◌>>=◌, ◌>>◌,
}

pub record EdgeIdentity {ℓ} (K : Type ℓ) : Type ℓ where
  pub pool_address : Option K
  pub token_in : Option K
  pub token_out : Option K

pub record Segment {ℓ} (K : Type ℓ) : Type ℓ where
  pub pool : K
  pub from : K
  pub to : K

pub record RouteKey {ℓ} (K : Type ℓ) : Type ℓ where
  pub start : K
  pub segments : List (Segment K)

pub record ExecutionKey {ℓ} (K : Type ℓ) : Type ℓ where
  pub hop_count : ℤ
  pub identity : RouteKey K

-- `!Number.isSafeInteger(n) || n <= 0`
abbrev pub not_positive : Number → Bool
not_positive other = true
not_positive (whole n) = not (is_safe_integer (whole n)) || leb_ℤ n (pos 0)

module _ {ℓ} {K : Type ℓ} where
  abbrev pub require_route_address : Option K → Error → Result K
  require_route_address none required = err required
  require_route_address (some address) required = ok address

  abbrev pub normalise_route_segment : Option K → Option K → Option K → Result (Segment K)
  normalise_route_segment pool_address token_in token_out = do
    pool ← require_route_address pool_address pool_address_required
    from ← require_route_address token_in token_in_required
    to ← require_route_address token_out token_out_required
    ok (record { pool = pool; from = from; to = to })

  -- The `map` over the edges.
  abbrev pub segments_of : List (EdgeIdentity K) → Result (List (Segment K))
  segments_of [] = ok []
  segments_of (edge ∷ edges) = do
    segment ← normalise_route_segment edge.pool_address edge.token_in edge.token_out
    rest ← segments_of edges
    ok (segment ∷ rest)

  unfoldable pub route_identity_from_edges : Option K → List (EdgeIdentity K) → Result (RouteKey K)
  route_identity_from_edges start_token edges = do
    throw_if (length edges == 0) route_edges_empty
    start ← require_route_address start_token start_token_required
    segments ← segments_of edges
    ok (record { start = start; segments = segments })

  -- The `map` over the pool addresses, with the other two arrays read at the same index.
  abbrev pub serialized_segments :
      List (Option K) → List (Option K) → List (Option K) → Result (List (Segment K))
  serialized_segments (pool_address ∷ pool_addresses) (token_in ∷ token_ins)
        (token_out ∷ token_outs) =
      do
        segment ← normalise_route_segment pool_address token_in token_out
        rest ← serialized_segments pool_addresses token_ins token_outs
        ok (segment ∷ rest)
  serialized_segments _ _ _ = ok []

  unfoldable pub route_identity_from_serialized_path :
      Option K → List (Option K) → List (Option K) → List (Option K) → Result (RouteKey K)
  route_identity_from_serialized_path start_token pool_addresses token_ins token_outs = do
    throw_if
        (length pool_addresses == 0
          || not (length token_ins == length pool_addresses)
          || not (length token_outs == length pool_addresses))
        segment_length_mismatch
    start ← require_route_address start_token start_token_required
    segments ← serialized_segments pool_addresses token_ins token_outs
    ok (record { start = start; segments = segments })

  unfoldable pub route_execution_cache_key :
      Option K → Number → List (EdgeIdentity K) → Result (ExecutionKey K)
  route_execution_cache_key start_token hop_count edges = do
    throw_if (not_positive hop_count) hop_count_not_positive
    elim hop_count [
      | other ↦ err hop_count_not_positive
      | whole n ↦ do
        throw_if (not (eqb_ℤ (pos (length edges)) n)) hop_count_mismatch
        identity ← route_identity_from_edges start_token edges
        ok (record { hop_count = n; identity = identity })
    ]
