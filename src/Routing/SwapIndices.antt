-- ===== src/Routing/SwapIndices.antt =====
-- src/routing/swap_indices.ts: resolveSwapTokenIndexes. A token enters as its trimmed, lower-case string,
-- `none` where it is no string or empty; the explicit indexes enter as Number(value).
use ts_hsync_arb.Prelude.{
  ℕ, suc, Bool, true, false, not, ◌&&◌, Option, none, some, List, [], ◌∷◌, length, ◌==◌,
  if◌then◌else◌,
}
use ts_hsync_arb.Prelude.Int.{pos, leb_ℤ, eqb_ℤ}
use ts_hsync_arb.Prelude.Number.{Number, whole, other}
use ts_hsync_arb.Prelude.Keys.{Key}

pub record SwapIndexes : Type 0 where
  pub token_in_idx : Number
  pub token_out_idx : Number

-- The fields read of an edge.
pub record IndexedEdge (K : Type 0) : Type 0 where
  pub explicit_in : Number
  pub explicit_out : Number
  pub token_in : Option K
  pub token_out : Option K
  pub zero_for_one : Bool

-- The test of the explicit indexes.
abbrev pub explicit_indexes : Number → Number → Option SwapIndexes
explicit_indexes (whole i) (whole j) =
    if leb_ℤ (pos 0) i && leb_ℤ (pos 0) j && not (eqb_ℤ i j)
    then some (record { token_in_idx = whole i; token_out_idx = whole j })
    else none
explicit_indexes (whole i) other = none
explicit_indexes other j = none

-- The indexes of a pool of two tokens.
abbrev pub pair_indexes : Bool → Option SwapIndexes
pair_indexes true = some (record { token_in_idx = whole (pos 0); token_out_idx = whole (pos 1) })
pair_indexes false = some (record { token_in_idx = whole (pos 1); token_out_idx = whole (pos 0) })

module _ {K : Type 0} ⦃key : Key K⦄ where
  -- Array.prototype.indexOf, `none` for -1; `i` is the index of the first element.
  abbrev pub index_of : K → ℕ → List (Option K) → Option ℕ
  index_of k i [] = none
  index_of k i (none ∷ tokens) = index_of k (suc i) tokens
  index_of k i (some t ∷ tokens) = if key.same t k then some i else index_of k (suc i) tokens

  -- The search for the two tokens.
  abbrev pub found_indexes : List (Option K) → Option K → Option K → Option SwapIndexes
  found_indexes tokens none token_out = none
  found_indexes tokens (some token_in) none = none
  found_indexes tokens (some token_in) (some token_out) = elim (index_of token_in 0 tokens) [
    | none ↦ none
    | some i ↦ elim (index_of token_out 0 tokens) [
      | none ↦ none
      | some j ↦
          if i == j
          then none
          else some (record { token_in_idx = whole (pos i); token_out_idx = whole (pos j) })
    ]
  ]

  -- resolveSwapTokenIndexes; `tokens` is empty where the state has no array of tokens.
  abbrev pub resolve_swap_token_indexes : IndexedEdge K → List (Option K) → Option SwapIndexes
  resolve_swap_token_indexes edge tokens =
      elim (explicit_indexes edge.explicit_in edge.explicit_out) [
        | some indexes ↦ some indexes
        | none ↦ elim (found_indexes tokens edge.token_in edge.token_out) [
          | some indexes ↦ some indexes
          | none ↦ if length tokens == 2 then pair_indexes edge.zero_for_one else none
        ]
      ]
