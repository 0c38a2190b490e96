-- ===== src/Routing/PathHops.antt =====
-- src/routing/path_hops.ts: the hop count of a path and of a simulation result. An array enters by its
-- length, `none` where the value is not an array.
use ts_hsync_arb.Prelude.{
  ℕ, Bool, true, false, not, ◌||◌, Option, none, some, List, [], ◌∷◌, if◌then◌else◌,
}
use ts_hsync_arb.Prelude.Int.{ℤ, pos, leb_ℤ, ◌-ℤ◌, eqb_ℤ}
use ts_hsync_arb.Prelude.Number.{Number, whole, other, is_safe_integer}

-- getPathHopCount: `edges` is the length of the edge array, `hop_count` is Number(path.hopCount).
unfoldable pub get_path_hop_count : Option ℕ → Number → Number
get_path_hop_count (some edges) hop_count = whole (pos edges)
get_path_hop_count none other = whole (pos 0)
get_path_hop_count none (whole n) =
    if not (is_safe_integer (whole n)) || leb_ℤ n (pos 0) then whole (pos 0) else whole n

-- normalizedHopCount
abbrev pub normalized_hop_count : Number → Option ℤ
normalized_hop_count other = none
normalized_hop_count (whole n) =
    if not (is_safe_integer (whole n)) || leb_ℤ n (pos 0) then none else some n

pub record ResultShape : Type 0 where
  pub pool_path : Option ℕ
  pub hop_amounts : Option ℕ
  pub token_path : Option ℕ
  pub hop_count : Option Number

-- The filtered array of structural candidates.
abbrev pub cons_some {ℓ} : {A : Type ℓ} → Option A → List A → List A
cons_some none xs = xs
cons_some (some x) xs = x ∷ xs

abbrev pub all_equal : ℤ → List ℤ → Bool
all_equal canonical [] = true
all_equal canonical (x ∷ xs) = if eqb_ℤ x canonical then all_equal canonical xs else false

abbrev pub length_candidate : Option ℕ → ℕ → Option ℤ
length_candidate none drop = none
length_candidate (some n) drop = normalized_hop_count (whole (pos n -ℤ pos drop))

abbrev pub canonical_count : List ℤ → Option Number → Option ℤ
canonical_count [] none = none
canonical_count [] (some n) = normalized_hop_count n
canonical_count (c ∷ cs) n = if all_equal c cs then some c else some (pos 0)

-- getResultHopCount
unfoldable pub get_result_hop_count : ResultShape → Option ℤ
get_result_hop_count r =
    canonical_count
      (cons_some (length_candidate r.pool_path 0) (
        cons_some (length_candidate r.hop_amounts 1)
          (cons_some (length_candidate r.token_path 1) [])))
      r.hop_count
