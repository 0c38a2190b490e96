-- ===== src/Tests/Woofi.antt =====
-- src/math/woofi.ts on a concrete pool.
use ts_hsync_arb.Prelude.{ℕ, ◌*◌, ◌^◌, refl, false, none, some, [], ◌∷◌}
use ts_hsync_arb.Prelude.Int.{pos}
use ts_hsync_arb.Prelude.Keys.{nat_key}
use ts_hsync_arb.Math.Woofi.{BaseState, WoofiPool, get_woofi_amount_out}
use ts_hsync_arb.Math.Woofi.Reserve.{Pays, pool_reserve, get_woofi_amount_out-Pays}

-- A base token at the price of two quote tokens.
abbrev two_quotes : BaseState
two_quotes = record {
  price = some (pos 200_000_000);
  coeff = some (pos 1_000_000_000);
  spread = some (pos 250_000_000_000_000);
  base_dec = some (pos (10 ^ 18));
  quote_dec = some (pos 1_000_000);
  price_dec = some (pos 100_000_000);
  max_gamma = some (pos 3_000_000_000_000_000);
  max_notional_swap = some (pos 1_000_000_000_000);
  fee_rate = some (pos 25);
  reserve = some (pos (50 * 10 ^ 18));
  infeasible = false;
}

abbrev two_bases : WoofiPool ℕ
two_bases = record {
  quote_token = some 1;
  base_states = (2, two_quotes) ∷ (3, two_quotes) ∷ [];
  quote_reserve = some (pos 90_000_000);
  tokens = some (some 1) ∷ some (some 2) ∷ some (some 3) ∷ some none ∷ none ∷ [];
}

get_woofi_amount_out-Pays_example :
    Pays
      (pool_reserve two_bases 1 3)
      (get_woofi_amount_out two_bases (pos (10 ^ 18)) (some 2) (some 3))
get_woofi_amount_out-Pays_example = get_woofi_amount_out-Pays two_bases (pos (10 ^ 18)) 2 3 1 refl
