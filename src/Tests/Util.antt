-- ===== src/Tests/Util.antt =====
-- src/util at concrete arguments.
use ts_hsync_arb.Prelude.{ℕ, ◌≡◌, arith, some, List, [], ◌∷◌}
use ts_hsync_arb.Prelude.Int.{ℤ, pos, ◌-ℤ◌, int_laws}
use ts_hsync_arb.Prelude.Arrays.{sort, take}
use ts_hsync_arb.Util.BoundedPriority.{take_top_n_by}
use ts_hsync_arb.Util.BoundedPriority.Selection.{Comparison, not_after, take_top_n_by_lem}

-- The larger first part comes first.
abbrev by_score : ℕ × ℕ → ℕ × ℕ → ℤ
by_score a b = pos b.0 -ℤ pos a.0

by_score-Comparison : Comparison by_score
by_score-Comparison = record {
  opposite = λ x y. ground arith;
  through = λ x y z h h'. omega (int_laws, h, h');
}

abbrev scored : List (ℕ × ℕ)
scored = (3, 1) ∷ (9, 2) ∷ (3, 3) ∷ (7, 4) ∷ (9, 5) ∷ []

take_top_n_by_lem_example :
    take_top_n_by scored (some (pos 4)) by_score ≡ take 4 (sort (not_after by_score) scored)
take_top_n_by_lem_example = take_top_n_by_lem by_score by_score-Comparison scored (some (pos 4))
