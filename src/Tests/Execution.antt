-- ===== src/Tests/Execution.antt =====
-- src/execution at concrete states.
use ts_hsync_arb.Prelude.{ℕ, ◌≡◌, refl, none, some, List, [], ◌∷◌, ◌+◌}
use ts_hsync_arb.Execution.NonceManager.{
  State, Call, allocates, confirms, reverts, synced, next, revert,
}
use ts_hsync_arb.Prelude.Keys.{nat_key}
use ts_hsync_arb.Execution.NonceManager.Increasing.{Rising, nonces_of, nonces_of-Rising}
use ts_hsync_arb.Execution.NonceManager.Reuse.{revert_reuses_nonce}

-- Accounts 1 and 2, in step with the chain at nonces 7 and 30.
abbrev two_accounts : State ℕ
two_accounts = (1, synced 7) ∷ (2, synced 30) ∷ []

abbrev calls : List (Call ℕ)
calls =
    allocates 1 none
    ∷ allocates 2 (some 31)
    ∷ allocates 3 none
    ∷ confirms 1
    ∷ reverts 2
    ∷ allocates 1 none
    ∷ []

nonces_of-Rising_example : Rising 7 (nonces_of 1 calls two_accounts)
nonces_of-Rising_example =
    nonces_of-Rising 1 7 calls two_accounts (synced 7, refl, refl, refl)
      (tt, (tt, (tt, (tt, (refl, (tt, tt))))))

revert_reuses_nonce_example :
    let (a, st1) = next 1 none two_accounts in
    let (b, st2) = next 1 none st1 in
    let (c, st3) = next 1 none (revert 1 st2) in (a ≡ some 7) × (b ≡ some (7 + 1)) × (c ≡ b)
revert_reuses_nonce_example = revert_reuses_nonce 1 none 7 two_accounts (synced 7, refl, refl, refl)
