-- ===== src/Execution/NonceManager/Reuse.antt =====
-- NonceManager.revert of src/execution/nonce_manager.ts: the call after two allocations.
use ts_hsync_arb.Prelude.{
  ℕ, ◌+◌, ◌-◌, ◌<◌, ◌≡◌, false, Option, some, arith, sym, subst, ◌∙◌, ltb, if◌then◌else◌,
}
use ts_hsync_arb.Prelude.Keys.{Key, get, set, get-set_self}
use ts_hsync_arb.Execution.NonceManager.{Entry, State, next, revert}
use ts_hsync_arb.Execution.NonceManager.Increasing.{Marked, next-Marked, next_lem}

module _ {ℓ} {K : Type ℓ} ⦃key : Key K⦄ where
  revert-Marked :
      (k : K) (st : State K) (e : Entry)
      → get k st ≡ some e
      → e.dirty ≡ false
      → 0 < e.pending
      → Marked k (e.nonce + e.pending - 1) (revert k st)
  unfolding revert
  revert-Marked k st e found clean waiting =
      let e' : Entry = record e {
        pending = if ltb 0 e.pending then e.pending - 1 else e.pending;
      } in
      rw (found, revert) (e', get-set_self k e' st, clean, ground arith)

  revert_after_next :
      (k : K) (onchain : Option ℕ) (h : ℕ) (st : State K)
      → Marked k h st
      → Marked k h (revert k (next k onchain st).1)
  revert_after_next k onchain h st (e, found, clean, sum) =
      let e' : Entry = record e { pending = e.pending + 1 } in
      let back = revert-Marked k (set k e' st) e' (get-set_self k e' st) clean (omega arith) in
      let level : e.nonce + (e.pending + 1) - 1 ≡ h = omega arith in
      rw (next_lem k onchain st e found clean)
        (subst (λ i. Marked k i (revert k (set k e' st))) level back)

  -- Two transactions are given the nonces `h` and `h + 1`. If the first is then marked as reverted
  -- while the second is in flight, the next transaction is given `h + 1` again.
  pub revert_reuses_nonce :
      (k : K) (onchain : Option ℕ) (h : ℕ) (st : State K)
      → Marked k h st
      → let (a, st1) = next k onchain st in
        let (b, st2) = next k onchain st1 in
        let (c, st3) = next k onchain (revert k st2) in (a ≡ some h) × (b ≡ some (h + 1)) × (c ≡ b)
  revert_reuses_nonce k onchain h st m =
      let (first, m1) = next-Marked k onchain h st m in
      let st1 : State K = (next k onchain st).1 in
      let (second, m2) = next-Marked k onchain (h + 1) st1 m1 in
      let (third, m3) =
        next-Marked k onchain (h + 1) (revert k (next k onchain st1).1)
          (revert_after_next k onchain (h + 1) st1 m1) in
      (first, second, third ∙ sym second)
