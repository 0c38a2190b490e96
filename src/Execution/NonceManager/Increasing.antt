-- ===== src/Execution/NonceManager/Increasing.antt =====
-- class NonceManager of src/execution/nonce_manager.ts: the nonces that a sequence
-- of calls hands out for one account.
use ts_hsync_arb.Prelude.{
  ℕ, ◌+◌, ◌-◌, ◌≤◌, ◌≡◌, false, Option, none, some, List, [], ◌∷◌, ltb, arith, if◌then◌else◌, refl,
  Bool-cases, inl, inr, ◌++◌, Option-cases, ap, sym, subst,
}
use ts_hsync_arb.Prelude.Keys.{Key, get, set, get-set, get-set_self}
use ts_hsync_arb.Execution.NonceManager.{
  Entry, State, Call, allocates, confirms, reverts, resyncs, resets, step, next, confirm, revert,
  resync, current, allocate, given_to,
}

abbrev pub Rising : ℕ → List ℕ → Type 0
Rising h [] = Unit {0}
Rising h (n ∷ ns) = (h ≤ n) × Rising (n + 1) ns

Rising-mono : (h h' : ℕ) (ns : List ℕ) → h ≤ h' → Rising h' ns → Rising h ns
Rising-mono h h' [] le r = tt
Rising-mono h h' (n ∷ ns) le (p, r) = (omega arith, r)

module _ {ℓ} {K : Type ℓ} ⦃key : Key K⦄ where
  -- The account `k` is in step with the chain, and `h` is the next nonce to hand out.
  abbrev pub Marked : K → ℕ → State K → Type 0
  Marked k h st = (e : Entry) × (get k st ≡ some e) × (e.dirty ≡ false) × (e.nonce + e.pending ≡ h)

  -- The call does not set the account back.
  abbrev pub Keeps : K → Call K → Type 0
  Keeps k (reverts j) = key.same j k ≡ false
  Keeps k (resyncs j) = key.same j k ≡ false
  Keeps k resets = ⊥
  Keeps k _ = Unit {0}

  abbrev pub AllKeep : K → List (Call K) → Type 0
  AllKeep k [] = Unit {0}
  AllKeep k (c ∷ cs) = Keeps k c × AllKeep k cs

  -- The nonces that a sequence of calls hands out for `k`.
  abbrev pub handed : K → Option (K × ℕ) → List ℕ
  handed k none = []
  handed k (some (j, n)) = if key.same j k then n ∷ [] else []

  pub nonces_of : K → List (Call K) → State K → List ℕ
  nonces_of k [] st = []
  nonces_of k (c ∷ cs) st = let (out, st') = step c st in handed k out ++ nonces_of k cs st'

  -- A call on another account leaves the mark.
  other_account :
      (k j : K) (v : Entry) (st : State K) (h : ℕ)
      → key.same j k ≡ false
      → Marked k h st
      → Marked k h (set j v st)
  other_account k j v st h differs (e, found, clean, sum) =
      (e, rw (get-set j k v st) (rw differs found), clean, sum)

  pub next_lem :
      (k : K) (onchain : Option ℕ) (st : State K) (e : Entry)
      → get k st ≡ some e
      → e.dirty ≡ false
      → next k onchain st
        ≡ (some (e.nonce + e.pending), set k (record e { pending = e.pending + 1 }) st)
  unfolding next
  next_lem k onchain st e found clean =
      let same : current (get k st) onchain ≡ some e = rw found (rw clean refl) in
      ap (λ (c : Option Entry). allocate k c st) same

  pub next-Marked :
      (k : K) (onchain : Option ℕ) (h : ℕ) (st : State K)
      → Marked k h st
      → ((next k onchain st).0 ≡ some h) × Marked k (h + 1) (next k onchain st).1
  next-Marked k onchain h st (e, found, clean, sum) =
      let e' : Entry = record e { pending = e.pending + 1 } in
      rw (next_lem k onchain st e found clean)
        (ap some sum, (e', get-set_self k e' st, clean, omega arith))

  next_other :
      (k j : K) (onchain : Option ℕ) (h : ℕ) (st : State K)
      → key.same j k ≡ false
      → Marked k h st
      → Marked k h (next j onchain st).1
  unfolding next
  next_other k j onchain h st differs m = elim (Option-cases (current (get j st) onchain)) [
    | inl rejected ↦ rw rejected m
    | inr (e, read) ↦
        rw read (other_account k j (record e { pending = e.pending + 1 }) st h differs m)
  ]

  confirm-Marked :
      (k : K) (h : ℕ) (st : State K)
      → Marked k h st
      → (h' : ℕ) × (h ≤ h') × Marked k h' (confirm k st)
  unfolding confirm
  confirm-Marked k h st (e, found, clean, sum) =
      let e' : Entry = record e {
        nonce = e.nonce + 1;
        pending = if ltb 0 e.pending then e.pending - 1 else e.pending;
      } in
      (
        e'.nonce + e'.pending,
        ground arith,
        rw (found, confirm) (e', get-set_self k e' st, clean, refl),
      )

  -- confirm, revert and resync of another account.
  update_other :
      (k j : K) (h : ℕ) (st : State K) (f : Entry → Entry)
      → key.same j k ≡ false
      → Marked k h st
      → Marked k h (elim (get j st) [ none ↦ st | some e ↦ set j (f e) st ])
  update_other k j h st f differs m = elim (Option-cases (get j st)) [
    | inl missing ↦ rw missing m
    | inr (e, found) ↦ rw found (other_account k j (f e) st h differs m)
  ]

  confirm_other :
      (k j : K) (h : ℕ) (st : State K)
      → key.same j k ≡ false
      → Marked k h st
      → Marked k h (confirm j st)
  unfolding confirm
  confirm_other k j h st differs m = update_other k j h st _ differs m

  handed_other :
      (k j : K) (nonce : Option ℕ) (h : ℕ) (ns : List ℕ)
      → key.same j k ≡ false
      → Rising h ns
      → Rising h (handed k (given_to j nonce) ++ ns)
  handed_other k j none h ns miss r = r
  handed_other k j (some n) h ns miss r = rw miss r

  -- One call: a mark is left that the nonces handed out reach at most.
  step-Marked :
      (k : K) (h : ℕ) (c : Call K) (st : State K)
      → Marked k h st
      → Keeps k c
      → (h' : ℕ) × Marked k h' (step c st).1
        × ((ns : List ℕ) → Rising h' ns → Rising h (handed k (step c st).0 ++ ns))
  unfolding step revert resync
  step-Marked k h (allocates j onchain) st m _ = elim (Bool-cases (key.same j k)) [
    | inl hit ↦
        let e : j ≡ k = (key.same_iff j k).0 hit in
        rw e (
          let (given, m') = next-Marked k onchain h st m in
          (h + 1, m', λ ns r. rw given (rw ((key.same_iff k k).1 refl) (omega arith, r))))
    | inr miss ↦ (
      h,
      next_other k j onchain h st miss m,
      λ ns r. handed_other k j (next j onchain st).0 h ns miss r,
    )
  ]
  step-Marked k h (confirms j) st m _ = elim (Bool-cases (key.same j k)) [
    | inl hit ↦
        let (h', le, m') = confirm-Marked k h st m in
        (
          h',
          subst (λ i. Marked k h' (confirm i st)) (sym ((key.same_iff j k).0 hit)) m',
          λ ns r. Rising-mono h h' ns le r,
        )
    | inr miss ↦ (h, confirm_other k j h st miss m, λ ns r. r)
  ]
  step-Marked k h (reverts j) st m keeps = (h, update_other k j h st _ keeps m, λ ns r. r)
  step-Marked k h (resyncs j) st m keeps = (h, update_other k j h st _ keeps m, λ ns r. r)
  step-Marked k h resets st m keeps = absurd keeps

  -- From a state in which the account is in step at mark `h`, over any calls that do not revert,
  -- resynchronise or reset it (calls on other accounts are free), the nonces handed out for it start at
  -- `h` or above and strictly rise: none is handed out twice.
  pub nonces_of-Rising :
      (k : K) (h : ℕ) (cs : List (Call K)) (st : State K)
      → Marked k h st
      → AllKeep k cs
      → Rising h (nonces_of k cs st)
  unfolding nonces_of
  nonces_of-Rising k h [] st m keeps = tt
  nonces_of-Rising k h (c ∷ cs) st m (keep, keeps) =
      let (h', m', grow) = step-Marked k h c st m keep in
      grow (nonces_of k cs (step c st).1) (nonces_of-Rising k h' cs (step c st).1 m' keeps)
