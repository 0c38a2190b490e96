-- ===== src/Hypersync/Paginate/Pages.antt =====
-- The whole loop of fetchAllLogsWithClient (src/hypersync/paginate.ts).
use ts_hsync_arb.Prelude.{
  ℕ, zero, suc, ◌+◌, ◌≤◌, ◌<◌, ◌≡◌, ◌≢◌, refl, sym, ap, subst, ◌∙◌, arith, Option, none, some, List,
  [], ◌++◌, inl, inr,
}
use mathlib.Core.List.{append-nil, append_assoc}
use ts_hsync_arb.Prelude.Results.{
  out_of_fuel, invalid_next_block, Result, ok, err, ok-injective, err-injective, not-threw,
  Result-cases,
}
use ts_hsync_arb.Hypersync.Paginate.{
  Response, PageLogs, missing, not_an_array, logs, PageResult, Pagination, Round, finished,
  continued, finish, add_page, round, page_loop, clamp_next_block, parse_block_integer,
  page_logs_from_response,
}
use ts_hsync_arb.Hypersync.Paginate.Progress.{Within}
use ts_hsync_arb.Hypersync.Paginate.Rounds.{Reads, throws, ends, goes_on, round_cases}

abbrev pub logs_in : {L : Type 0} → PageLogs L → List L
logs_in missing = []
logs_in not_an_array = []
logs_in (logs page) = page

logs_in-page :
    {L : Type 0} (p : PageLogs L) (page : List L)
    → page_logs_from_response p ≡ ok page
    → logs_in p ≡ page
logs_in-page missing page e = ok-injective e
logs_in-page not_an_array page e = absurd (not-threw e)
logs_in-page (logs l) page e = ok-injective e

module _ {L G : Type 0} (client : ℕ → ℕ → Option (Response L G)) (to_block : Option ℕ) where
  -- The cursor of the next query after a response.
  abbrev cursor_after : Response L G → ℕ
  cursor_after res = elim (parse_block_integer invalid_next_block res.next_block) [
    | err thrown ↦ 0
    | ok next ↦ clamp_next_block to_block next
  ]

  -- The logs of `k` pages one after the other, from call number `n` at a cursor on, where the cursor of each
  -- query comes from the response before it.
  abbrev pub gather : ℕ → ℕ → ℕ → List L
  gather zero n cursor = []
  gather (suc k) n cursor = elim (client n cursor) [
    | none ↦ []
    | some res ↦ logs_in res.page ++ gather k (suc n) (cursor_after res)
  ]

module _ {L G : Type 0} (client : ℕ → ℕ → Option (Response L G)) (to_block : Option ℕ)
    (max_pages : ℕ) where
  abbrev pub loop : ℕ → Pagination L G → Result (PageResult L G)
  loop fuel s = page_loop client fuel to_block max_pages s

  abbrev pub next_round : ℕ → Result (Round L G) → Result (PageResult L G)
  next_round fuel (err thrown) = err thrown
  next_round fuel (ok (finished result)) = ok result
  next_round fuel (ok (continued s)) = loop fuel s

  pub loop-round :
      (fuel : ℕ) (s : Pagination L G)
      → loop (suc fuel) s ≡ next_round fuel (round client to_block max_pages s)
  unfolding page_loop
  loop-round fuel s = elim (Result-cases (round client to_block max_pages s)) [
    | inl (thrown, e) ↦ rw (page_loop, e) refl
    | inr (finished result, e) ↦ rw (page_loop, e) refl
    | inr (continued s', e) ↦ rw (page_loop, e) refl
  ]

  pub loop_fuel :
      (fuel : ℕ) (s : Pagination L G)
      → Within to_block s.from_block
      → max_pages < fuel + s.pages
      → s.pages ≤ max_pages
      → loop fuel s ≢ err out_of_fuel
  loop_fuel zero s w enough below = absurd (omega arith)
  loop_fuel (suc fuel) s w enough below = elim (round_cases client to_block max_pages s w) [
    | throws thrown h e ↦
        λ x. h (err-injective (sym (loop-round fuel s ∙ ap (next_round fuel) e) ∙ x))
    | ends res page next height end room reads above within e ↦
        λ x. not-threw (sym x ∙ loop-round fuel s ∙ ap (next_round fuel) e)
    | goes_on res page next height room reads above within e ↦ λ x.
        loop_fuel fuel _ within (omega arith) room
          (sym (loop-round fuel s ∙ ap (next_round fuel) e) ∙ x)
  ]

  -- What a result says of the loop from `s` on.
  pub record Fetched (s : Pagination L G) (r : PageResult L G) : Type 0 where
    pub read : ℕ
    pub counted : r.pages ≡ read + s.pages
    pub fits : r.pages ≤ max_pages
    pub above : s.from_block ≤ r.next_block
    pub within : Within to_block r.next_block
    pub gathered : r.all_logs ≡ s.all_logs ++ gather client to_block read s.pages s.from_block

  gather-Reads :
      (s : Pagination L G) (res : Response L G) (page : List L) (next k : ℕ)
      → Reads client s res page next
      → gather client to_block (suc k) s.pages s.from_block
        ≡ page ++ gather client to_block k (suc s.pages) (clamp_next_block to_block next)
  gather-Reads s res page next k reads =
      let cursor : cursor_after client to_block res ≡ clamp_next_block to_block next =
        rw (cursor_after, reads.has_next) refl in
      rw (gather, reads.responds) (rw (logs_in-page res.page page reads.has_page, cursor) refl)

  pub loop-Fetched :
      (fuel : ℕ) (s : Pagination L G) (r : PageResult L G)
      → Within to_block s.from_block
      → loop fuel s ≡ ok r
      → Fetched s r
  unfolding page_loop
  loop-Fetched zero s r w e = absurd (not-threw e)
  loop-Fetched (suc fuel) s r w e = elim (round_cases client to_block max_pages s w) [
    | throws thrown h x ↦ absurd (not-threw (sym (loop-round fuel s ∙ ap (next_round fuel) x) ∙ e))
    | ends res page next height end room reads above within x ↦
        let same : finish (add_page s res height page) end ≡ r =
          ok-injective (sym (loop-round fuel s ∙ ap (next_round fuel) x) ∙ e) in
        subst (Fetched s) same (record {
          read = 1;
          counted = omega arith;
          fits = room;
          above = above;
          within = within;
          gathered = rw (gather-Reads s res page next 0 reads, append-nil page) refl;
        })
    | goes_on res page next height room reads above within x ↦
        let rest =
          loop-Fetched fuel _ r within (sym (loop-round fuel s ∙ ap (next_round fuel) x) ∙ e) in
        record {
          read = suc rest.read;
          counted = omega (arith, rest.counted);
          fits = rest.fits;
          above = omega (arith, above, rest.above);
          within = rest.within;
          gathered =
              rw (rest.gathered, gather-Reads s res page next rest.read reads)
                (append_assoc s.all_logs page _);
        }
  ]
