-- ===== src/Hypersync/Paginate/Arrival.antt =====
-- fetchAllLogsWithClient of src/hypersync/paginate.ts with a client that moves its cursor on.
use ts_hsync_arb.Prelude.{
  ℕ, zero, suc, ◌+◌, ◌≤◌, ◌<◌, ◌≡◌, refl, ap, ◌∙◌, arith, false, ◌&&◌, Option, some, List, length,
  Bool-cases, inl, inr, if◌then◌else◌, ltb, leb, ◌==◌,
}
use ts_hsync_arb.Prelude.Number.{Number}
use ts_hsync_arb.Prelude.Results.{invalid_next_block, invalid_archive_height, ok, ◌>>=◌}
use ts_hsync_arb.Hypersync.Paginate.{
  Response, PageResult, Pagination, finished, continued, finish, add_page, advance, read_page,
  round, initial, clamp_next_block, parse_block_integer, parse_optional_block_integer,
  page_logs_from_response, invalid_range, empty_range, is_none, fetch_range,
  fetch_all_logs_with_client,
}
use ts_hsync_arb.Hypersync.Paginate.Pages.{loop, next_round, loop-round}
use ts_hsync_arb.Hypersync.Paginate.Calls.{Parsed, fetch-Parsed}

module _ {L G : Type 0} where
  -- A response that can be read and whose cursor is after the query's.
  pub record MovesOn (res : Response L G) (cursor : ℕ) : Type 0 where
    pub height : Option ℕ
    pub page : List L
    pub next_cursor : ℕ
    pub has_height :
        parse_optional_block_integer invalid_archive_height res.archive_height ≡ ok height
    pub has_page : page_logs_from_response res.page ≡ ok page
    pub has_next : parse_block_integer invalid_next_block res.next_block ≡ ok next_cursor
    pub ahead : cursor < next_cursor

  -- The round of a page whose cursor is ahead.
  advance_ahead :
      (t : ℕ) (s : Pagination L G) (next count : ℕ)
      → s.from_block < t
      → s.from_block < next
      → let n = clamp_next_block (some t) next in
        advance (some t) s next count ≡ (
          if leb t n
          then ok (finished (finish s n))
          else ok (continued (record s { from_block = n })))
  advance_ahead t s next count below ahead =
      let moved : (next == s.from_block) ≡ false = ground (arith, ahead) in
      let forward : ltb next s.from_block ≡ false = ground (arith, ahead) in
      let on : (clamp_next_block (some t) next == s.from_block) ≡ false =
        ground (arith, ahead, below) in
      let no_stall : (is_none s.archive_height
            && is_none (some t)
            && (clamp_next_block (some t) next == s.from_block))
          ≡ false =
        ground (arith, on) in
      rw (advance, moved) (rw no_stall (rw forward (rw on refl)))

module _ {L G : Type 0} (client : ℕ → ℕ → Option (Response L G)) (t max_pages : ℕ)
    (answers : (call cursor : ℕ)
      → cursor < t
      → (res : Response L G) × (client call cursor ≡ some res) × MovesOn res cursor) where
  round_ahead :
      (s : Pagination L G)
      → s.from_block < t
      → s.pages < max_pages
      → (s' : Pagination L G) × (s'.pages ≡ suc s.pages)
        × (s.from_block < s'.from_block)
        × (round client (some t) max_pages s ≡ (
            if leb t s'.from_block
            then ok (finished (finish s' s'.from_block))
            else ok (continued s')))
        × (s'.from_block ≤ t)
  round_ahead s below room =
      let (res, responds, m) = answers s.pages s.from_block below in
      let s1 = add_page s res m.height m.page in
      let n = clamp_next_block (some t) m.next_cursor in
      let has_room : leb max_pages s.pages ≡ false = ground (arith, room) in
      let step : round client (some t) max_pages s
          ≡ advance (some t) s1 m.next_cursor (length m.page) =
        rw (round, has_room)
          (rw (responds, read_page)
            (rw (m.has_height, ◌>>=◌) (rw (m.has_page, ◌>>=◌) (rw (m.has_next, ◌>>=◌) refl)))) in
      (
        record s1 { from_block = n },
        refl,
        ground (arith, m.ahead, below),
        step ∙ advance_ahead t s1 m.next_cursor (length m.page) below m.ahead,
        ground arith,
      )

  -- The loop from `s` on reaches the target.
  abbrev ReachesTarget : ℕ → Pagination L G → Type 0
  ReachesTarget fuel s =
      (r : PageResult L G) × (loop client (some t) max_pages fuel s ≡ ok r) × (r.next_block ≡ t)

  round-ReachesTarget :
      (fuel : ℕ) (s s' : Pagination L G)
      → s'.from_block ≤ t
      → round client (some t) max_pages s ≡ (
          if leb t s'.from_block
          then ok (finished (finish s' s'.from_block))
          else ok (continued s'))
      → (s'.from_block < t → ReachesTarget fuel s')
      → ReachesTarget (suc fuel) s
  round-ReachesTarget fuel s s' at_most e rest = elim (Bool-cases (leb t s'.from_block)) [
    | inl reached ↦
        let stops = ap (next_round client (some t) max_pages fuel) (rw reached at e) in
        (
          finish s' s'.from_block,
          loop-round client (some t) max_pages fuel s ∙ stops,
          ground (arith, reached, at_most),
        )
    | inr short ↦
        let (r, loops, at) = rest (ground (arith, short)) in
        let goes = ap (next_round client (some t) max_pages fuel) (rw short at e) in
        (r, loop-round client (some t) max_pages fuel s ∙ goes ∙ loops, at)
  ]

  loop_arrives :
      (fuel : ℕ) (s : Pagination L G)
      → s.from_block < t
      → t + s.pages ≤ s.from_block + max_pages
      → max_pages < fuel + s.pages
      → ReachesTarget fuel s
  loop_arrives zero s below enough fuel_enough = absurd (omega arith)
  loop_arrives (suc fuel) s below enough fuel_enough =
      let (s', counted, ahead, e, at_most) = round_ahead s below (omega arith) in
      round-ReachesTarget fuel s s' at_most e
        λ below'. loop_arrives fuel s' below' (omega arith) (omega arith)

  -- A client that answers every query before the target with a page and a cursor after the query's brings
  -- the call to its target, where the limit of pages is not below the number of blocks.
  pub fetch_all_logs_with_client_arrives :
      (query_from : Number) (query_to pages_option : Option Number)
      → (p : Parsed client query_from query_to pages_option) → p.to_block ≡ some t
      → p.max_pages ≡ max_pages
      → p.from_block ≤ t
      → t ≤ p.from_block + max_pages
      → (r : PageResult L G) × (fetch_all_logs_with_client client query_from query_to pages_option
          ≡ ok r)
        × (r.next_block ≡ t)
  fetch_all_logs_with_client_arrives query_from query_to pages_option p to_t pages_max below
        enough =
      let valid : invalid_range p.from_block (some t) ≡ false = ground (arith, below) in
      let step = fetch-Parsed client query_from query_to pages_option p in
      let step' : fetch_all_logs_with_client client query_from query_to pages_option
          ≡ fetch_range client p.from_block (some t) max_pages =
        rw valid at (rw (to_t, pages_max) at step) in
      elim (Bool-cases (empty_range p.from_block (some t))) [
        | inl nothing ↦ (
          finish (initial p.from_block) p.from_block,
          rw nothing at step',
          ground (arith, nothing),
        )
        | inr more ↦
            let (r, loops, at) =
              loop_arrives (suc max_pages) (initial p.from_block) (ground (arith, below, more))
                (omega arith) (omega arith) in
            (r, (rw more at step') ∙ loops, at)
      ]
