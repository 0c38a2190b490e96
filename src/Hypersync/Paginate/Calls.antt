-- ===== src/Hypersync/Paginate/Calls.antt =====
-- fetchAllLogsWithClient of src/hypersync/paginate.ts as a whole.
use ts_hsync_arb.Prelude.{
  ℕ, suc, ◌≤◌, ◌≡◌, ◌≢◌, refl, sym, subst, ◌∙◌, arith, false, Option, none, some, Bool-cases, inl,
  inr, ◌⊎◌, not, ◌||◌, ◌==◌,
}
use ts_hsync_arb.Prelude.Number.{Number, whole, other, is_safe_integer}
use ts_hsync_arb.Prelude.Int.{pos, negsuc}
use ts_hsync_arb.Hypersync.Paginate.Rounds.{parse_block_integer_cases, parse_optional_cases}
use ts_hsync_arb.Prelude.Results.{
  Error, err-injective, out_of_fuel, invalid_from_block, invalid_to_block, invalid_max_pages,
  invalid_block_range, Result, ok, err, ok-injective, not-threw, ◌>>=◌, ◌>>◌, throw_if,
}
use ts_hsync_arb.Hypersync.Paginate.{
  Response, PageResult, finish, initial, parse_block_integer, parse_optional_block_integer,
  parse_positive_integer, default_max_pages, invalid_range, empty_range, fetch_range,
  fetch_all_logs_with_client,
}
use ts_hsync_arb.Hypersync.Paginate.Progress.{Within}
use ts_hsync_arb.Hypersync.Paginate.Pages.{gather, loop_fuel, loop-Fetched}

in_range :
    (from : ℕ) (to_block : Option ℕ) → invalid_range from to_block ≡ false → Within to_block from
in_range from none h = tt
in_range from (some t) h = ground (arith, h)

parse_positive_cases :
    (value : Option Number) (fallback : ℕ)
    → (parse_positive_integer invalid_max_pages value fallback ≡ err invalid_max_pages)
      ⊎ ((n : ℕ) × (parse_positive_integer invalid_max_pages value fallback ≡ ok n))
parse_positive_cases none fallback = inr (fallback, refl)
parse_positive_cases (some other) fallback = inl refl
parse_positive_cases (some (whole (negsuc n))) fallback = inl refl
parse_positive_cases (some (whole (pos n))) fallback =
    elim (Bool-cases (not (is_safe_integer (whole (pos n))) || n == 0)) [
      | inl b ↦ inl (rw (parse_positive_integer, b) refl)
      | inr b ↦ inr (n, rw (parse_positive_integer, b) refl)
    ]

module _ {L G : Type 0} (client : ℕ → ℕ → Option (Response L G)) where
  -- The arguments of a call, read: the first block, the target and the limit of pages.
  pub record Parsed (query_from : Number) (query_to pages_option : Option Number) : Type 0 where
    pub from_block : ℕ
    pub to_block : Option ℕ
    pub max_pages : ℕ
    pub from_parsed : parse_block_integer invalid_from_block query_from ≡ ok from_block
    pub to_parsed : parse_optional_block_integer invalid_to_block query_to ≡ ok to_block
    pub pages_parsed :
        parse_positive_integer invalid_max_pages pages_option default_max_pages ≡ ok max_pages

  -- The call after its arguments are read.
  pub fetch-Parsed :
      (query_from : Number) (query_to pages_option : Option Number)
      → (p : Parsed query_from query_to pages_option)
      → fetch_all_logs_with_client client query_from query_to pages_option ≡ (
          throw_if (invalid_range p.from_block p.to_block) invalid_block_range
          >> fetch_range client p.from_block p.to_block p.max_pages)
  unfolding fetch_all_logs_with_client
  fetch-Parsed query_from query_to pages_option p =
      elim (Bool-cases (invalid_range p.from_block p.to_block)) [
        | inl bad ↦ rw (p.from_parsed, ◌>>=◌) (rw (p.to_parsed, ◌>>=◌) (rw bad refl))
        | inr good ↦
            rw (p.from_parsed, ◌>>=◌)
              (rw (p.to_parsed, ◌>>=◌) (rw good (rw (p.pages_parsed, ◌>>=◌) refl)))
      ]

  range-Fetched :
      (from : ℕ) (to_block : Option ℕ) (max_pages : ℕ) (r : PageResult L G)
      → Within to_block from
      → fetch_range client from to_block max_pages ≡ ok r
      → (r.pages ≤ max_pages)
        × (from ≤ r.next_block)
        × Within to_block r.next_block
        × (r.all_logs ≡ gather client to_block r.pages 0 from)
  range-Fetched from to_block max_pages r w e = elim (Bool-cases (empty_range from to_block)) [
    | inl nothing ↦
        let same : finish (initial from) from ≡ r = ok-injective (rw nothing at e) in
        subst
          (λ r.
            (r.pages ≤ max_pages)
            × (from ≤ r.next_block)
            × Within to_block r.next_block
            × (r.all_logs ≡ gather client to_block r.pages 0 from))
          same (omega arith, omega arith, w, refl)
    | inr more ↦
        let f =
          loop-Fetched client to_block max_pages (suc max_pages) (initial from) r w
            (rw more at e) in
        let all_read : f.read ≡ r.pages = omega (arith, f.counted) in
        (f.fits, f.above, f.within, rw (f.gathered, all_read) refl)
  ]

  -- Where a call with readable arguments returns, it has read at most the given number of pages, its next
  -- block is not before the first block nor after the target, and its logs are those of the pages one
  -- after the other, where the cursor of each query is the one of the response before it.
  pub fetch_all_logs_with_client_lem :
      (query_from : Number) (query_to pages_option : Option Number) (r : PageResult L G)
      → (p : Parsed query_from query_to pages_option)
      → fetch_all_logs_with_client client query_from query_to pages_option ≡ ok r
      → (r.pages ≤ p.max_pages)
        × (p.from_block ≤ r.next_block)
        × Within p.to_block r.next_block
        × (r.all_logs ≡ gather client p.to_block r.pages 0 p.from_block)
  fetch_all_logs_with_client_lem query_from query_to pages_option r p e =
      let e' = sym (fetch-Parsed query_from query_to pages_option p) ∙ e in
      elim (Bool-cases (invalid_range p.from_block p.to_block)) [
        | inl bad ↦ absurd (not-threw (rw bad at e'))
        | inr good ↦
            range-Fetched p.from_block p.to_block p.max_pages r
              (in_range p.from_block p.to_block good) (rw good at e')
      ]

  other_error :
      {r : Result (PageResult L G)} (thrown : Error)
      → thrown ≢ out_of_fuel
      → r ≡ err thrown
      → r ≢ err out_of_fuel
  other_error thrown h e x = h (err-injective (sym e ∙ x))

  range_fuel :
      (from : ℕ) (to_block : Option ℕ) (max_pages : ℕ)
      → Within to_block from
      → fetch_range client from to_block max_pages ≢ err out_of_fuel
  range_fuel from to_block max_pages w = elim (Bool-cases (empty_range from to_block)) [
    | inl nothing ↦ λ x. not-threw (sym (rw nothing at x))
    | inr more ↦ λ x.
        loop_fuel client to_block max_pages (suc max_pages) (initial from) w (omega arith)
          (omega arith) (rw more at x)
  ]

  -- Whatever the client answers, a call ends within its limit of pages: with a result, or with one of the
  -- errors that the code throws.
  pub fetch_all_logs_with_client_total :
      (query_from : Number) (query_to pages_option : Option Number)
      → fetch_all_logs_with_client client query_from query_to pages_option ≢ err out_of_fuel
  unfolding fetch_all_logs_with_client
  fetch_all_logs_with_client_total query_from query_to pages_option =
      elim (parse_block_integer_cases invalid_from_block query_from) [
        | inl x ↦ other_error invalid_from_block (λ d. cc) (rw (x, ◌>>=◌) refl)
        | inr (from, x) ↦ elim (parse_optional_cases invalid_to_block query_to) [
          | inl x' ↦ other_error invalid_to_block (λ d. cc) (rw (x, ◌>>=◌) (rw (x', ◌>>=◌) refl))
          | inr (to_block, x') ↦ elim (Bool-cases (invalid_range from to_block)) [
            | inl bad ↦
                other_error invalid_block_range (λ d. cc)
                  (rw (x, ◌>>=◌) (rw (x', ◌>>=◌) (rw bad refl)))
            | inr good ↦ elim (parse_positive_cases pages_option default_max_pages) [
              | inl z ↦
                  other_error invalid_max_pages (λ d. cc)
                    (rw (x, ◌>>=◌) (rw (x', ◌>>=◌) (rw good (rw (z, ◌>>=◌) refl))))
              | inr (max_pages, z) ↦
                  let step : fetch_all_logs_with_client client query_from query_to pages_option
                      ≡ fetch_range client from to_block max_pages =
                    rw (x, ◌>>=◌) (rw (x', ◌>>=◌) (rw good (rw (z, ◌>>=◌) refl))) in
                  λ y.
                    range_fuel from to_block max_pages (in_range from to_block good) (sym step ∙ y)
            ]
          ]
        ]
      ]
