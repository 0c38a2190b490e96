-- ===== src/Hypersync/Paginate/Rounds.antt =====
-- A round of the loop of fetchAllLogsWithClient (src/hypersync/paginate.ts), from the call of the client on.
use ts_hsync_arb.Prelude.{
  ℕ, ◌≤◌, ◌<◌, ◌≡◌, ◌≢◌, ◌⊎◌, refl, arith, Option, none, some, List, [], leb, length, Bool-cases,
  Option-cases, inl, inr,
}
use ts_hsync_arb.Prelude.Int.{pos, negsuc}
use ts_hsync_arb.Prelude.Number.{Number, whole, other, is_safe_integer}
use ts_hsync_arb.Prelude.Results.{
  Error, out_of_fuel, client_failed, max_pages_exceeded, invalid_archive_height, invalid_next_block,
  logs_not_an_array, ok, err, ◌>>=◌,
}
use ts_hsync_arb.Hypersync.Paginate.{
  Response, PageLogs, missing, not_an_array, logs, Pagination, finished, continued, finish, advance,
  add_page, read_page, round, clamp_next_block, parse_block_integer, parse_optional_block_integer,
  page_logs_from_response,
}
use ts_hsync_arb.Hypersync.Paginate.Progress.{Within, fails, stops, moves, advance_cases}

pub parse_block_integer_cases :
    (e : Error) (value : Number)
    → (parse_block_integer e value ≡ err e) ⊎ ((n : ℕ) × (parse_block_integer e value ≡ ok n))
parse_block_integer_cases e other = inl refl
parse_block_integer_cases e (whole (negsuc n)) = inl refl
parse_block_integer_cases e (whole (pos n)) = elim (Bool-cases (is_safe_integer (whole (pos n)))) [
  | inl b ↦ inr (n, rw (parse_block_integer, b) refl)
  | inr b ↦ inl (rw (parse_block_integer, b) refl)
]

pub parse_optional_cases :
    (e : Error) (value : Option Number)
    → (parse_optional_block_integer e value ≡ err e)
      ⊎ ((n : Option ℕ) × (parse_optional_block_integer e value ≡ ok n))
parse_optional_cases e none = inr (none, refl)
parse_optional_cases e (some value) = elim (parse_block_integer_cases e value) [
  | inl x ↦ inl (rw (x, ◌>>=◌) refl)
  | inr (n, x) ↦ inr (some n, rw (x, ◌>>=◌) refl)
]

page_cases :
    {L : Type 0} (page : PageLogs L)
    → (page_logs_from_response page ≡ err logs_not_an_array)
      ⊎ ((l : List L) × (page_logs_from_response page ≡ ok l))
page_cases missing = inr ([], refl)
page_cases not_an_array = inl refl
page_cases (logs l) = inr (l, refl)

module _ {L G : Type 0} (client : ℕ → ℕ → Option (Response L G)) where
  -- A page that was read in a round.
  pub record Reads (s : Pagination L G) (res : Response L G) (page : List L) (next : ℕ)
      : Type 0 where
    pub responds : client s.pages s.from_block ≡ some res
    pub has_page : page_logs_from_response res.page ≡ ok page
    pub has_next : parse_block_integer invalid_next_block res.next_block ≡ ok next

  -- The outcomes of a round.
  pub data RoundView (to_block : Option ℕ) (max_pages : ℕ) (s : Pagination L G) : Type 0 where
    throws :
        (thrown : Error)
        → thrown ≢ out_of_fuel
        → round client to_block max_pages s ≡ err thrown
        → RoundView to_block max_pages s
    ends :
        (res : Response L G) (page : List L) (next : ℕ) (height : Option ℕ) (end : ℕ)
        → s.pages < max_pages
        → Reads s res page next
        → s.from_block ≤ end
        → Within to_block end
        → round client to_block max_pages s
          ≡ ok (finished (finish (add_page s res height page) end))
        → RoundView to_block max_pages s
    goes_on :
        (res : Response L G) (page : List L) (next : ℕ) (height : Option ℕ)
        → s.pages < max_pages
        → Reads s res page next
        → s.from_block < clamp_next_block to_block next
        → Within to_block (clamp_next_block to_block next)
        → round client to_block max_pages s
          ≡ ok (
              continued (record (add_page s res height page) {
                from_block = clamp_next_block to_block next;
              }))
        → RoundView to_block max_pages s

  read_cases :
      (to_block : Option ℕ) (max_pages : ℕ) (s : Pagination L G) (res : Response L G)
      → Within to_block s.from_block
      → s.pages < max_pages
      → client s.pages s.from_block ≡ some res
      → round client to_block max_pages s ≡ read_page to_block s res
      → RoundView to_block max_pages s
  read_cases to_block max_pages s res w room responds e =
      elim (parse_optional_cases invalid_archive_height res.archive_height) [
        | inl x ↦ throws invalid_archive_height (λ x. cc) (rw e (rw (x, ◌>>=◌) refl))
        | inr (height, x) ↦ elim (page_cases res.page) [
          | inl y ↦ throws logs_not_an_array (λ x. cc) (rw e (rw (x, ◌>>=◌) (rw (y, ◌>>=◌) refl)))
          | inr (page, y) ↦ elim (parse_block_integer_cases invalid_next_block res.next_block) [
            | inl z ↦
                throws invalid_next_block (λ x. cc)
                  (rw e (rw (x, ◌>>=◌) (rw (y, ◌>>=◌) (rw (z, ◌>>=◌) refl))))
            | inr (next, z) ↦
                let reads : Reads s res page next = record {
                  responds = responds;
                  has_page = y;
                  has_next = z;
                } in
                let s' = add_page s res height page in
                let step : round client to_block max_pages s
                    ≡ advance to_block s' next (length page) =
                  rw e (rw (x, ◌>>=◌) (rw (y, ◌>>=◌) (rw (z, ◌>>=◌) refl))) in
                elim (advance_cases to_block s' next (length page) w) [
                  | fails thrown h a ↦ throws thrown h (rw step a)
                  | stops end above within a ↦
                      ends res page next height end room reads above within (rw step a)
                  | moves above within a ↦
                      goes_on res page next height room reads above within (rw step a)
                ]
          ]
        ]
      ]

  pub round_cases :
      (to_block : Option ℕ) (max_pages : ℕ) (s : Pagination L G)
      → Within to_block s.from_block
      → RoundView to_block max_pages s
  round_cases to_block max_pages s w = elim (Bool-cases (leb max_pages s.pages)) [
    | inl full ↦ throws max_pages_exceeded (λ x. cc) (rw (round, full) refl)
    | inr room ↦ elim (Option-cases (client s.pages s.from_block)) [
      | inl rejects ↦ throws client_failed (λ x. cc) (rw (round, room) (rw rejects refl))
      | inr (res, responds) ↦
          read_cases to_block max_pages s res w (ground (arith, room)) responds
            (rw (round, room) (rw responds refl))
    ]
  ]
