-- ===== src/Hypersync/Paginate.antt =====
-- src/hypersync/paginate.ts: fetchAllLogsWithClient. The HyperSync client is a parameter: from the number of
-- the call and the cursor of the query it gives the response, or `none` where it rejects. A value of the
-- query or of a response enters as Number(value); the fields that the client alone reads, and the
-- callback for progress, are left out.
pub mod Progress
pub mod Rounds
pub mod Pages
pub mod Calls
pub mod Arrival
use ts_hsync_arb.Prelude.{
  ℕ, zero, suc, ◌+◌, ◌≤◌, ◌<◌, Bool, true, false, not, ◌&&◌, ◌||◌, Option, none, some, List, [],
  ◌∷◌, ◌++◌, ltb, leb, ◌==◌, length, if◌then◌else◌,
}
use ts_hsync_arb.Prelude.Int.{ℤ, pos, negsuc, leb_ℤ}
use ts_hsync_arb.Prelude.Number.{Number, whole, other, is_safe_integer}
use ts_hsync_arb.Prelude.Results.{
  Error, out_of_fuel, invalid_from_block, invalid_to_block, invalid_block_range, invalid_max_pages,
  max_pages_exceeded, client_failed, invalid_archive_height, logs_not_an_array, invalid_next_block,
  cursor_stalled_without_height, cursor_regressed, cursor_stalled, Result, ok, err, throw_if, ◌>>=◌,
  ◌>>◌,
}

-- `data.logs` of a response.
pub data PageLogs (L : Type 0) : Type 0 where
  missing : PageLogs L
  not_an_array : PageLogs L
  logs : List L → PageLogs L

pub record Response (L G : Type 0) : Type 0 where
  pub archive_height : Option Number
  pub rollback_guard : Option G
  pub page : PageLogs L
  pub next_block : Number

pub record PageResult (L G : Type 0) : Type 0 where
  pub all_logs : List L
  pub archive_height : Option ℕ
  pub rollback_guard : Option G
  pub next_block : ℕ
  pub pages : ℕ

-- The variables of the loop at the start of a round.
pub record Pagination (L G : Type 0) : Type 0 where
  pub from_block : ℕ
  pub all_logs : List L
  pub archive_height : Option ℕ
  pub rollback_guard : Option G
  pub pages : ℕ

-- How a round ends: at `break`, or with the variables of the next round.
pub data Round (L G : Type 0) : Type 0 where
  finished : PageResult L G → Round L G
  continued : Pagination L G → Round L G

-- parseBlockInteger, with the error for its name.
abbrev pub parse_block_integer : Error → Number → Result ℕ
parse_block_integer e other = err e
parse_block_integer e (whole (negsuc n)) = err e
parse_block_integer e (whole (pos n)) = if is_safe_integer (whole (pos n)) then ok n else err e

abbrev pub parse_optional_block_integer : Error → Option Number → Result (Option ℕ)
parse_optional_block_integer e none = ok none
parse_optional_block_integer e (some value) = parse_block_integer e value >>= λ n. ok (some n)

abbrev pub parse_positive_integer : Error → Option Number → ℕ → Result ℕ
parse_positive_integer e none fallback = ok fallback
parse_positive_integer e (some other) fallback = err e
parse_positive_integer e (some (whole (negsuc n))) fallback = err e
parse_positive_integer e (some (whole (pos n))) fallback =
    if not (is_safe_integer (whole (pos n))) || n == 0 then err e else ok n

abbrev pub default_max_pages : ℕ
default_max_pages = 10000

-- resolvePaginationTarget
abbrev pub resolve_target : Option ℕ → ℕ → Option ℕ → ℕ
resolve_target (some to_block) next_block archive_height = to_block
resolve_target none next_block (some archive_height) = archive_height
resolve_target none next_block none = next_block

-- clampNextBlockToExclusiveTarget
abbrev pub clamp_next_block : Option ℕ → ℕ → ℕ
clamp_next_block none next_block = next_block
clamp_next_block (some to_block) next_block =
    if ltb to_block next_block then to_block else next_block

-- isTerminalBoundedCursor, with the target where it holds.
abbrev pub terminal_bounded_cursor : Option ℕ → ℕ → ℕ → ℕ → Option ℕ
terminal_bounded_cursor none page_from next_block log_count = none
terminal_bounded_cursor (some to_block) page_from next_block log_count =
    if (next_block == page_from) && (log_count == 0) && leb to_block (page_from + 1)
    then some to_block
    else none

abbrev pub is_none {ℓ} : {A : Type ℓ} → Option A → Bool
is_none none = true
is_none (some a) = false

-- `b ?? a` where the response has a new value.
abbrev pub latest {ℓ} : {A : Type ℓ} → Option A → Option A → Option A
latest none old = old
latest (some new) old = some new

abbrev pub page_logs_from_response : {L : Type 0} → PageLogs L → Result (List L)
page_logs_from_response missing = ok []
page_logs_from_response not_an_array = err logs_not_an_array
page_logs_from_response (logs page) = ok page

-- The test of the range: the target is before the start.
abbrev pub invalid_range : ℕ → Option ℕ → Bool
invalid_range from_block none = false
invalid_range from_block (some to_block) = ltb to_block from_block

abbrev pub empty_range : ℕ → Option ℕ → Bool
empty_range from_block none = false
empty_range from_block (some to_block) = to_block == from_block

module _ {L G : Type 0} where
  -- The variables before the loop.
  abbrev pub initial : ℕ → Pagination L G
  initial from_block = record {
    from_block = from_block;
    all_logs = [];
    archive_height = none;
    rollback_guard = none;
    pages = 0;
  }

  abbrev pub finish : Pagination L G → ℕ → PageResult L G
  finish s next_block = record {
    all_logs = s.all_logs;
    archive_height = s.archive_height;
    rollback_guard = s.rollback_guard;
    next_block = next_block;
    pages = s.pages;
  }

  -- The rest of a round, from the test for a terminal cursor on: `s` has the variables after the page is
  -- added, with the cursor of the page.
  abbrev pub advance : Option ℕ → Pagination L G → ℕ → ℕ → Result (Round L G)
  advance to_block s response_next log_count =
      let next_block = clamp_next_block to_block response_next in
      let target = resolve_target to_block next_block s.archive_height in
      elim (terminal_bounded_cursor to_block s.from_block response_next log_count) [
        | some end ↦ ok (finished (finish s end))
        | none ↦
            if is_none s.archive_height && is_none to_block && (next_block == s.from_block)
            then err cursor_stalled_without_height
            else if ltb response_next s.from_block
            then err cursor_regressed
            else if next_block == s.from_block
            then (if leb target s.from_block
                then ok (finished (finish s next_block))
                else err cursor_stalled)
            else if leb target next_block
            then ok (finished (finish s next_block))
            else ok (continued (record s { from_block = next_block }))
      ]

  -- The variables after a page is added.
  abbrev pub add_page : Pagination L G → Response L G → Option ℕ → List L → Pagination L G
  add_page s res archive_height page = record {
    from_block = s.from_block;
    all_logs = s.all_logs ++ page;
    archive_height = latest archive_height s.archive_height;
    rollback_guard = latest res.rollback_guard s.rollback_guard;
    pages = suc s.pages;
  }

  -- A round once the response is there.
  abbrev pub read_page : Option ℕ → Pagination L G → Response L G → Result (Round L G)
  read_page to_block s res = do
    archive_height ← parse_optional_block_integer invalid_archive_height res.archive_height
    page ← page_logs_from_response res.page
    response_next ← parse_block_integer invalid_next_block res.next_block
    advance to_block (add_page s res archive_height page) response_next (length page)

module _ {L G : Type 0} (client : ℕ → ℕ → Option (Response L G)) where
  abbrev pub round : Option ℕ → ℕ → Pagination L G → Result (Round L G)
  round to_block max_pages s =
      if leb max_pages s.pages
      then err max_pages_exceeded
      else (elim (client s.pages s.from_block) [
        | none ↦ err client_failed
        | some res ↦ read_page to_block s res
      ])

  -- The `while (true)`, on fuel.
  unfoldable pub page_loop : ℕ → Option ℕ → ℕ → Pagination L G → Result (PageResult L G)
  page_loop zero to_block max_pages s = err out_of_fuel
  page_loop (suc fuel) to_block max_pages s = elim (round to_block max_pages s) [
    | err thrown ↦ err thrown
    | ok r ↦ elim r [
      | finished result ↦ ok result
      | continued s' ↦ page_loop fuel to_block max_pages s'
    ]
  ]

  -- fetchAllLogsWithClient once its arguments are read.
  abbrev pub fetch_range : ℕ → Option ℕ → ℕ → Result (PageResult L G)
  fetch_range from_block to_block max_pages =
      if empty_range from_block to_block
      then ok (finish (initial from_block) from_block)
      else page_loop (suc max_pages) to_block max_pages (initial from_block)

  unfoldable pub fetch_all_logs_with_client :
      Number → Option Number → Option Number → Result (PageResult L G)
  fetch_all_logs_with_client query_from query_to pages_option = do
    from_block ← parse_block_integer invalid_from_block query_from
    to_block ← parse_optional_block_integer invalid_to_block query_to
    throw_if (invalid_range from_block to_block) invalid_block_range
    max_pages ← parse_positive_integer invalid_max_pages pages_option default_max_pages
    fetch_range from_block to_block max_pages
