-- ===== src/Tests/Hypersync.antt =====
-- src/hypersync/paginate.ts at a concrete client.
use ts_hsync_arb.Prelude.{ℕ, ◌+◌, ◌≡◌, ◌≢◌, ◌≤◌, ◌<◌, refl, arith, Option, none, some, [], ◌∷◌}
use ts_hsync_arb.Prelude.Int.{pos}
use ts_hsync_arb.Prelude.Number.{whole}
use ts_hsync_arb.Prelude.Results.{ok, err, out_of_fuel, invalid_next_block}
use ts_hsync_arb.Hypersync.Paginate.{
  Response, logs, PageResult, parse_block_integer, fetch_all_logs_with_client, page_loop,
}
use ts_hsync_arb.Hypersync.Paginate.Pages.{gather}
use ts_hsync_arb.Hypersync.Paginate.Calls.{
  Parsed, fetch_all_logs_with_client_lem, fetch_all_logs_with_client_total,
}
use ts_hsync_arb.Hypersync.Paginate.Arrival.{MovesOn, fetch_all_logs_with_client_arrives}

-- Pages of three blocks with one log, the first block.
abbrev page_of : ℕ → Response ℕ ℕ
page_of cursor = record {
  archive_height = none;
  rollback_guard = none;
  page = logs (cursor ∷ []);
  next_block = whole (pos (cursor + 3));
}

abbrev client : ℕ → ℕ → Option (Response ℕ ℕ)
client call cursor = some (page_of cursor)

abbrev zero_to_seven : Parsed client (whole (pos 0)) (some (whole (pos 7))) none
zero_to_seven = record {
  from_block = 0;
  to_block = some 7;
  max_pages = 10000;
  from_parsed = refl;
  to_parsed = refl;
  pages_parsed = refl;
}

abbrev seven_blocks : PageResult ℕ ℕ
seven_blocks = record {
  all_logs = 0 ∷ 3 ∷ 6 ∷ [];
  archive_height = none;
  rollback_guard = none;
  next_block = 7;
  pages = 3;
}

fetch_all_logs_with_client_lem_example :
    (3 ≤ 10000) × (0 ≤ 7) × (7 ≤ 7) × (0 ∷ 3 ∷ 6 ∷ [] ≡ gather client (some 7) 3 0 0)
unfolding fetch_all_logs_with_client page_loop
fetch_all_logs_with_client_lem_example =
    fetch_all_logs_with_client_lem client (whole (pos 0)) (some (whole (pos 7))) none seven_blocks
      zero_to_seven refl

fetch_all_logs_with_client_total_example :
    fetch_all_logs_with_client client (whole (pos 0)) (some (whole (pos 7))) none ≢ err out_of_fuel
fetch_all_logs_with_client_total_example =
    fetch_all_logs_with_client_total client (whole (pos 0)) (some (whole (pos 7))) none

next_read :
    (cursor : ℕ)
    → cursor < 7
    → parse_block_integer invalid_next_block (whole (pos (cursor + 3))) ≡ ok (cursor + 3)
next_read cursor h = ground arith

answers :
    (call cursor : ℕ)
    → cursor < 7
    → (res : Response ℕ ℕ) × (client call cursor ≡ some res) × MovesOn res cursor
answers call cursor h = (
  page_of cursor,
  refl,
  record {
    height = none;
    page = cursor ∷ [];
    next_cursor = cursor + 3;
    has_height = refl;
    has_page = refl;
    has_next = next_read cursor h;
    ahead = omega arith;
  },
)

fetch_all_logs_with_client_arrives_example :
    (r : PageResult ℕ ℕ) × (fetch_all_logs_with_client client
        (whole (pos 0))
        (some (whole (pos 7)))
        none
      ≡ ok r)
    × (r.next_block ≡ 7)
fetch_all_logs_with_client_arrives_example =
    fetch_all_logs_with_client_arrives client 7 10000 answers (whole (pos 0)) (some (whole (pos 7)))
      none zero_to_seven refl refl (omega arith) (omega arith)
