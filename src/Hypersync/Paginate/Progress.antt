-- ===== src/Hypersync/Paginate/Progress.antt =====
-- One round of the loop of fetchAllLogsWithClient (src/hypersync/paginate.ts).
use ts_hsync_arb.Prelude.{
  ℕ, ◌≤◌, ◌<◌, ◌≡◌, ◌≢◌, refl, arith, ◌&&◌, Option, none, some, ltb, leb, ◌==◌, Bool-cases,
  Option-cases, inl, inr, if◌then◌else◌,
}
use ts_hsync_arb.Prelude.Results.{
  Error, out_of_fuel, cursor_stalled_without_height, cursor_regressed, cursor_stalled, Result, ok,
  err,
}
use ts_hsync_arb.Hypersync.Paginate.{
  Pagination, Round, finished, continued, finish, advance, clamp_next_block, resolve_target,
  terminal_bounded_cursor, is_none,
}

-- At most the target, where there is one.
abbrev pub Within : Option ℕ → ℕ → Type 0
Within none block = Unit
Within (some to_block) block = block ≤ to_block

clamp-Within : (to_block : Option ℕ) (next : ℕ) → Within to_block (clamp_next_block to_block next)
clamp-Within none next = tt
clamp-Within (some to_block) next = ground arith

clamp_above :
    (to_block : Option ℕ) (from next : ℕ)
    → Within to_block from
    → from ≤ next
    → from ≤ clamp_next_block to_block next
clamp_above none from next w h = h
clamp_above (some to_block) from next w h = ground (arith, w, h)

terminal_lem :
    (to_block : Option ℕ) (from next count end : ℕ)
    → Within to_block from
    → terminal_bounded_cursor to_block from next count ≡ some end
    → (from ≤ end) × Within to_block end
terminal_lem none from next count end w e = absurd cc
terminal_lem (some to_block) from next count end w e = ground (arith, w, e)

module _ {L G : Type 0} where
  -- The outcomes of `advance`.
  pub data AdvanceView (to_block : Option ℕ) (s : Pagination L G) (next count : ℕ) : Type 0 where
    fails :
        (thrown : Error)
        → thrown ≢ out_of_fuel
        → advance to_block s next count ≡ err thrown
        → AdvanceView to_block s next count
    stops :
        (end : ℕ)
        → s.from_block ≤ end
        → Within to_block end
        → advance to_block s next count ≡ ok (finished (finish s end))
        → AdvanceView to_block s next count
    moves :
        s.from_block < clamp_next_block to_block next
        → Within to_block (clamp_next_block to_block next)
        → advance to_block s next count
          ≡ ok (continued (record s { from_block = clamp_next_block to_block next }))
        → AdvanceView to_block s next count

  -- `advance` after its first three tests.
  abbrev moved : Option ℕ → Pagination L G → ℕ → Result (Round L G)
  moved to_block s n =
      let target = resolve_target to_block n s.archive_height in
      if n == s.from_block
      then (if leb target s.from_block then ok (finished (finish s n)) else err cursor_stalled)
      else if leb target n
      then ok (finished (finish s n))
      else ok (continued (record s { from_block = n }))

  pub advance_cases :
      (to_block : Option ℕ) (s : Pagination L G) (next count : ℕ)
      → Within to_block s.from_block
      → AdvanceView to_block s next count
  advance_cases to_block s next count w =
      let n = clamp_next_block to_block next in
      elim (Option-cases (terminal_bounded_cursor to_block s.from_block next count)) [
        | inr (end, e) ↦
            let (above, within) = terminal_lem to_block s.from_block next count end w e in
            stops end above within (rw (advance, e) refl)
        | inl e ↦
            elim (Bool-cases
              (is_none s.archive_height && is_none to_block && (n == s.from_block))) [
                | inl b ↦
                    fails cursor_stalled_without_height (λ x. cc) (rw (advance, e) (rw b refl))
                | inr b ↦ elim (Bool-cases (ltb next s.from_block)) [
                  | inl back ↦
                      fails cursor_regressed (λ x. cc) (rw (advance, e) (rw b (rw back refl)))
                  | inr ahead ↦
                      let above =
                        clamp_above to_block s.from_block next w (ground (arith, ahead)) in
                      let target = resolve_target to_block n s.archive_height in
                      let within = clamp-Within to_block next in
                      let step : advance to_block s next count ≡ moved to_block s n =
                        rw (advance, e) (rw b (rw ahead refl)) in
                      elim (Bool-cases (n == s.from_block)) [
                        | inl still ↦ elim (Bool-cases (leb target s.from_block)) [
                          | inl reached ↦
                              stops n above within (rw step (rw still (rw reached refl)))
                          | inr short ↦
                              fails cursor_stalled (λ x. cc) (rw step (rw still (rw short refl)))
                        ]
                        | inr on ↦ elim (Bool-cases (leb target n)) [
                          | inl reached ↦ stops n above within (rw step (rw on (rw reached refl)))
                          | inr short ↦
                              moves (ground (arith, above, on)) within
                                (rw step (rw on (rw short refl)))
                        ]
                      ]
                ]
              ]
      ]
