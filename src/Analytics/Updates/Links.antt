-- ===== src/Analytics/Updates/Links.antt =====
-- The statement of analytics/src/db/db.rs that adds clicks to links.
use mathlib.Core.Path.{subst}
use k_url.Analytics.Updates.{add_row, matching, update_links}
use k_url.Common.Database.{LinkRow}
use k_url.Prelude.{
  Bool-cases, List, Option, Result-cases, String, [], arith, bind-steps, inl, inr, none, ok, some,
  ℕ, ◌∷◌, ◌≡◌, ◌≤◌,
}
use k_url.Prelude.Maps.{Map, lookup, ◌==◌, string_key, nat_key, pair_key}
use k_url.Prelude.Time.{DateTime}

-- A link after a statement: with more clicks, if anything, and otherwise as it was.
abbrev Gained : LinkRow → LinkRow → Type 0
Gained old new =
    (new.target ≡ old.target)
    × (new.expiration ≡ old.expiration)
    × (old.click_count ≤ new.click_count)

add_row-Gained :
    (row : Option (Option ℕ × Option DateTime)) (r r' : LinkRow)
    → add_row row r ≡ ok r'
    → Gained r r'
unfolding add_row
add_row-Gained none r r' h = ground (arith, h)
add_row-Gained (some (none, ts)) r r' h = absurd (ground (arith, h))
add_row-Gained (some (some delta, ts)) r r' h = ground (arith, h)

-- update_link_total_and_last_click keeps every link with its target and expiration and lowers no count,
-- whichever row the server takes where several match a link.
pub update_links-Gained :
    (pick : List (Option ℕ × Option DateTime) → Option (Option ℕ × Option DateTime))
    (rows : List (Option (String × Option ℕ) × Option DateTime)) (links links' : Map String LinkRow)
    (code : String) (r : LinkRow)
    → update_links pick rows links ≡ ok links'
    → lookup code links ≡ some r
    → (r' : LinkRow) × (lookup code links' ≡ some r') × Gained r r'
unfolding update_links lookup
update_links-Gained pick rows [] links' code r h there = absurd (ground arith)
update_links-Gained pick rows ((k, old) ∷ links) links' code r h there =
    let (new, added, rest) = bind-steps (add_row (pick (matching k rows)) old) _ h in
    elim (Result-cases (update_links pick rows links)) [
      | inr (e, failed_with) ↦ absurd (ground (arith, rest, failed_with))
      | inl (more, updated) ↦
          let shape : links' ≡ (k, new) ∷ more = ground (arith, rest, updated) in
          rw shape (elim (Bool-cases (k == code)) [
            | inl same ↦ (
              new,
              ground (arith, same),
              subst (λ x. Gained x new) {x = old} {y = r} (ground (arith, same, there))
                  (add_row-Gained (pick (matching k rows)) old new added),
            )
            | inr apart ↦
                let (r', at_code, gained) =
                  update_links-Gained pick rows links more code r updated
                    (ground (arith, apart, there)) in
                (r', ground (arith, apart, at_code), gained)
          ])
    ]
