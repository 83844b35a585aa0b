-- ===== src/Tests/Reports.antt =====
-- The reports on the tables of the tests.
use testovoe_bazis.Common.{◌≡◌, ◌⊎◌, ◌↔◌, false, [], pos, All}
use testovoe_bazis.Domain.{Task}
use testovoe_bazis.Store.Database.{has_member}
use testovoe_bazis.Store.Reports.{invalid_assignees_rows, top_creators_rows}
use testovoe_bazis.Store.Reports.Assignees.{IsPlaced, invalid_assignees_rows-eq-nil_iff}
use testovoe_bazis.Store.Reports.Places.{recent}
use testovoe_bazis.Store.Reports.Listing.{IsShown}
use testovoe_bazis.Store.Reports.Creators.{IsRanked, top_creators_rows-IsRanked}
use testovoe_bazis.Tests.Data.{database}

invalid_assignees_rows-eq-nil_iff_example :
    (invalid_assignees_rows (pos 1) database.tables ≡ [])
    ↔ All
        (λ (k : Task).
          (has_member k.team_id (pos 1) database.tables ≡ false)
          ⊎ IsPlaced database.tables k k.assignee_id)
        database.tables.tasks
invalid_assignees_rows-eq-nil_iff_example =
    invalid_assignees_rows-eq-nil_iff database.tables (pos 1)

top_creators_rows-IsRanked_example :
    let t = database.tables in
    let whole = recent (pos 1) 7 t.members t.tasks in
    let rows = top_creators_rows (pos 1) 7 t in
    All (IsRanked (pos 1) t whole) rows
    × All (λ (k : Task). IsShown t whole rows k.team_id k.created_by) whole
top_creators_rows-IsRanked_example = top_creators_rows-IsRanked (pos 1) 7 database.tables
