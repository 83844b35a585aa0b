-- ===== src/Tests/Rows.antt =====
-- The repositories, at one database.
use testovoe_bazis.Common.{◌≡◌, refl, Option, none, some, [], ◌∷◌, pos, arith, All, Error, foreign}
use testovoe_bazis.Domain.{Task}
use testovoe_bazis.Store.Database.{Database, task_row_error}
use testovoe_bazis.Store.Audit.{build_history}
use testovoe_bazis.Store.Audit.Effect.{patched, differences, build_history_lem}
use testovoe_bazis.Store.Audit.Columns.{FitsColumns, IsStorable, build_history-FitsColumns}
use testovoe_bazis.Store.Tasks as TaskRepository
use testovoe_bazis.Store.Tasks.Creating.{new_row, new_entry, with_task, create-eq-ok}
use testovoe_bazis.Store.Tasks.Updating.{Updated, update-Updated}
use testovoe_bazis.Store.Tasks.Completion.{IsConsistent, update-IsConsistent, create-IsConsistent}
use testovoe_bazis.Tests.Data.{plan, done_plan, database, done_patch, task_runs}

abbrev anyone : Task → Option Error
anyone _ = none

abbrev done_database : Database
done_database = (TaskRepository.update (pos 1) done_patch (pos 2) anyone database).1

update-Updated_example : Updated (pos 1) done_patch (pos 2) anyone database done_database done_plan
unfolding task_runs
update-Updated_example =
    update-Updated (pos 1) done_patch (pos 2) anyone database done_plan done_database refl

abbrev created_plan : Task
created_plan = record plan { id = pos 2; created_at = 7; updated_at = 7 }

abbrev created_database : Database
created_database = (TaskRepository.create plan database).1

create-eq-ok_example :
    (created_plan ≡ new_row database plan)
    × (task_row_error created_plan database.tables ≡ none)
    × (created_database.tables ≡ with_task database.tables created_plan (new_entry database plan))
unfolding task_runs
create-eq-ok_example = create-eq-ok plan database created_plan created_database refl

abbrev lost_database : Database
lost_database =
    (TaskRepository.create plan
      (record database { faults = none ∷ none ∷ some (foreign 1) ∷ [] })).1

build_history_lem_example :
    build_history plan done_patch (pos 2) 7
    ≡ (patched plan done_patch 7, differences (pos 2) (patched plan done_patch 7) plan)
build_history_lem_example = build_history_lem plan done_patch (pos 2) 7

plan-IsStorable : IsStorable plan
unfolding task_runs
plan-IsStorable = record {
  title_max = omega arith;
  status_known = refl;
  assignee_64 = (omega arith, omega arith);
}

done_plan-IsStorable : IsStorable (build_history plan done_patch (pos 2) 7).0
unfolding task_runs
done_plan-IsStorable = record {
  title_max = omega arith;
  status_known = refl;
  assignee_64 = (omega arith, omega arith);
}

build_history-FitsColumns_example : All FitsColumns (build_history plan done_patch (pos 2) 7).1
build_history-FitsColumns_example =
    build_history-FitsColumns plan done_patch (pos 2) 7 plan-IsStorable done_plan-IsStorable

database-IsConsistent : IsConsistent database.tables
unfolding task_runs
database-IsConsistent = (refl, tt)

update-IsConsistent_example :
    IsConsistent (TaskRepository.update (pos 1) done_patch (pos 2) anyone database).1.tables
update-IsConsistent_example =
    update-IsConsistent (pos 1) done_patch (pos 2) anyone database database-IsConsistent

create-IsConsistent_example : IsConsistent (TaskRepository.create done_plan database).1.tables
create-IsConsistent_example = create-IsConsistent done_plan database database-IsConsistent
