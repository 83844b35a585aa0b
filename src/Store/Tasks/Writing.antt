-- ===== src/Store/Tasks/Writing.antt =====
-- The writes of internal/store/mysql/task_repo.go: what each leaves in the tables.
use mathlib.Core.List.{append_assoc, append-nil}
use testovoe_bazis.Common.{
  ℕ, suc, ◌≡◌, sym, ap, ◌∙◌, ◌⊎◌, inl, inr, List, [], ◌∷◌, ◌++◌, map, pos, int_eq, ◌==◌,
  if◌then◌else◌, arith, ok, outcome-cases,
}
use testovoe_bazis.Domain.{Time, Task, TaskHistory}
use testovoe_bazis.Store.Database.{
  Database, Tables, Ending, committed, left_open, statement, spend, commit, task_row_error,
  history_row_error,
}
use testovoe_bazis.Store.Database.Steps.{exec-eq-ok}
use testovoe_bazis.Store.Tasks.{
  insert_history, add_history, insert_entries, update_task, set_task, write_changes,
}

-- Entries as the table keeps them: numbered from `n`, with the time of the write.
abbrev pub numbered : ℕ → Time → List TaskHistory → List TaskHistory
numbered n at [] = []
numbered n at (h ∷ hs) = record h { id = pos n; created_at = at } ∷ numbered (suc n) at hs

abbrev pub with_history : Tables → List TaskHistory → Tables
with_history t hs = record t { history = t.history ++ hs }

pub insert_history-eq-ok :
    (h : TaskHistory) (db : Database) {u : Unit {0}} {db' : Database}
    → insert_history h db ≡ (ok u, db')
    → db' ≡ add_history h (spend db)
unfolding insert_history
insert_history-eq-ok h db e = (exec-eq-ok (history_row_error h) (add_history h) db e).1

-- The loop stores all of its entries, in their order, or fails.
pub insert_entries-eq-ok :
    (at : Time) (hs : List TaskHistory) (db : Database) {u : Unit {0}} {db' : Database}
    → insert_entries at hs db ≡ (ok u, db')
    → db'.tables ≡ with_history db.tables (numbered db.next_history at hs)
unfolding insert_entries
insert_entries-eq-ok at [] db e = rw append-nil (sym (ap (λ p. p.1.tables) e))
insert_entries-eq-ok at (h ∷ hs) db {u} {db'} e =
    let row = record h { created_at = at } in
    elim (outcome-cases (insert_history row db)) [
      | inl (v, mid, first) ↦
          let later : insert_entries at hs mid ≡ (ok u, db') = ground arith in
          let stored : mid ≡ add_history row (spend db) = insert_history-eq-ok row db first in
          let rest = insert_entries-eq-ok at hs mid later in rest ∙ rw stored (simp append_assoc)
      | inr (f, mid, failed) ↦ absurd (ground arith)
    ]

pub update_task-eq-ok :
    (k : Task) (db : Database) {u : Unit {0}} {db' : Database}
    → update_task k db ≡ (ok u, db')
    → db' ≡ set_task k (spend db)
unfolding update_task
update_task-eq-ok k db e = (exec-eq-ok (task_row_error k) (set_task k) db e).1

pub commit-eq-ok :
    {A : Type 0} (a : A) (db : Database) {end : Ending A} {db' : Database}
    → commit a db ≡ (ok end, db')
    → (end ≡ committed a) × (db' ≡ spend db)
unfolding statement
commit-eq-ok a db e = ground arith

-- A stored row once the row of a task has been replaced: the row with the id of the task keeps its id,
-- team, author and time of creation and takes all else from the task; any other row stays.
abbrev pub replaced : Task → Task → Task
replaced task row =
    if row.id == task.id
    then record {
      id = row.id;
      team_id = row.team_id;
      title = task.title;
      description = task.description;
      status = task.status;
      assignee_id = task.assignee_id;
      created_by = row.created_by;
      created_at = row.created_at;
      updated_at = task.updated_at;
      completed_at = task.completed_at;
    }
    else row

-- The tables once a change has been written: the row is replaced, and the entries are appended.
abbrev pub changed : Tables → Task → List TaskHistory → Tables
changed t k hs = record t { tasks = map (replaced k) t.tasks; history = t.history ++ hs }

-- `Update` behind `buildHistory`, when it succeeds: no entry and the transaction left, or the row
-- and all entries written and committed.
pub write_changes-eq-ok :
    (at : Time) (k : Task) (hs : List TaskHistory) (db : Database) {end : Ending Task}
    {db' : Database}
    → write_changes at (k, hs) db ≡ (ok end, db')
    → ((hs ≡ []) × (end ≡ left_open k))
      ⊎ ((end ≡ committed (record k { updated_at = at }))
          × (db'.tables
              ≡ changed db.tables (record k { updated_at = at }) (numbered db.next_history at hs)))
unfolding write_changes
write_changes-eq-ok at k [] db e = inl (ground arith)
write_changes-eq-ok at k (h ∷ hs) db {end} {db'} e =
    let row = record k { updated_at = at } in
    elim (outcome-cases (update_task row db)) [
      | inl (v, mid, first) ↦ elim (outcome-cases (insert_entries at (h ∷ hs) mid)) [
        | inl (w, late, second) ↦
            let third : commit row late ≡ (ok end, db') = ground arith in
            let set : mid ≡ set_task row (spend db) = update_task-eq-ok row db first in
            let stored = insert_entries-eq-ok at (h ∷ hs) mid second in
            let (ended, spent) = commit-eq-ok row late third in
            inr (ended, ap (λ (d : Database). d.tables) spent ∙ stored ∙ rw set)
        | inr (f, late, failed) ↦ absurd (ground arith)
      ]
      | inr (f, mid, failed) ↦ absurd (ground arith)
    ]
