-- ===== src/Store/Tasks/Creating.antt =====
-- `TaskRepository.Create`: what has happened when it returns a task, and when it returns an error.
use testovoe_bazis.Common.{
  ◌≡◌, sym, ap, subst, ◌∙◌, ◌/◌, codes, text_eq, ◌==◌, if◌then◌else◌, inl, inr, none, some, [], ◌∷◌,
  ◌++◌, ℤ, pos, arith, Error, ok, err, outcome-cases,
}
use testovoe_bazis.Domain.{Task, TaskHistory}
use testovoe_bazis.Store.Database.{
  Database, Tables, Ending, committed, left_open, spend, now, task_row_error, commit, statement,
}
use testovoe_bazis.Store.Database.Steps.{transaction-eq-ok, transaction-err_tables}
use testovoe_bazis.Store.Tasks.{
  insert_task, add_task, insert_history, created_entry, stamped, create_body, create,
}
use testovoe_bazis.Store.Tasks.Writing.{insert_history-eq-ok, commit-eq-ok}

-- The row that is stored and returned: what was given, under the next id, created and changed at the
-- time of the clock in seconds, and completed then if it is `done`.
abbrev pub new_row : Database → Task → Task
new_row db k =
    let at = db.clock / 1000000000 in
    record {
      id = pos db.next_task;
      team_id = k.team_id;
      title = k.title;
      description = k.description;
      status = k.status;
      assignee_id = k.assignee_id;
      created_by = k.created_by;
      created_at = at;
      updated_at = at;
      completed_at = if k.status == codes "done" then some at else none;
    }

-- Its entry in the history: that its author created it, at that time.
abbrev pub new_entry : Database → Task → TaskHistory
new_entry db k = record {
  id = pos db.next_history;
  task_id = pos db.next_task;
  changed_by = k.created_by;
  action = codes "created";
  field = none;
  old_value = none;
  new_value = none;
  created_at = db.clock / 1000000000;
}

abbrev pub with_task : Tables → Task → TaskHistory → Tables
with_task t k h = record t { tasks = t.tasks ++ (k ∷ []); history = t.history ++ (h ∷ []) }

pub insert_task-eq-ok :
    (k : Task) (db : Database) {id : ℤ} {db' : Database}
    → insert_task k db ≡ (ok id, db')
    → (id ≡ pos db.next_task)
      × (task_row_error k db.tables ≡ none)
      × (db' ≡ add_task (record k { id = pos db.next_task }) (spend db))
unfolding insert_task statement
insert_task-eq-ok k db e = ground arith

pub create_body-eq-ok :
    (k : Task) (db : Database) {end : Ending Task} {db' : Database}
    → create_body k db ≡ (ok end, db')
    → (end ≡ committed (new_row db k))
      × (task_row_error (stamped (now db) k) db.tables ≡ none)
      × (db'.tables ≡ with_task db.tables (new_row db k) (new_entry db k))
unfolding create_body stamped
create_body-eq-ok k db {end} {db'} e =
    let row = stamped (now db) k in
    elim (outcome-cases (insert_task row db)) [
      | inl (id, mid, first) ↦
          let (fresh, fits, added) = insert_task-eq-ok row db first in
          let h = created_entry id k.created_by (now db) in
          elim (outcome-cases (insert_history h mid)) [
            | inl (u, late, second) ↦
                let third : commit (record row { id = id }) late ≡ (ok end, db') = ground arith in
                let (ended, spent) = commit-eq-ok (record row { id = id }) late third in
                let logged = insert_history-eq-ok h mid second in
                (ended ∙ ap (λ i. committed (record row { id = i })) fresh, fits, ground arith)
            | inr (f, late, failed) ↦ absurd (ground arith)
          ]
      | inr (f, mid, failed) ↦ absurd (ground arith)
    ]

-- A successful `Create` returns the given task under the next id, created and changed at the time of
-- the clock, and completed then if its status is `done`, else not; that row, and one entry `created`
-- of its author, are appended to the tables, and nothing else in them has changed. The row met the
-- constraints of its table.
pub create-eq-ok :
    (k : Task) (db : Database) (result : Task) (db' : Database)
    → create k db ≡ (ok result, db')
    → (result ≡ new_row db k)
      × (task_row_error result db.tables ≡ none)
      × (db'.tables ≡ with_task db.tables result (new_entry db k))
unfolding create task_row_error stamped
create-eq-ok k db result db' e = elim (transaction-eq-ok (create_body k) db e) [
  | inl kept ↦
      let (ended, fits, stored) = create_body-eq-ok k (spend db) kept in
      let returned : result ≡ new_row db k = ground arith in
      (
        returned,
        rw returned fits,
        subst (λ r. db'.tables ≡ with_task db.tables r (new_entry db k)) (sym returned) stored,
      )
  | inr (undone, same) ↦
      let after = (create_body k (spend db)).1 in
      let (ended, fits, stored) =
        create_body-eq-ok k (spend db) {end = left_open result} {db' = after}
          (λ i. (undone i, after)) in
      absurd (ground arith)
]

-- A `Create` that returns an error has changed no table.
pub create-err_tables :
    (k : Task) (db : Database) (e : Error) (db' : Database)
    → create k db ≡ (err e, db')
    → db'.tables ≡ db.tables
unfolding create
create-err_tables k db e db' h = transaction-err_tables (create_body k) db h
