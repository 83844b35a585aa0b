-- ===== src/Store/Tasks.antt =====
-- internal/store/mysql/task_repo.go: the repository of tasks and of their history.
pub mod Writing
pub mod Updating
pub mod Creating
pub mod Reading
pub mod Completion
pub mod Counting
pub mod Numbering
pub mod Elsewhere
use testovoe_bazis.Common.{
  ℕ, suc, ◌&&◌, ◌||◌, not, Bool, true, false, Option, none, some, List, [], ◌∷◌, ◌++◌, map, ℤ, pos,
  int_eq, text_eq, ◌==◌, Text, codes, length, sub64, mul64, select, find_first, if◌then◌else◌,
  Error, wrap, plain, Action, Result, ok, err, pure, gets, on_error, check, modify, ◌>>=◌, ◌>>◌,
}
use testovoe_bazis.Domain.{
  Time, Task, TaskStatus, TaskHistory, TaskFilters, TaskPatch, status_done, normalize,
}
use testovoe_bazis.Store.Database.{
  Database, Tables, statement, query, query_row, exec, or_not_found, now, Ending, committed,
  left_open, transaction, commit, order_desc, select_page, task_row_error, history_row_error,
}
use testovoe_bazis.Store.Audit.{build_history}

abbrev pub find_task : ℤ → Tables → Option Task
find_task id t = find_first (λ (k : Task). k.id == id) t.tasks

-- `TaskRepository.Get`
unfoldable pub get : ℤ → Action Database Task
get id = on_error (query_row (find_task id)) (or_not_found (plain "select task"))

abbrev assignee_matches : Option ℤ → Option ℤ → Bool
assignee_matches none assignee = true
assignee_matches (some wanted) none = false
assignee_matches (some wanted) (some id) = id == wanted

-- The WHERE clause that `List` puts together.
unfoldable pub matches : TaskFilters → Task → Bool
matches f k =
    k.team_id == f.team_id
    && ((f.status == [] || k.status == f.status) && assignee_matches f.assignee_id k.assignee_id)

abbrev pub matching : TaskFilters → Tables → List Task
matching f t = select (matches f) t.tasks

abbrev pub task_id : Task → ℤ
task_id k = k.id

-- `TaskRepository.List`: a count, then a page.
unfoldable pub list : TaskFilters → Action Database (List Task × ℤ)
list asked = do
  let f = normalize asked
  total ← on_error (query (λ t. length (matching f t))) (wrap (plain "count tasks"))
  rows ←
      on_error
        (select_page f.per_page (mul64 (sub64 f.page (pos 1)) f.per_page)
          (λ t. order_desc task_id (matching f t)))
        (wrap (plain "select tasks"))
  pure (rows, pos total)

abbrev add_task : Task → Database → Database
add_task k db = record db {
  tables = record (db.tables) { tasks = db.tables.tasks ++ (k ∷ []) };
  next_task = suc db.next_task;
}

-- INSERT INTO tasks: the row gets the next id, which `LastInsertId` returns.
unfoldable pub insert_task : Task → Action Database ℤ
insert_task k = do
  id ← gets (λ db. pos db.next_task)
  exec (task_row_error k) (add_task (record k { id = id }))
  pure id

abbrev add_history : TaskHistory → Database → Database
add_history h db = record db {
  tables = record (db.tables) {
    history = db.tables.history ++ (record h { id = pos db.next_history } ∷ []);
  };
  next_history = suc db.next_history;
}

-- INSERT INTO task_history
unfoldable pub insert_history : TaskHistory → Action Database (Unit {0})
insert_history h = exec (history_row_error h) (add_history h)

abbrev pub created_entry : ℤ → ℤ → Time → TaskHistory
created_entry task actor_id at = record {
  id = pos 0;
  task_id = task;
  changed_by = actor_id;
  action = codes "created";
  field = none;
  old_value = none;
  new_value = none;
  created_at = at;
}

-- The times that `Create` sets.
unfoldable pub stamped : Time → Task → Task
stamped at k = record k {
  created_at = at;
  updated_at = at;
  completed_at = if k.status == status_done then some at else none;
}

-- The part of `Create` inside its transaction.
unfoldable pub create_body : Task → Action Database (Ending Task)
create_body task = do
  at ← gets now
  id ← on_error (insert_task (stamped at task)) (wrap (plain "insert task"))
  on_error (insert_history (created_entry id task.created_by at))
      (wrap (plain "insert task history"))
  commit (record (stamped at task) { id = id })

-- `TaskRepository.Create`
unfoldable pub create : Task → Action Database Task
create task = transaction (create_body task)

-- UPDATE tasks SET ... WHERE id = ?
abbrev pub overwrite : Task → Task → Task
overwrite new old =
    if old.id == new.id
    then record old {
      title = new.title;
      description = new.description;
      status = new.status;
      assignee_id = new.assignee_id;
      completed_at = new.completed_at;
      updated_at = new.updated_at;
    }
    else old

abbrev set_task : Task → Database → Database
set_task k db = record db {
  tables = record (db.tables) { tasks = map (overwrite k) db.tables.tasks };
}

unfoldable pub update_task : Task → Action Database (Unit {0})
update_task k = exec (task_row_error k) (set_task k)

-- The loop over the entries; each is stored with the time of the update.
unfoldable pub insert_entries : Time → List TaskHistory → Action Database (Unit {0})
insert_entries at [] = pure tt
insert_entries at (h ∷ hs) =
    on_error (insert_history (record h { created_at = at })) (wrap (plain "insert task history"))
    >> insert_entries at hs

-- `Update` behind `buildHistory`: without an entry the transaction is left, and undone.
unfoldable pub write_changes : Time → Task × List TaskHistory → Action Database (Ending Task)
write_changes at (task, []) = pure (left_open task)
write_changes at (task, h ∷ hs) = do
  let k = record task { updated_at = at }
  on_error (update_task k) (wrap (plain "update task"))
  insert_entries at (h ∷ hs)
  commit k

-- SELECT ... FOR UPDATE
unfoldable pub lock_task : ℤ → Action Database Task
lock_task id = on_error (query_row (find_task id)) (or_not_found (plain "select task for update"))

-- The part of `Update` inside its transaction.
unfoldable pub update_body :
    ℤ → TaskPatch → ℤ → (Task → Option Error) → Action Database (Ending Task)
update_body id patch actor_id authorize = do
  task ← lock_task id
  check (authorize task)
  at ← gets now
  write_changes at (build_history task patch actor_id at)

-- `TaskRepository.Update`
unfoldable pub update : ℤ → TaskPatch → ℤ → (Task → Option Error) → Action Database Task
update id patch actor_id authorize = transaction (update_body id patch actor_id authorize)

abbrev pub history_id : TaskHistory → ℤ
history_id h = h.id

abbrev pub history_of : ℤ → Tables → List TaskHistory
history_of id t = select (λ (h : TaskHistory). h.task_id == id) t.history

-- `TaskRepository.History`
unfoldable pub history : ℤ → ℤ → ℤ → Action Database (List TaskHistory)
history id limit offset =
    on_error (select_page limit offset (λ t. order_desc history_id (history_of id t)))
      (wrap (plain "select task history"))
