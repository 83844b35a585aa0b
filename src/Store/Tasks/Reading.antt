-- ===== src/Store/Tasks/Reading.antt =====
-- The reads of internal/store/mysql/task_repo.go: what a successful one says of the tables.
use testovoe_bazis.Common.{◌≡◌, some, ℤ, pos, List, length, mul64, sub64, ok, on_error-eq-ok, arith}
use testovoe_bazis.Domain.{Task, TaskFilters, normalize}
use testovoe_bazis.Store.Database.{
  Database, Tables, spend, query_row, order_desc, page_of_rows, select_page, statement,
}
use testovoe_bazis.Store.Database.Steps.{query_row-eq-ok}
use testovoe_bazis.Store.Tasks.{find_task, get, list, matching, task_id}

pub get-eq-ok :
    (id : ℤ) (db : Database) {t : Task} {db' : Database}
    → get id db ≡ (ok t, db')
    → (find_task id db.tables ≡ some t) × (db' ≡ spend db)
unfolding get
get-eq-ok id db e =
    query_row-eq-ok (find_task id) db (on_error-eq-ok (query_row (find_task id)) _ db e)

-- What `List` answers of the tables: the page of the rows that match, and how many there are.
abbrev pub listed : TaskFilters → Tables → List Task × ℤ
listed asked t =
    let f = normalize asked in
    (
      page_of_rows f.per_page (mul64 (sub64 f.page (pos 1)) f.per_page)
          (order_desc task_id (matching f t)),
      pos (length (matching f t)),
    )

pub list-eq-ok :
    (f : TaskFilters) (db : Database) {found : List Task × ℤ} {db' : Database}
    → list f db ≡ (ok found, db')
    → (found ≡ listed f db.tables) × (db' ≡ spend (spend db))
unfolding list select_page statement
list-eq-ok f db h = ground arith

-- However it ends, `List` changes nothing.
pub list-tables :
    (f : TaskFilters) (db : Database)
    → ((list f db).1.tables ≡ db.tables) × ((list f db).1.next_task ≡ db.next_task)
unfolding list select_page statement
list-tables f db = ground arith
