-- ===== src/Store/Tasks/Counting.antt =====
-- The counter of task ids never goes back, whatever a repository call comes to.
use testovoe_bazis.Common.{
  ℕ, ◌≤◌, Option, none, some, List, [], ◌∷◌, ℤ, arith, Error, Result, ok, err, Action, pure, gets,
  check, on_error, wrap, plain, ◌>>=◌, ◌>>◌,
}
use testovoe_bazis.Domain.{Task, TaskHistory, TaskPatch, Time}
use testovoe_bazis.Store.Database.{
  Database, Tables, Ending, committed, left_open, spend, statement, query_row, exec, now,
  transaction, commit, end_transaction, task_row_error, history_row_error, or_not_found,
}
use testovoe_bazis.Store.Audit.{build_history}
use testovoe_bazis.Store.Tasks.{
  find_task, insert_task, insert_history, add_history, created_entry, stamped, create_body, create,
  set_task, update_task, insert_entries, write_changes, lock_task, update_body, update,
}

-- The counter of tasks never goes back.
unfoldable pub Grows : {A : Type 0} → Action Database A → Type 0
Grows m = (db : Database) → db.next_task ≤ (m db).1.next_task

-- What an action and the next one come to, from the outcome of the first.
abbrev after : {A B : Type 0} → (A → Action Database B) → Result A × Database → Result B × Database
after f p = let (r, v) = p in elim r [ ok a ↦ f a v | err e ↦ (err e, v) ]

abbrev mapped : {A : Type 0} → (Error → Error) → Result A × Database → Result A × Database
mapped f p = let (r, v) = p in elim r [ ok a ↦ (ok a, v) | err e ↦ (err (f e), v) ]

after-le :
    {A B : Type 0} (n : ℕ) (f : A → Action Database B) (p : Result A × Database)
    → ((a : A) → Grows (f a))
    → n ≤ p.1.next_task
    → n ≤ (after f p).1.next_task
unfolding Grows
after-le n f (ok a, v) h le = let two = h a v in omega (arith, two, le)
after-le n f (err e, v) h le = le

mapped-le :
    {A : Type 0} (n : ℕ) (f : Error → Error) (p : Result A × Database)
    → n ≤ p.1.next_task
    → n ≤ (mapped f p).1.next_task
mapped-le n f (ok a, v) le = le
mapped-le n f (err e, v) le = le

Grows->>= :
    {A B : Type 0} (m : Action Database A) (f : A → Action Database B)
    → Grows m
    → ((a : A) → Grows (f a))
    → Grows (m >>= f)
unfolding Grows
Grows->>= m f g h db = after-le db.next_task f (m db) h (g db)

Grows-on_error :
    {A : Type 0} (m : Action Database A) (f : Error → Error) → Grows m → Grows (on_error m f)
unfolding Grows
Grows-on_error m f g db = mapped-le db.next_task f (m db) (g db)

Grows-pure : {A : Type 0} (a : A) → Grows (pure a)
unfolding Grows
Grows-pure a db = omega arith

Grows-gets : {A : Type 0} (f : Database → A) → Grows (gets f)
unfolding Grows
Grows-gets f db = omega arith

Grows-check : (o : Option Error) → Grows (check o)
unfolding Grows
Grows-check none db = omega arith
Grows-check (some e) db = omega arith

Grows-statement : Grows statement
unfolding Grows statement
Grows-statement db = ground arith

Grows-query_row : {A : Type 0} (f : Tables → Option A) → Grows (query_row f)
unfolding Grows statement
Grows-query_row f db = ground arith

Grows-exec :
    (refused : Tables → Option Error) (change : Database → Database)
    → ((db : Database) → db.next_task ≤ (change db).next_task)
    → Grows (exec refused change)
unfolding Grows statement
Grows-exec refused change h db = let one = h (spend db) in ground arith

end_transaction-le :
    {A : Type 0} (n : ℕ) (before : Database) (p : Result (Ending A) × Database)
    → n ≤ p.1.next_task
    → n ≤ (end_transaction before p).1.next_task
end_transaction-le n before (ok (committed a), v) h = h
end_transaction-le n before (ok (left_open a), v) h = h
end_transaction-le n before (err e, v) h = h

Grows-transaction :
    {A : Type 0} (body : Action Database (Ending A)) → Grows body → Grows (transaction body)
unfolding Grows
Grows-transaction body g db = end_transaction-le db.next_task db _ (
    Grows->>= (on_error statement (wrap (plain "begin tx"))) (λ _. body)
      (Grows-on_error statement (wrap (plain "begin tx")) Grows-statement) (λ _. g) db)

Grows-commit : {A : Type 0} (a : A) → Grows (commit a)
Grows-commit a =
    Grows->>= (on_error statement (wrap (plain "commit tx"))) (λ _. pure (committed a))
      (Grows-on_error statement (wrap (plain "commit tx")) Grows-statement)
      (λ _. Grows-pure (committed a))

Grows-insert_history : (h : TaskHistory) → Grows (insert_history h)
unfolding insert_history
Grows-insert_history h = Grows-exec (history_row_error h) (add_history h) (λ db. omega arith)

Grows-insert_entries : (at : Time) (hs : List TaskHistory) → Grows (insert_entries at hs)
unfolding insert_entries
Grows-insert_entries at [] = Grows-pure tt
Grows-insert_entries at (h ∷ hs) =
    Grows->>=
      (on_error (insert_history (record h { created_at = at }))
        (wrap (plain "insert task history")))
      (λ _. insert_entries at hs)
      (Grows-on_error (insert_history (record h { created_at = at }))
        (wrap (plain "insert task history")) (Grows-insert_history (record h { created_at = at })))
      (λ _. Grows-insert_entries at hs)

Grows-update_task : (k : Task) → Grows (update_task k)
unfolding update_task
Grows-update_task k = Grows-exec (task_row_error k) (set_task k) (λ db. omega arith)

Grows-write_changes :
    (at : Time) (k : Task) (hs : List TaskHistory) → Grows (write_changes at (k, hs))
unfolding write_changes
Grows-write_changes at k [] = Grows-pure (left_open k)
Grows-write_changes at k (h ∷ hs) =
    let row = record k { updated_at = at } in
    Grows->>= (on_error (update_task row) (wrap (plain "update task")))
      (λ _. insert_entries at (h ∷ hs) >> commit row)
      (Grows-on_error (update_task row) (wrap (plain "update task")) (Grows-update_task row))
      (λ _.
        Grows->>= (insert_entries at (h ∷ hs)) (λ _. commit row) (Grows-insert_entries at (h ∷ hs))
          (λ _. Grows-commit row))

Grows-lock_task : (id : ℤ) → Grows (lock_task id)
unfolding lock_task
Grows-lock_task id =
    Grows-on_error (query_row (find_task id)) (or_not_found (plain "select task for update"))
      (Grows-query_row (find_task id))

pub Grows-update :
    (id : ℤ) (p : TaskPatch) (actor_id : ℤ) (authorize : Task → Option Error)
    → Grows (update id p actor_id authorize)
unfolding update update_body
Grows-update id p actor_id authorize = Grows-transaction (update_body id p actor_id authorize) (
    Grows->>= (lock_task id)
      (λ task.
        check (authorize task)
        >> (gets now >>= λ at. write_changes at (build_history task p actor_id at)))
      (Grows-lock_task id)
      (λ task.
        Grows->>= (check (authorize task))
          (λ _. gets now >>= λ at. write_changes at (build_history task p actor_id at))
          (Grows-check (authorize task))
          (λ _.
            Grows->>= (gets now) (λ at. write_changes at (build_history task p actor_id at))
              (Grows-gets now)
              (λ at.
                Grows-write_changes at (build_history task p actor_id at).0
                  (build_history task p actor_id at).1))))

abbrev pub create_rest : Task → Time → ℤ → Action Database (Ending Task)
create_rest task at id =
    on_error (insert_history (created_entry id task.created_by at))
      (wrap (plain "insert task history"))
    >> commit (record (stamped at task) { id = id })

pub Grows-create_rest : (task : Task) (at : Time) (id : ℤ) → Grows (create_rest task at id)
Grows-create_rest task at id =
    Grows->>=
      (on_error (insert_history (created_entry id task.created_by at))
        (wrap (plain "insert task history")))
      (λ _. commit (record (stamped at task) { id = id }))
      (Grows-on_error (insert_history (created_entry id task.created_by at))
        (wrap (plain "insert task history"))
        (Grows-insert_history (created_entry id task.created_by at)))
      (λ _. Grows-commit (record (stamped at task) { id = id }))

Grows-insert_task : (k : Task) → Grows (insert_task k)
unfolding Grows insert_task statement
Grows-insert_task k db = ground arith

pub Grows-create : (k : Task) → Grows (create k)
unfolding create create_body
Grows-create k = Grows-transaction (create_body k) (
    Grows->>= (gets now)
      (λ at.
        on_error (insert_task (stamped at k)) (wrap (plain "insert task")) >>= create_rest k at)
      (Grows-gets now)
      (λ at.
        Grows->>= (on_error (insert_task (stamped at k)) (wrap (plain "insert task")))
          (create_rest k at)
          (Grows-on_error (insert_task (stamped at k)) (wrap (plain "insert task"))
            (Grows-insert_task (stamped at k)))
          (Grows-create_rest k at)))
