-- ===== src/Store/Tasks/Updating.antt =====
-- `TaskRepository.Update`: what has happened when it returns a task, and when it returns an error.
use testovoe_bazis.Common.{
  ℕ, ◌≡◌, ◌/◌, ◌==◌, int_eq, int_beq_iff, Mem, find_first-Mem, sym, ap, subst, ◌∙◌, ◌⊎◌, inl, inr,
  Option, none, some, ℤ, arith, Option-cases, Error, ok, err, outcome-cases, on_error-eq-ok,
}
use testovoe_bazis.Domain.{Time, Task, TaskPatch}
use testovoe_bazis.Store.Database.{
  Database, Tables, Ending, committed, left_open, spend, now, query_row,
}
use testovoe_bazis.Store.Database.Steps.{query_row-eq-ok, transaction-eq-ok, transaction-err_tables}
use testovoe_bazis.Store.Audit.{build_history}
use testovoe_bazis.Store.Audit.Effect.{patched, differences, build_history_lem}
use testovoe_bazis.Store.Audit.Silence.{patched-eq_of_differences}
use testovoe_bazis.Store.Tasks.{find_task, lock_task, update, update_body, write_changes}
use testovoe_bazis.Store.Tasks.Writing.{numbered, changed, write_changes-eq-ok}

-- What an update from a locked row has done, at a time and from given tables: the patch changes
-- nothing, the row is returned and the tables are as they were; or the patched row is returned and
-- stored with its entries.
abbrev pub Outcome : TaskPatch → ℤ → Time → Task → Tables → ℕ → Task → Tables → Type 0
Outcome p actor_id at locked tables next_history result tables' =
    ((result ≡ locked) × (patched locked p at ≡ locked) × (tables' ≡ tables))
    ⊎ ((result ≡ record (patched locked p at) { updated_at = at })
        × (tables'
            ≡ changed tables result
                (numbered next_history at (differences actor_id (patched locked p at) locked))))

module _ (id : ℤ) (p : TaskPatch) (actor_id : ℤ) (authorize : Task → Option Error) where
  -- What a successful update has done to the tables, from the task that was locked.
  pub record Updated (before after : Database) (result : Task) : Type 0 where
    pub locked : Task
    pub was_stored : Mem locked before.tables.tasks
    pub was_asked : locked.id ≡ id
    pub was_found : find_task id before.tables ≡ some locked
    pub was_allowed : authorize locked ≡ none
    pub outcome :
        Outcome p actor_id
          (before.clock / 1000000000)
          locked
          before.tables
          before.next_history
          result
          after.tables

  find_task-IsRow : (t : Tables) {k : Task} → find_task id t ≡ some k → Mem k t.tasks × (k.id ≡ id)
  find_task-IsRow t {k} e =
      let (there, asked) = find_first-Mem (λ (k : Task). k.id == id) t.tasks e in
      (there, (int_beq_iff k.id id).0 asked)

  lock_task-eq-ok :
      (db : Database) {t : Task} {db' : Database}
      → lock_task id db ≡ (ok t, db')
      → (find_task id db.tables ≡ some t) × (db' ≡ spend db)
  unfolding lock_task
  lock_task-eq-ok db e =
      query_row-eq-ok (find_task id) db (on_error-eq-ok (query_row (find_task id)) _ db e)

  -- The locked row passed `authorize`, and the writes went ahead from there.
  update_body-eq-ok :
      (db : Database) {end : Ending Task} {db' : Database}
      → update_body id p actor_id authorize db ≡ (ok end, db')
      → (t : Task) × (find_task id db.tables ≡ some t)
        × (authorize t ≡ none)
        × (write_changes (now db) (build_history t p actor_id (now db)) (spend db) ≡ (ok end, db'))
  unfolding update_body
  update_body-eq-ok db e = elim (outcome-cases (lock_task id db)) [
    | inl (t, mid, first) ↦
        let (there, spent) = lock_task-eq-ok db first in
        elim (Option-cases (authorize t)) [
          | inl allowed ↦ (t, there, allowed, ground arith)
          | inr (refusal, refused) ↦ absurd (ground arith)
        ]
    | inr (f, mid, failed) ↦ absurd (ground arith)
  ]

  -- The two ways in which the changes to a locked row end.
  abbrev Ended : Time → Task → Database → Ending Task → Database → Type 0
  Ended at t db end db' =
      ((end ≡ left_open t) × (patched t p at ≡ t))
      ⊎ ((end ≡ committed (record (patched t p at) { updated_at = at }))
          × (db'.tables
              ≡ changed db.tables (record (patched t p at) { updated_at = at })
                  (numbered db.next_history at (differences actor_id (patched t p at) t))))

  write_changes-Ended :
      (at : Time) (t : Task) (db : Database) {end : Ending Task} {db' : Database}
      → write_changes at (build_history t p actor_id at) db ≡ (ok end, db')
      → Ended at t db end db'
  write_changes-Ended at t db {end} {db'} e =
      let diff = differences actor_id (patched t p at) t in
      let wrote : write_changes at (patched t p at, diff) db ≡ (ok end, db') =
        subst (λ d. write_changes at d db ≡ (ok end, db')) (build_history_lem t p actor_id at) e in
      elim (write_changes-eq-ok at (patched t p at) diff db wrote) [
        | inl (nothing, left) ↦
            let same = patched-eq_of_differences t p actor_id at nothing in
            inl (left ∙ ap left_open same, same)
        | inr done ↦ inr done
      ]

  left_open_injective : {a b : Task} → Path (Ending Task) (left_open a) (left_open b) → a ≡ b
  left_open_injective e = cc

  -- A successful update locked a stored row with the given id and `authorize` accepted that very
  -- row; either the patch changes nothing, the row is returned and no table has changed; or the
  -- patched row with the time of the update is returned and its title, description, status, assignee
  -- and times are stored in the rows with its id, one entry of history is appended for each field
  -- that differs, and nothing else in the tables has changed.
  pub update-Updated :
      (db : Database) (result : Task) (db' : Database)
      → update id p actor_id authorize db ≡ (ok result, db')
      → Updated db db' result
  unfolding update
  update-Updated db result db' e =
      elim (transaction-eq-ok (update_body id p actor_id authorize) db e) [
        | inl kept ↦
            let (t, there, allowed, wrote) = update_body-eq-ok (spend db) kept in
            let (stored_row, asked_row) = find_task-IsRow db.tables there in
            elim (write_changes-Ended (now db) t (spend (spend db)) wrote) [
              | inl (left, same) ↦ absurd (ground arith)
              | inr (done, stored) ↦
                  let hs =
                    numbered db.next_history (now db)
                      (differences actor_id (patched t p (now db)) t) in
                  let returned : result ≡ record (patched t p (now db)) { updated_at = now db } =
                    ground arith in
                  record {
                    locked = t;
                    was_stored = stored_row;
                    was_asked = asked_row;
                    was_found = there;
                    was_allowed = allowed;
                    outcome = inr (
                      returned,
                      subst (λ r. db'.tables ≡ changed db.tables r hs) (sym returned) stored,
                    );
                  }
            ]
        | inr (undone, same) ↦
            let after = (update_body id p actor_id authorize (spend db)).1 in
            let (t, there, allowed, wrote) =
              update_body-eq-ok (spend db) {end = left_open result} {db' = after}
                (λ i. (undone i, after)) in
            let (stored_row, asked_row) = find_task-IsRow db.tables there in
            elim (write_changes-Ended (now db) t (spend (spend db)) {end = left_open result}
              {db' = after} wrote) [
                | inl (left, unchanged) ↦ record {
                  locked = t;
                  was_stored = stored_row;
                  was_asked = asked_row;
                  was_found = there;
                  was_allowed = allowed;
                  outcome = inl (left_open_injective left, unchanged, same);
                }
                | inr (done, stored) ↦ absurd (ground arith)
              ]
      ]

  -- An update that returns an error has changed no table.
  pub update-err_tables :
      (db : Database) (e : Error) (db' : Database)
      → update id p actor_id authorize db ≡ (err e, db')
      → db'.tables ≡ db.tables
  unfolding update
  update-err_tables db e db' h = transaction-err_tables (update_body id p actor_id authorize) db h
