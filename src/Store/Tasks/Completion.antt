-- ===== src/Store/Tasks/Completion.antt =====
-- A task has a time of completion exactly if it is done: the repository of
-- internal/store/mysql/task_repo.go keeps this of every row.
use testovoe_bazis.Common.{
  ◌≡◌, sym, subst, inl, inr, Option, [], ◌∷◌, ℤ, arith, is_some, All, All-append, All-map,
  All-find_first, int_eq, text_eq, text_beq_iff, ◌==◌, Error, Result, outcome-cases,
}
use testovoe_bazis.Domain.{Time, Task, TaskPatch, status_done}
use testovoe_bazis.Store.Database.{Database, Tables, now}
use testovoe_bazis.Store.Audit.Effect.{patched, or_old}
use testovoe_bazis.Store.Tasks.{create, update}
use testovoe_bazis.Store.Tasks.Writing.{replaced}
use testovoe_bazis.Store.Tasks.Updating.{Updated, update-Updated, update-err_tables}
use testovoe_bazis.Store.Tasks.Creating.{new_row, create-eq-ok, create-err_tables}

abbrev pub IsStamped : Task → Type 0
IsStamped k = is_some k.completed_at ≡ (k.status == status_done)

abbrev pub IsConsistent : Tables → Type 0
IsConsistent t = All IsStamped t.tasks

new_row-IsStamped : (db : Database) (k : Task) → IsStamped (new_row db k)
new_row-IsStamped db k = ground arith

patched-IsStamped :
    (k : Task) (p : TaskPatch) (at : Time) → IsStamped k → IsStamped (patched k p at)
patched-IsStamped k p at h = ground (arith, text_beq_iff (or_old p.status k.status) k.status)

replaced-IsStamped : (new old : Task) → IsStamped new → IsStamped old → IsStamped (replaced new old)
replaced-IsStamped new old h k = ground arith

module _ (id : ℤ) (p : TaskPatch) (actor_id : ℤ) (authorize : Task → Option Error) where
  Updated-IsConsistent :
      (before after : Database) (result : Task)
      → Updated id p actor_id authorize before after result
      → IsConsistent before.tables
      → IsConsistent after.tables
  Updated-IsConsistent before after result u h = elim u.outcome [
    | inl (_, _, same) ↦ subst IsConsistent (sym same) h
    | inr (returned, stored) ↦
        let locked = All-find_first IsStamped _ before.tables.tasks u.was_found h in
        let fresh : IsStamped result =
          subst IsStamped (sym returned) (patched-IsStamped u.locked p (now before) locked) in
        subst IsConsistent (sym stored) (
          All-map IsStamped (replaced result) before.tables.tasks
            (λ k. replaced-IsStamped result k fresh) h)
  ]

  -- Whatever `Update` is given and however it ends, if every task had a time of completion exactly
  -- when it was done, then every task still has.
  pub update-IsConsistent :
      (db : Database)
      → IsConsistent db.tables
      → IsConsistent (update id p actor_id authorize db).1.tables
  update-IsConsistent db h = elim (outcome-cases (update id p actor_id authorize db)) [
    | inl (k, db', done) ↦
        subst (λ (r : Result Task × Database). IsConsistent r.1.tables) (sym done)
          (Updated-IsConsistent db db' k (update-Updated id p actor_id authorize db k db' done) h)
    | inr (e, db', failed) ↦
        subst (λ (r : Result Task × Database). IsConsistent r.1.tables) (sym failed)
          (subst IsConsistent (sym (update-err_tables id p actor_id authorize db e db' failed)) h)
  ]

-- Whatever the new task is and however `Create` ends, if every task had a time of completion exactly
-- when it was done, then every task still has.
pub create-IsConsistent :
    (k : Task) (db : Database) → IsConsistent db.tables → IsConsistent (create k db).1.tables
create-IsConsistent k db h = elim (outcome-cases (create k db)) [
  | inl (r, db', done) ↦
      let (returned, _, stored) = create-eq-ok k db r db' done in
      let fresh : IsStamped r = subst IsStamped (sym returned) (new_row-IsStamped db k) in
      subst (λ (r : Result Task × Database). IsConsistent r.1.tables) (sym done)
        (subst IsConsistent (sym stored)
          (All-append IsStamped db.tables.tasks (r ∷ []) h (fresh, tt)))
  | inr (e, db', failed) ↦
      subst (λ (r : Result Task × Database). IsConsistent r.1.tables) (sym failed)
        (subst IsConsistent (sym (create-err_tables k db e db' failed)) h)
]
