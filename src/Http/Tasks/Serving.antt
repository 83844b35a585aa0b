-- ===== src/Http/Tasks/Serving.antt =====
-- What the answers to requests about tasks say of the service.
use testovoe_bazis.Common.{
  ◌≡◌, ◌≢◌, refl, Option, none, some, ℤ, text_eq, arith, Error, ok, outcome-cases, Result-cases,
  inl, inr,
}
use testovoe_bazis.Domain.{Task, TaskPatch}
use testovoe_bazis.Service.Tasks.{TaskService, CreateTaskInput}
use testovoe_bazis.Service.Tasks as TaskOperations
use testovoe_bazis.Http.{shows, respond_error, respond, path_id}
use testovoe_bazis.Http.Requests.{Request, current_user, decode_json}
use testovoe_bazis.Http.Tasks.{
  BodyCodec, to_patch, create_task, list_tasks, run_update, update_task, task_history,
}

module _ {W : Type 0} (s : TaskService W) (codec : BodyCodec) (r : Request) where
  -- Without a user every request about tasks is answered with 401 and touches nothing.
  pub tasks_anonymous :
      (w : W)
      → r.user_id ≡ none
      → (((create_task s codec r w).0.status ≡ 401) × ((create_task s codec r w).1 ≡ w))
        × (((list_tasks s codec r w).0.status ≡ 401) × ((list_tasks s codec r w).1 ≡ w))
        × (((update_task s codec r w).0.status ≡ 401) × ((update_task s codec r w).1 ≡ w))
        × (((task_history s codec r w).0.status ≡ 401) × ((task_history s codec r w).1 ≡ w))
  unfolding create_task list_tasks update_task run_update task_history respond respond_error
  tasks_anonymous w h = rw h ((refl, refl), (refl, refl), (refl, refl), (refl, refl))

  respond_error-ne-ok : (A : Type 0) (e : Error) → (respond_error {A = A} e).status ≢ 200
  unfolding respond_error
  respond_error-ne-ok A e h = ground arith

  user_named : (o : Option ℤ) {id : ℤ} → current_user o ≡ ok id → o ≡ some id
  user_named o h = ground arith

  run_update-eq-ok :
      (w : W) {task : Task} {w' : W}
      → run_update s codec r w ≡ (ok task, w')
      → (user_id : ℤ) × (task_id : ℤ) × (patch : TaskPatch) × (r.user_id ≡ some user_id)
        × (path_id r.id ≡ ok task_id)
        × (TaskOperations.update s user_id task_id patch w ≡ (ok task, w'))
  unfolding run_update
  run_update-eq-ok w h = elim (Result-cases (current_user r.user_id)) [
    | inl (user_id, user) ↦ elim (Result-cases (path_id r.id)) [
      | inl (task_id, path) ↦ elim (Result-cases (decode_json (codec.update_task r.body))) [
        | inl (req, body) ↦ elim (Result-cases (to_patch codec.number req)) [
          | inl (patch, patched) ↦
              (user_id, task_id, patch, user_named r.user_id user, path, ground arith)
          | inr (e, bad) ↦ absurd (ground arith)
        ]
        | inr (e, bad) ↦ absurd (ground arith)
      ]
      | inr (e, bad) ↦ absurd (ground arith)
    ]
    | inr (e, bad) ↦ absurd (ground arith)
  ]

  -- `UpdateTask` answers 200 only if there is a user, the path has an id, and `Update` of the
  -- service has returned, for them and some patch, the task that is shown.
  pub update_task-served :
      (w : W)
      → (update_task s codec r w).0.status ≡ 200
      → (user_id : ℤ) × (task_id : ℤ) × (patch : TaskPatch) × (task : Task) × (r.user_id
          ≡ some user_id)
        × (path_id r.id ≡ ok task_id)
        × (TaskOperations.update s user_id task_id patch w ≡ (ok task, (update_task s codec r w).1))
        × ((update_task s codec r w).0.payload ≡ shows task)
  unfolding update_task respond
  update_task-served w h = elim (outcome-cases (run_update s codec r w)) [
    | inl (task, w', done) ↦
        let (user_id, task_id, patch, user, path, updated) = run_update-eq-ok w done in
        (user_id, task_id, patch, task, user, path, ground arith, ground arith)
    | inr (e, w', failed) ↦ absurd (respond_error-ne-ok Task e (ground arith))
  ]
