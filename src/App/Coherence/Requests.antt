-- ===== src/App/Coherence/Requests.antt =====
-- `Create` and `Update` of the service keep the cache right.
use testovoe_bazis.Common.{
  ℕ, Option, none, some, ℤ, Text, invalid, plain, trim_space, text_eq, int_eq,
}
use testovoe_bazis.Domain.{TaskPatch, patch_empty}
use testovoe_bazis.Service.Gateways.{PageCodec}
use testovoe_bazis.Service.Tasks.{
  CreateTaskInput, trimmed_title, patch_status_error, create, update, update_checked, new_task,
  new_assignee, authorize, title_error, status_error, initial_status,
}
use testovoe_bazis.App.{task_service}
use testovoe_bazis.App.Preserving.{
  Preserves, Preserves->>=, Preserves-check, Preserves-pure, Preserves-fail_if,
}
use testovoe_bazis.App.Coherence.{IsCoherent}
use testovoe_bazis.App.Coherence.Keeping.{
  Preserves-get, Preserves-member_role, Preserves-check_assignee,
}
use testovoe_bazis.App.Coherence.Writes.{create-then, update-then}

module _ (ttl : ℕ) (codec : PageCodec) where
  -- `Create` of the service keeps the cache right, however it ends.
  pub create-IsCoherent :
      (actor_id : ℤ) (input : CreateTaskInput)
      → Preserves (IsCoherent ttl codec) (create (task_service ttl codec) actor_id input)
  unfolding create
  create-IsCoherent actor_id input =
      let s = task_service ttl codec in
      Preserves->>= (IsCoherent ttl codec) _ _
        (Preserves-check (IsCoherent ttl codec)
          (title_error "title is required" (trim_space input.title)))
        (λ _.
          Preserves->>= (IsCoherent ttl codec) _ _
            (Preserves-check (IsCoherent ttl codec) (status_error (initial_status input.status)))
            (λ _.
              Preserves->>= (IsCoherent ttl codec) _ _
                (Preserves-member_role ttl codec input.team_id actor_id)
                (λ _.
                  Preserves->>= (IsCoherent ttl codec) _ _
                    (Preserves-check_assignee ttl codec input.team_id input.assignee_id)
                    (λ _. create-then ttl codec (new_task s actor_id input)))))

  update_checked-IsCoherent :
      (actor_id id : ℤ) (p : TaskPatch)
      → Preserves (IsCoherent ttl codec) (update_checked (task_service ttl codec) actor_id id p)
  unfolding update_checked
  update_checked-IsCoherent actor_id id p =
      let s = task_service ttl codec in
      Preserves->>= (IsCoherent ttl codec) _ _ (Preserves-get ttl codec id) (λ task.
        Preserves->>= (IsCoherent ttl codec) _ _
          (Preserves-member_role ttl codec task.team_id actor_id)
          (λ role.
            Preserves->>= (IsCoherent ttl codec) _ _
              (Preserves-check_assignee ttl codec task.team_id (new_assignee s p))
              (λ _. update-then ttl codec id p actor_id (authorize s actor_id role p))))

  Preserves-trimmed_title :
      (title : Option Text)
      → Preserves (IsCoherent ttl codec) (trimmed_title (task_service ttl codec) title)
  Preserves-trimmed_title none = Preserves-pure (IsCoherent ttl codec) none
  Preserves-trimmed_title (some title) =
      Preserves->>= (IsCoherent ttl codec) _ _ (Preserves-check (IsCoherent ttl codec) _)
        (λ _. Preserves-pure (IsCoherent ttl codec) _)

  -- `Update` of the service keeps the cache right, however it ends.
  pub update-IsCoherent :
      (actor_id id : ℤ) (given : TaskPatch)
      → Preserves (IsCoherent ttl codec) (update (task_service ttl codec) actor_id id given)
  unfolding update
  update-IsCoherent actor_id id given =
      let s = task_service ttl codec in
      Preserves->>= (IsCoherent ttl codec) _ _
        (Preserves-fail_if (IsCoherent ttl codec) (patch_empty given)
          (invalid (plain "at least one field must be provided")))
        (λ _.
          Preserves->>= (IsCoherent ttl codec) _ _
            (Preserves-check (IsCoherent ttl codec) (patch_status_error s given.status))
            (λ _.
              Preserves->>= (IsCoherent ttl codec) _ _ (Preserves-trimmed_title given.title)
                (λ title. update_checked-IsCoherent actor_id id (record given { title = title }))))
