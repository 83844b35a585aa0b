-- ===== src/Service/Tasks/Creating.antt =====
-- `TaskService.Create`: what a success has checked and done.
use testovoe_bazis.Common.{
  ◌≡◌, refl, ◌⊎◌, pos, codes, none, [], ◌==◌, Bool-cases, text_beq_iff, ap, ◌∙◌, inl, inr, ℤ, arith,
  text_eq, trim_space, Option-cases, ok, outcome-cases,
}
use testovoe_bazis.Domain.{Role, Task, TaskStatus}
use testovoe_bazis.Service.Tasks.{
  TaskService, CreateTaskInput, title_error, status_error, initial_status, member_role,
  check_assignee, new_task, create,
}
use testovoe_bazis.Service.Tasks.Checks.{
  IsTitle, title_error-IsTitle, IsStatus, status_error-IsStatus, member_role-eq-ok, IsAssignable,
  check_assignee-IsAssignable,
}

-- An empty status stands for `todo`, any other has to be one of the three.
abbrev pub IsInitial : TaskStatus → TaskStatus → Type 0
IsInitial given status =
    ((given ≡ []) × (status ≡ codes "todo")) ⊎ (IsStatus given × (status ≡ given))

initial_status-IsInitial :
    (given : TaskStatus)
    → status_error (initial_status given) ≡ none
    → IsInitial given (initial_status given)
unfolding initial_status
initial_status-IsInitial given h = elim (Bool-cases (given == [])) [
  | inl empty ↦ rw empty (inl ((text_beq_iff given []).0 empty, refl))
  | inr named ↦
      let known : status_error given ≡ none = rw named at h in
      rw named (inr (status_error-IsStatus given known, refl))
]

-- The task that a request asks for, with a status, before it has an id and times.
abbrev pub asked_task : ℤ → CreateTaskInput → TaskStatus → Task
asked_task actor_id input status = record {
  id = pos 0;
  team_id = input.team_id;
  title = trim_space input.title;
  description = input.description;
  status = status;
  assignee_id = input.assignee_id;
  created_by = actor_id;
  created_at = 0;
  updated_at = 0;
  completed_at = none;
}

module _ {W : Type 0} (s : TaskService W) (actor_id : ℤ) (input : CreateTaskInput) where
  open s use {tasks, teams, cache}

  -- The status of the new task, and the calls behind a successful creation, in their order: the actor
  -- has a role in the team, an assignee is a member of it, the repository was given the task that
  -- was asked for; then the cache of the team was invalidated.
  pub record Created (w : W) (result : Task) (w' : W) : Type 0 where
    pub status : TaskStatus
    pub initial : IsInitial input.status status
    pub role : Role
    pub w1 : W
    pub w2 : W
    pub w3 : W
    pub was_member : teams.get_member_role input.team_id actor_id w ≡ (ok role, w1)
    pub was_assignable : IsAssignable s input.team_id input.assignee_id w1 w2
    pub was_created : tasks.create (asked_task actor_id input status) w2 ≡ (ok result, w3)
    pub invalidated : w' ≡ cache.invalidate_team result.team_id w3

  -- A successful `Create` was given a title that is, once trimmed, 1 to 200 characters long, and a
  -- status that is empty, and becomes `todo`, or one of the three; it asked for the role of the actor
  -- in the team and for the membership of an assignee that is named, gave the repository the task
  -- with the trimmed title, that status and all else as asked, and returned what it answered; then
  -- the cache of the team was invalidated.
  pub create-Created :
      (w : W) (result : Task) (w' : W)
      → create s actor_id input w ≡ (ok result, w')
      → IsTitle (trim_space input.title) × Created w result w'
  unfolding create
  create-Created w result w' h =
      elim (Option-cases (title_error "title is required" (trim_space input.title))) [
        | inl titled ↦ elim (Option-cases (status_error (initial_status input.status))) [
          | inl known ↦ elim (outcome-cases (member_role s input.team_id actor_id w)) [
            | inl (role, w1, first) ↦
                elim (outcome-cases (check_assignee s input.team_id input.assignee_id w1)) [
                  | inl (u, w2, second) ↦
                      elim (outcome-cases (tasks.create (new_task s actor_id input) w2)) [
                        | inl (k, w3, third) ↦
                            let same : k ≡ result = ground arith in
                            (
                              title_error-IsTitle "title is required" input.title titled,
                              record {
                                status = initial_status input.status;
                                initial = initial_status-IsInitial input.status known;
                                role = role;
                                w1 = w1;
                                w2 = w2;
                                w3 = w3;
                                was_member = member_role-eq-ok s input.team_id actor_id w first;
                                was_assignable =
                                    check_assignee-IsAssignable s input.team_id input.assignee_id w1
                                      second;
                                was_created = third ∙ ap (λ r. (ok r, w3)) same;
                                invalidated = ground arith;
                              },
                            )
                        | inr (e, w3, failed) ↦ absurd (ground arith)
                      ]
                  | inr (e, w2, failed) ↦ absurd (ground arith)
                ]
            | inr (e, w1, failed) ↦ absurd (ground arith)
          ]
          | inr (e, unknown) ↦ absurd (ground arith)
        ]
        | inr (e, bad) ↦ absurd (ground arith)
      ]
