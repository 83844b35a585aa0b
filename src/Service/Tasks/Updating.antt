-- ===== src/Service/Tasks/Updating.antt =====
-- `TaskService.Update`: what a success has checked and done.
use testovoe_bazis.Common.{
  ◌≡◌, ◌≢◌, ◌⊎◌, is_some, ap, ◌∙◌, inl, inr, true, false, Option, none, some, ℤ, arith, Text,
  text_eq, error_is, not_found, forbidden, trim_space, Bool-cases, Option-cases, Error, sentinel,
  ok, err, outcome-cases,
}
use testovoe_bazis.Domain.{Role, Task, TaskStatus, TaskPatch, patch_empty}
use testovoe_bazis.Service.Tasks.{
  TaskService, title_error, member_role, check_assignee, trimmed_title, patch_status_error,
  new_assignee, authorize, update, update_checked,
}
use testovoe_bazis.Service.Tasks.Checks.{
  member_role_stranger, IsTitle, title_error-IsTitle, IsStatus, status_error-IsStatus, Guards,
  authorize-Guards, member_role-eq-ok, IsAssignment, check_assignee-IsAssignment,
}

-- What the service hands on of a title: nothing, or a checked title.
abbrev pub IsTitle? : Option Text → Type 0
IsTitle? none = Unit
IsTitle? (some title) = IsTitle title

abbrev pub IsKnown? : Option TaskStatus → Type 0
IsKnown? none = Unit
IsKnown? (some status) = IsStatus status

unfoldable pub trim? : Option Text → Option Text
trim? none = none
trim? (some title) = some (trim_space title)

-- A patch that sets one of its fields.
abbrev pub SetsSomething : TaskPatch → Type 0
SetsSomething p =
    (p.title ≢ none) ⊎ (p.description ≢ none) ⊎ (p.status ≢ none) ⊎ (p.assignee.is_set ≡ true)

is_some-ne-none : {A : Type 0} (o : Option A) → is_some o ≡ true → o ≢ none
is_some-ne-none none h = cc
is_some-ne-none (some a) h = λ e. cc

patch_empty-SetsSomething : (p : TaskPatch) → patch_empty p ≡ false → SetsSomething p
unfolding patch_empty
patch_empty-SetsSomething p h = elim (Bool-cases (is_some p.title)) [
  | inl t ↦ inl (is_some-ne-none p.title t)
  | inr no_title ↦ elim (Bool-cases (is_some p.description)) [
    | inl d ↦ inr (inl (is_some-ne-none p.description d))
    | inr no_description ↦ elim (Bool-cases (is_some p.status)) [
      | inl s ↦ inr (inr (inl (is_some-ne-none p.status s)))
      | inr no_status ↦ inr (inr (inr (ground arith)))
    ]
  ]
]

module _ {W : Type 0} (s : TaskService W) (actor_id task_id : ℤ) where
  open s use {tasks, teams, cache}

  -- The calls behind a successful update, in their order: the task was read, the actor has a role
  -- in its team, an assignee that the patch names is a member of it, and the repository was given a
  -- rule that lets the locked row pass exactly if that role, or being its author or assignee, allows
  -- the patch; then the cache of the team was invalidated.
  pub record Checked (patch : TaskPatch) (w : W) (result : Task) (w' : W) : Type 0 where
    pub read : Task
    pub role : Role
    pub w1 : W
    pub w2 : W
    pub w3 : W
    pub w4 : W
    pub was_read : tasks.get task_id w ≡ (ok read, w1)
    pub was_member : teams.get_member_role read.team_id actor_id w1 ≡ (ok role, w2)
    pub was_assignable :
        IsAssignment s read.team_id patch.assignee.is_set patch.assignee.value w2 w3
    pub allow : Task → Option Error
    pub guards : Guards actor_id role patch allow
    pub was_updated : tasks.update task_id patch actor_id allow w3 ≡ (ok result, w4)
    pub invalidated : w' ≡ cache.invalidate_team result.team_id w4

  update_checked-Checked :
      (patch : TaskPatch) (w : W) {result : Task} {w' : W}
      → update_checked s actor_id task_id patch w ≡ (ok result, w')
      → Checked patch w result w'
  unfolding update_checked
  update_checked-Checked patch w {result} {w'} h = elim (outcome-cases (tasks.get task_id w)) [
    | inl (t, w1, first) ↦ elim (outcome-cases (member_role s t.team_id actor_id w1)) [
      | inl (role, w2, second) ↦
          elim (outcome-cases (check_assignee s t.team_id (new_assignee s patch) w2)) [
            | inl (u, w3, third) ↦
                elim (outcome-cases
                  (tasks.update task_id patch actor_id (authorize s actor_id role patch) w3)) [
                    | inl (k, w4, fourth) ↦
                        let same : k ≡ result = ground arith in
                        record {
                          read = t;
                          role = role;
                          w1 = w1;
                          w2 = w2;
                          w3 = w3;
                          w4 = w4;
                          was_read = first;
                          was_member = member_role-eq-ok s t.team_id actor_id w1 second;
                          was_assignable = check_assignee-IsAssignment s t.team_id patch w2 third;
                          allow = authorize s actor_id role patch;
                          guards = authorize-Guards s actor_id role patch;
                          was_updated = fourth ∙ ap (λ r. (ok r, w4)) same;
                          invalidated = ground arith;
                        }
                    | inr (e, w4, failed) ↦ absurd (ground arith)
                  ]
            | inr (e, w3, failed) ↦ absurd (ground arith)
          ]
      | inr (e, w2, failed) ↦ absurd (ground arith)
    ]
    | inr (e, w1, failed) ↦ absurd (ground arith)
  ]

  trimmed_title-eq-ok :
      (given : Option Text) (w : W) {title : Option Text} {w' : W}
      → trimmed_title s given w ≡ (ok title, w')
      → (title ≡ trim? given) × IsTitle? (trim? given) × (w' ≡ w)
  unfolding trim?
  trimmed_title-eq-ok none w h = (ground arith, tt, ground arith)
  trimmed_title-eq-ok (some title) w h =
      elim (Option-cases (title_error "title cannot be empty" (trim_space title))) [
        | inl fine ↦
            (ground arith, title_error-IsTitle "title cannot be empty" title fine, ground arith)
        | inr (e, bad) ↦ absurd (ground arith)
      ]

  patch_status_error-eq-none :
      (status : Option TaskStatus) → patch_status_error s status ≡ none → IsKnown? status
  patch_status_error-eq-none none h = tt
  patch_status_error-eq-none (some status) h = status_error-IsStatus status h

  -- A successful `Update` was given a patch that sets something, with one of the three statuses if
  -- any, and what it handed on has a trimmed title of 1 to 200 characters if any; it read the task,
  -- asked for the role of the actor in its team and for the membership of an assignee that the patch
  -- names, and gave the repository a rule that lets a row pass exactly if the actor is owner, admin
  -- or its author, or its assignee and the patch sets neither title nor assignee; then the cache of
  -- the team was invalidated.
  pub update-Checked :
      (given : TaskPatch) (w : W) (result : Task) (w' : W)
      → update s actor_id task_id given w ≡ (ok result, w')
      → SetsSomething given
        × IsKnown? given.status
        × IsTitle? (trim? given.title)
        × Checked (record given { title = trim? given.title }) w result w'
  unfolding update
  update-Checked given w result w' h = elim (Bool-cases (patch_empty given)) [
    | inl empty ↦ absurd (ground arith)
    | inr something ↦ elim (Option-cases (patch_status_error s given.status)) [
      | inl known ↦ elim (outcome-cases (trimmed_title s given.title w)) [
        | inl (title, v, done) ↦
            let (named, checked, same) = trimmed_title-eq-ok given.title w done in
            let rest : update_checked s actor_id task_id
                  (record given { title = trim? given.title }) w
                ≡ (ok result, w') =
              ground arith in
            (
              patch_empty-SetsSomething given something,
              patch_status_error-eq-none given.status known,
              checked,
              update_checked-Checked _ w rest,
            )
        | inr (e, v, failed) ↦ absurd (ground arith)
      ]
      | inr (e, bad) ↦ absurd (ground arith)
    ]
  ]

  -- An actor outside the team of the task is refused with `ErrForbidden` before the repository is
  -- asked to change anything: a patch that passes the checks ends right after the role was asked
  -- for.
  pub update_checked_stranger :
      (patch : TaskPatch) (w : W) (t : Task) (w1 : W) (e : Error) (w2 : W)
      → tasks.get task_id w ≡ (ok t, w1)
      → teams.get_member_role t.team_id actor_id w1 ≡ (err e, w2)
      → error_is e not_found ≡ true
      → update_checked s actor_id task_id patch w ≡ (err (sentinel forbidden), w2)
  unfolding update_checked
  update_checked_stranger patch w t w1 e w2 h k l =
      ground (arith, member_role_stranger s t.team_id actor_id w1 k l)
