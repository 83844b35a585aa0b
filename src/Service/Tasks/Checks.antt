-- ===== src/Service/Tasks/Checks.antt =====
-- The checks that the operations of internal/service/task_service.go share: what a passed check
-- says.
use testovoe_bazis.Common.{
  ◌≡◌, ◌≢◌, ◌≤◌, ◌↔◌, ◌⊎◌, Bool, false, codes, int_eq, int_beq_iff, ◌==◌, if◌then◌else◌, sym, ap,
  inl, inr, true, Option, none, some, [], String, ℤ, arith, Text, text_eq, text_beq_iff, length,
  trim_space, IsTrimmed, trim_space-IsTrimmed, Error, sentinel, error_is, not_found, forbidden, ok,
  err, on_error-eq-ok, outcome-cases,
}
use testovoe_bazis.Domain.{
  Role, Task, TaskPatch, TaskStatus, status_valid, status_todo, status_in_progress, status_done,
}
use testovoe_bazis.Service.Authorization.Policy.{can_update_task_iff}
use testovoe_bazis.Service.Tasks.{
  TaskService, title_error, status_error, member_role, check_assignee, is_assigned, authorize,
  new_assignee,
}

-- A title that may be stored.
pub record IsTitle (s : Text) : Type 0 where
  pub trimmed : IsTrimmed s
  pub nonempty : s ≢ []
  pub short : length s ≤ 200

pub title_error-IsTitle :
    (missing : String) (given : Text)
    → title_error missing (trim_space given) ≡ none
    → IsTitle (trim_space given)
unfolding title_error
title_error-IsTitle missing given h = record {
  trimmed = trim_space-IsTrimmed given;
  nonempty = ground (arith, text_beq_iff (trim_space given) []);
  short = ground arith;
}

-- The three statuses of a task.
abbrev pub IsStatus : TaskStatus → Type 0
IsStatus s = (s ≡ codes "todo") ⊎ (s ≡ codes "in_progress") ⊎ (s ≡ codes "done")

pub status_error-IsStatus : (s : TaskStatus) → status_error s ≡ none → IsStatus s
unfolding status_error status_valid
status_error-IsStatus s h = ground (
  arith,
  text_beq_iff s status_todo,
  text_beq_iff s status_in_progress,
  text_beq_iff s status_done,
)

-- README.md: an actor with the role of owner or admin and the author of the task may change any
-- field, its assignee only status and description.
abbrev pub MayPatch : ℤ → Role → TaskPatch → Task → Type 0
MayPatch actor_id role patch t =
    (role ≡ codes "owner")
    ⊎ (role ≡ codes "admin")
    ⊎ (t.created_by ≡ actor_id)
    ⊎ ((t.assignee_id ≡ some actor_id) × (patch.title ≡ none) × (patch.assignee.is_set ≡ false))

-- A rule on the locked row lets a task pass exactly if the actor may change it like that, and
-- refuses it with `ErrForbidden` otherwise.
pub record Guards (actor_id : ℤ) (role : Role) (patch : TaskPatch) (allow : Task → Option Error)
    : Type 0 where
  pub allows : (t : Task) → (allow t ≡ none) ↔ MayPatch actor_id role patch t
  pub refuses : (t : Task) → (allow t ≡ none) ⊎ (allow t ≡ some (sentinel forbidden))

module _ {W : Type 0} (s : TaskService W) where
  open s use {teams}

  -- The role came from the store of teams.
  pub member_role-eq-ok :
      (team_id user_id : ℤ) (w : W) {role : Role} {w' : W}
      → member_role s team_id user_id w ≡ (ok role, w')
      → teams.get_member_role team_id user_id w ≡ (ok role, w')
  unfolding member_role
  member_role-eq-ok team_id user_id w h =
      on_error-eq-ok (teams.get_member_role team_id user_id) _ w h

  -- Someone who is not in the team is told that it is forbidden.
  pub member_role_stranger :
      (team_id user_id : ℤ) (w : W) {e : Error} {w' : W}
      → teams.get_member_role team_id user_id w ≡ (err e, w')
      → error_is e not_found ≡ true
      → member_role s team_id user_id w ≡ (err (sentinel forbidden), w')
  unfolding member_role
  member_role_stranger team_id user_id w h k = ground arith

  is_assigned_iff :
      (assignee : Option ℤ) (actor_id : ℤ)
      → (is_assigned s assignee actor_id ≡ true) ↔ (assignee ≡ some actor_id)
  is_assigned_iff none actor_id = (λ h. cc, λ h. cc)
  is_assigned_iff (some user_id) actor_id = ground (arith, int_beq_iff user_id actor_id)

  pub authorize-Guards :
      (actor_id : ℤ) (role : Role) (patch : TaskPatch)
      → Guards actor_id role patch (authorize s actor_id role patch)
  unfolding authorize
  authorize-Guards actor_id role patch = record {
    allows = λ t.
        let rule =
          (can_update_task_iff patch (record {
            team_role = role;
            is_creator = t.created_by == actor_id;
            is_assignee = is_assigned s t.assignee_id actor_id;
          })).0 in
        ground
          (arith, rule, int_beq_iff t.created_by actor_id, is_assigned_iff t.assignee_id actor_id);
    refuses = λ t. (can_update_task_iff patch _).1;
  }

  -- An assignee that is named was found to be a member.
  abbrev pub IsAssignable : ℤ → Option ℤ → W → W → Type 0
  IsAssignable team_id none w w' = w' ≡ w
  IsAssignable team_id (some user_id) w w' = teams.is_member team_id user_id w ≡ (ok true, w')

  pub check_assignee-IsAssignable :
      (team_id : ℤ) (assignee : Option ℤ) (w : W) {u : Unit {0}} {w' : W}
      → check_assignee s team_id assignee w ≡ (ok u, w')
      → IsAssignable team_id assignee w w'
  unfolding check_assignee
  check_assignee-IsAssignable team_id none w h = sym (ap (λ p. p.1) h)
  check_assignee-IsAssignable team_id (some user_id) w h =
      elim (outcome-cases (teams.is_member team_id user_id w)) [
        | inl (member, v, done) ↦ ground arith
        | inr (e, v, failed) ↦ absurd (ground arith)
      ]

  -- The same of a patch, which names an assignee if it sets the field to one.
  abbrev pub IsAssignment : ℤ → Bool → Option ℤ → W → W → Type 0
  IsAssignment team_id true (some user_id) w w' = teams.is_member team_id user_id w ≡ (ok true, w')
  IsAssignment team_id true none w w' = w' ≡ w
  IsAssignment team_id false assignee w w' = w' ≡ w

  pub check_assignee-IsAssignment :
      (team_id : ℤ) (patch : TaskPatch) (w : W) {u : Unit {0}} {w' : W}
      → check_assignee s team_id (new_assignee s patch) w ≡ (ok u, w')
      → IsAssignment team_id patch.assignee.is_set patch.assignee.value w w'
  check_assignee-IsAssignment team_id patch w {u} {w'} h =
      of_field patch.assignee.is_set patch.assignee.value
        (check_assignee-IsAssignable team_id (new_assignee s patch) w h)
    where
      of_field :
          (is_set : Bool) (value : Option ℤ)
          → IsAssignable team_id (if is_set then value else none) w w'
          → IsAssignment team_id is_set value w w'
      of_field true (some user_id) k = k
      of_field true none k = k
      of_field false value k = k
