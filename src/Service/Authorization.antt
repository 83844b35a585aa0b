-- ===== src/Service/Authorization.antt =====
-- internal/service/authorization.go: who may invite whom, and who may change what of a task.
pub mod Policy
use testovoe_bazis.Common.{
  ◌||◌, ◌&&◌, not, Bool, Option, none, some, text_eq, ◌==◌, is_some, if◌then◌else◌, Error, sentinel,
  forbidden, validation,
}
use testovoe_bazis.Domain.{Role, role_owner, role_admin, can_invite, is_owner_or_admin, TaskPatch}

pub record AccessInfo : Type 0 where
  pub team_role : Role
  pub is_creator : Bool
  pub is_assignee : Bool

unfoldable pub can_invite_with_role : Role → Role → Option Error
can_invite_with_role actor target =
    if not (can_invite actor)
    then some (sentinel forbidden)
    else if target == role_owner
    then some (sentinel validation)
    else if target == role_admin && not (actor == role_owner)
    then some (sentinel forbidden)
    else none

unfoldable pub can_update_task : TaskPatch → AccessInfo → Option Error
can_update_task patch info =
    if is_owner_or_admin info.team_role
    then none
    else if info.is_creator
    then none
    else if info.is_assignee
    then (if is_some patch.title || patch.assignee.is_set then some (sentinel forbidden) else none)
    else some (sentinel forbidden)
