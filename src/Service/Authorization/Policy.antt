-- ===== src/Service/Authorization/Policy.antt =====
-- The rules of internal/service/authorization.go against the sentences of README.md.
use testovoe_bazis.Common.{
  ◌≡◌, ◌≢◌, ◌↔◌, ◌⊎◌, refl, true, false, none, some, arith, text_beq_iff, sentinel, forbidden,
  validation, text_beq,
}
use testovoe_bazis.Domain.{Role, role_owner, role_admin, can_invite, is_owner_or_admin, TaskPatch}
use testovoe_bazis.Service.Authorization.{AccessInfo, can_invite_with_role, can_update_task}

owner-ne-admin : text_beq role_owner role_admin ≡ false
unfolding text_beq
owner-ne-admin = refl

-- An owner invites anyone but an owner, an admin anyone but an owner or an admin.
abbrev pub MayInvite : Role → Role → Type 0
MayInvite actor target =
    ((actor ≡ role_owner) × (target ≢ role_owner))
    ⊎ ((actor ≡ role_admin) × (target ≢ role_owner) × (target ≢ role_admin))

-- `CanInviteWithRole` allows an invitation exactly when the actor is an owner and the new role is
-- not owner, or the actor is an admin and the new role is neither owner nor admin.
pub can_invite_with_role_iff :
    (actor target : Role) → (can_invite_with_role actor target ≡ none) ↔ MayInvite actor target
unfolding can_invite_with_role can_invite
can_invite_with_role_iff actor target = ground (
  arith,
  text_beq_iff actor role_owner,
  text_beq_iff actor role_admin,
  text_beq_iff target role_owner,
  text_beq_iff target role_admin,
  owner-ne-admin,
)

-- `CanInviteWithRole` answers `ErrValidation` exactly for an owner or admin who asks for a second
-- owner.
pub can_invite_with_role_refusal :
    (actor target : Role)
    → (can_invite_with_role actor target ≡ some (sentinel validation))
      ↔ (((actor ≡ role_owner) ⊎ (actor ≡ role_admin)) × (target ≡ role_owner))
unfolding can_invite_with_role can_invite
can_invite_with_role_refusal actor target = ground (
  arith,
  text_beq_iff actor role_owner,
  text_beq_iff actor role_admin,
  text_beq_iff target role_owner,
  text_beq_iff target role_admin,
)

-- README.md: owner, admin and author change any field; the assignee only status and description.
abbrev pub MayUpdate : TaskPatch → AccessInfo → Type 0
MayUpdate patch info =
    (info.team_role ≡ role_owner)
    ⊎ (info.team_role ≡ role_admin)
    ⊎ (info.is_creator ≡ true)
    ⊎ ((info.is_assignee ≡ true) × (patch.title ≡ none) × (patch.assignee.is_set ≡ false))

-- `CanUpdateTask` allows a patch exactly when the actor is an owner or admin of the team or created
-- the task, or is its assignee and the patch sets neither title nor assignee; it refuses any other
-- with `ErrForbidden`.
pub can_update_task_iff :
    (patch : TaskPatch) (info : AccessInfo)
    → ((can_update_task patch info ≡ none) ↔ MayUpdate patch info)
      × ((can_update_task patch info ≡ none)
          ⊎ (can_update_task patch info ≡ some (sentinel forbidden)))
unfolding can_update_task is_owner_or_admin
can_update_task_iff patch info =
    ground (arith, text_beq_iff info.team_role role_owner, text_beq_iff info.team_role role_admin)
