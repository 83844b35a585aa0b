-- ===== src/Service/Teams/Inviting.antt =====
-- `TeamService.Invite`: who can bring whom into a team, and in which role.
use testovoe_bazis.Common.{
  ◌≡◌, ◌≢◌, ◌⊎◌, inl, inr, true, false, none, [], ℤ, pos, arith, int_eq, int_beq_iff, text_eq,
  text_beq_iff, ◌==◌, Bool-cases, Option-cases, ok, outcome-cases, on_error-eq-ok,
}
use testovoe_bazis.Domain.{Role, role_valid, User}
use testovoe_bazis.Service.Authorization.{can_invite_with_role}
use testovoe_bazis.Service.Authorization.Policy.{MayInvite, can_invite_with_role_iff}
use testovoe_bazis.Service.Teams.{
  TeamService, InviteInput, InviteResult, normalize_invite, validate_invite, actor_role,
  resolve_invitee, load_invite_context, notify_invitation, check_invitee, new_member, admit, invite,
}

-- A normalised request names its invitee in exactly one way, and a known role.
pub record IsRequest (r : InviteInput) : Type 0 where
  pub one_way : ((r.email ≡ []) × (r.user_id ≢ pos 0)) ⊎ ((r.email ≢ []) × (r.user_id ≡ pos 0))
  pub role_known : role_valid r.role ≡ true

-- `InviteInput.Validate` accepts only requests with either an address or a user id, not both, and
-- one of the three roles.
pub validate_invite-IsRequest : (r : InviteInput) → validate_invite r ≡ none → IsRequest r
unfolding validate_invite
validate_invite-IsRequest r h =
    ground (arith, text_beq_iff r.email [], int_beq_iff r.user_id (pos 0))

module _ {W : Type 0} (s : TeamService W) (actor_id team_id : ℤ) where
  open s use {teams, users, email, lower}

  actor_role-eq-ok :
      (w : W) {role : Role} {w' : W}
      → actor_role s team_id actor_id w ≡ (ok role, w')
      → teams.get_member_role team_id actor_id w ≡ (ok role, w')
  unfolding actor_role
  actor_role-eq-ok w h = on_error-eq-ok (teams.get_member_role team_id actor_id) _ w h

  check_invitee-eq-ok :
      (invitee : User) (w : W) {u : Unit {0}} {w' : W}
      → check_invitee s actor_id team_id invitee w ≡ (ok u, w')
      → (invitee.id ≢ actor_id) × (teams.is_member team_id invitee.id w ≡ (ok false, w'))
  unfolding check_invitee
  check_invitee-eq-ok invitee w h = elim (Bool-cases (invitee.id == actor_id)) [
    | inl self ↦ absurd (ground arith)
    | inr other ↦ elim (outcome-cases (teams.is_member team_id invitee.id w)) [
      | inl (already, v, done) ↦ ground (arith, int_beq_iff invitee.id actor_id)
      | inr (e, v, failed) ↦ absurd (ground arith)
    ]
  ]

  -- The calls behind a successful invitation from the resolution of the invitee on.
  pub record Admitted (req : InviteInput) (w : W) (result : InviteResult) : Type 0 where
    pub invitee : User
    pub w1 : W
    pub w2 : W
    pub w3 : W
    pub w4 : W
    pub was_resolved : resolve_invitee s req w ≡ (ok invitee, w1)
    pub is_other : invitee.id ≢ actor_id
    pub was_new : teams.is_member team_id invitee.id w1 ≡ (ok false, w2)
    pub was_added : teams.add_member team_id invitee.id actor_id req.role w3 ≡ (ok tt, w4)
    pub answer : result.team_member ≡ new_member s team_id invitee.id actor_id req.role

  admit-Admitted :
      (req : InviteInput) (w : W) {result : InviteResult} {w' : W}
      → admit s actor_id team_id req w ≡ (ok result, w')
      → Admitted req w result
  unfolding admit notify_invitation
  admit-Admitted req w {result} {w'} h = elim (outcome-cases (resolve_invitee s req w)) [
    | inl (invitee, w1, first) ↦
        elim (outcome-cases (check_invitee s actor_id team_id invitee w1)) [
          | inl (u, w2, second) ↦ elim (outcome-cases (load_invite_context s team_id actor_id w2)) [
            | inl (context, w3, third) ↦
                elim (outcome-cases (teams.add_member team_id invitee.id actor_id req.role w3)) [
                  | inl (v, w4, fourth) ↦
                      let (other, new) = check_invitee-eq-ok invitee w1 second in
                      record {
                        invitee = invitee;
                        w1 = w1;
                        w2 = w2;
                        w3 = w3;
                        w4 = w4;
                        was_resolved = first;
                        is_other = other;
                        was_new = new;
                        was_added = fourth;
                        answer = ground arith;
                      }
                  | inr (e, w4, failed) ↦ absurd (ground arith)
                ]
            | inr (e, w3, failed) ↦ absurd (ground arith)
          ]
          | inr (e, w2, failed) ↦ absurd (ground arith)
        ]
    | inr (e, w1, failed) ↦ absurd (ground arith)
  ]

  -- A successful `Invite`: the actor's role in the team may give the role of the normalised
  -- request, which is a known one and names its invitee in one way; the invitee is not the actor,
  -- was no member, and was added with that role, on behalf of the actor.
  pub invite-Admitted :
      (given : InviteInput) (w : W) (result : InviteResult) (w' : W)
      → invite s actor_id team_id given w ≡ (ok result, w')
      → (role : Role) × (w1 : W) × (teams.get_member_role team_id actor_id w ≡ (ok role, w1))
        × MayInvite role (normalize_invite lower given).role
        × IsRequest (normalize_invite lower given)
        × Admitted (normalize_invite lower given) w1 result
  unfolding invite
  invite-Admitted given w result w' h =
      let req = normalize_invite lower given in
      elim (outcome-cases (actor_role s team_id actor_id w)) [
        | inl (role, w1, first) ↦ elim (Option-cases (validate_invite req)) [
          | inl valid ↦ elim (Option-cases (can_invite_with_role role req.role)) [
            | inl allowed ↦
                let rest : admit s actor_id team_id req w1 ≡ (ok result, w') = ground arith in
                (
                  role,
                  w1,
                  actor_role-eq-ok w first,
                  (can_invite_with_role_iff role req.role).0 allowed,
                  validate_invite-IsRequest req valid,
                  admit-Admitted req w1 rest,
                )
            | inr (e, refused) ↦ absurd (ground arith)
          ]
          | inr (e, bad) ↦ absurd (ground arith)
        ]
        | inr (e, w1, failed) ↦ absurd (ground arith)
      ]
