-- ===== src/Service/Teams.antt =====
-- internal/service/team_service.go: creating teams and inviting members.
pub mod Inviting
use testovoe_bazis.Common.{
  ℕ, ◌&&◌, not, Bool, true, false, Option, none, some, List, [], ℤ, pos, ltb, int_eq, Text, text_eq,
  trim_space, to_lower, length, ◌==◌, if◌then◌else◌, Error, sentinel, not_found, forbidden,
  conflict, plain, shows_text, shows_number, wrap, invalid, error_is, Action, pure, ok, err,
  on_error, fail_if, check, ◌>>=◌, ◌>>◌,
}
use testovoe_bazis.Domain.{Role, role_member, role_valid, User, Team, TeamMember}
use testovoe_bazis.Service.Gateways.{TeamStore, UserGateway, EmailGateway}
use testovoe_bazis.Service.Authorization.{can_invite_with_role}

abbrev max_team_name_length : ℕ
max_team_name_length = 120

pub record InviteInput : Type 0 where
  pub user_id : ℤ
  pub email : Text
  pub role : Role

-- `InviteInput.Normalize`
unfoldable pub normalize_invite : (ℕ → ℕ) → InviteInput → InviteInput
normalize_invite lower r = record r {
  email = to_lower lower (trim_space r.email);
  role = if r.role == [] then role_member else r.role;
}

-- `InviteInput.Validate`
unfoldable pub validate_invite : InviteInput → Option Error
validate_invite r =
    let has_email = not (r.email == []) in
    let has_user_id = not (r.user_id == pos 0) in
    if has_email && has_user_id
    then some (invalid (plain "provide either user_id or email, not both"))
    else if not has_email && not has_user_id
    then some (invalid (plain "user_id or email is required"))
    else if not (role_valid r.role)
    then some (invalid (shows_text "unknown role" r.role))
    else none

pub record InviteResult : Type 0 where
  pub team_member : TeamMember
  pub notification_sent : Bool

-- `lower` is the table of `unicode.ToLower`.
pub record TeamService (W : Type 0) : Type 0 where
  pub teams : TeamStore W
  pub users : UserGateway W
  pub email : EmailGateway W
  pub lower : ℕ → ℕ

unfoldable pub team_name_error : Text → Option Error
team_name_error name =
    if name == []
    then some (invalid (plain "team name is required"))
    else if ltb max_team_name_length (length name)
    then some
        (invalid (shows_number "team name must be at most %d characters" max_team_name_length))
    else none

module _ {W : Type 0} (s : TeamService W) where
  open s use {teams, users, email, lower}

  unfoldable pub create_team : ℤ → Text → Text → Action W Team
  create_team actor_id name description = do
    check (team_name_error (trim_space name))
    teams.create (trim_space name) description actor_id

  unfoldable pub list_teams : ℤ → Action W (List Team)
  list_teams actor_id = teams.list_by_user actor_id

  -- The role of the actor, at the start of `Invite`.
  unfoldable pub actor_role : ℤ → ℤ → Action W Role
  actor_role team_id actor_id =
      on_error (teams.get_member_role team_id actor_id)
        (λ e. if error_is e not_found then sentinel forbidden else wrap (plain "get member role") e)

  unfoldable pub resolve_invitee : InviteInput → Action W User
  resolve_invitee req =
      if not (req.email == []) then users.get_by_email req.email else users.get_by_id req.user_id

  unfoldable pub load_invite_context : ℤ → ℤ → Action W (Team × User)
  load_invite_context team_id actor_id = do
    team ← on_error (teams.get team_id) (wrap (plain "get team"))
    actor ← on_error (users.get_by_id actor_id) (wrap (plain "get actor"))
    pure (team, actor)

  -- A failure to send is logged and reported as `false`.
  unfoldable pub notify_invitation : Text → Text → Text → Action W Bool
  notify_invitation address team_name inviter_name w =
      let (r, w') = email.send_invitation address team_name inviter_name w in
      (ok (elim r [ ok _ ↦ true | err _ ↦ false ]), w')

  abbrev new_member : ℤ → ℤ → ℤ → Role → TeamMember
  new_member team_id user_id actor_id role = record {
    team_id = team_id;
    user_id = user_id;
    role = role;
    invited_by = some actor_id;
    created_at = 0;
  }

  -- The checks of a resolved invitee that is about to join.
  unfoldable pub check_invitee : ℤ → ℤ → User → Action W (Unit {0})
  check_invitee actor_id team_id invitee = do
    fail_if (invitee.id == actor_id) (invalid (plain "cannot invite yourself"))
    already ← on_error (teams.is_member team_id invitee.id) (wrap (plain "check membership"))
    fail_if already (wrap (plain "user is already a member of the team") (sentinel conflict))

  -- `Invite` from the point where the request is normalised and allowed.
  unfoldable pub admit : ℤ → ℤ → InviteInput → Action W InviteResult
  admit actor_id team_id req = do
    invitee ← resolve_invitee req
    check_invitee actor_id team_id invitee
    context ← load_invite_context team_id actor_id
    teams.add_member team_id invitee.id actor_id req.role
    sent ← notify_invitation invitee.email context.0.name context.1.username
    pure (record {
      team_member = new_member team_id invitee.id actor_id req.role;
      notification_sent = sent;
    })

  unfoldable pub invite : ℤ → ℤ → InviteInput → Action W InviteResult
  invite actor_id team_id given = do
    role ← actor_role team_id actor_id
    let req = normalize_invite lower given
    check (validate_invite req)
    check (can_invite_with_role role req.role)
    admit actor_id team_id req
