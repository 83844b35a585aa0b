-- ===== src/Tests/Rules.antt =====
-- Roles, invitations, credentials and paging numbers.
use testovoe_bazis.Common.{
  ℕ, ◌≡◌, ◌↔◌, ◌⊎◌, refl, true, false, none, some, [], ◌∷◌, pos, arith, Text, codes, ok, sentinel,
  text_beq, trim_space, to_lower, forbidden,
}
use testovoe_bazis.Domain.{Role, role_admin, role_member, role_valid, can_invite, User, TaskFilters}
use testovoe_bazis.Service.Gateways.{EmailGateway, TokenIssuer, PasswordHasher}
use testovoe_bazis.Service.Authorization.{AccessInfo, can_invite_with_role, can_update_task}
use testovoe_bazis.Service.Authorization.Policy.{
  MayInvite, MayUpdate, can_invite_with_role_iff, can_update_task_iff,
}
use testovoe_bazis.Service.Tasks.{page_of}
use testovoe_bazis.Service.Tasks.Listing.{page_of-has_next_overflow}
use testovoe_bazis.Service.Teams.{
  TeamService, InviteInput, InviteResult, normalize_invite, validate_invite, actor_role,
  resolve_invitee, load_invite_context, notify_invitation, check_invitee, admit, invite,
}
use testovoe_bazis.Service.Teams.Inviting.{IsRequest, Admitted, invite-Admitted}
use testovoe_bazis.Service.Auth.{AuthService, validate_credentials, register, login}
use testovoe_bazis.Service.Auth.Email.{matches_email, IsEmail, matches_email_iff}
use testovoe_bazis.Service.Auth.Login.{IsCredentials, login-eq-ok, normalised, register-eq-ok}
use testovoe_bazis.Store.Database.{member_row_error, user_row_error, missing}
use testovoe_bazis.Store.Teams as TeamRepository
use testovoe_bazis.Store.Users as UserRepository
use testovoe_bazis.App.{World, task_service, team_service, auth_service}
use testovoe_bazis.Tests.Data.{alice, bob, database, world, codec, done_patch, task_runs}

can_invite_with_role_iff_example :
    (can_invite_with_role role_admin role_member ≡ none) ↔ MayInvite role_admin role_member
can_invite_with_role_iff_example = can_invite_with_role_iff role_admin role_member

abbrev as_assignee : AccessInfo
as_assignee = record { team_role = role_member; is_creator = false; is_assignee = true }

can_update_task_iff_example :
    ((can_update_task done_patch as_assignee ≡ none) ↔ MayUpdate done_patch as_assignee)
    × ((can_update_task done_patch as_assignee ≡ none)
        ⊎ (can_update_task done_patch as_assignee ≡ some (sentinel forbidden)))
can_update_task_iff_example = can_update_task_iff done_patch as_assignee

abbrev same_letter : ℕ → ℕ
same_letter c = c

abbrev mail : EmailGateway World
mail = record { send_invitation = λ _ _ _ w. (ok tt, w) }

abbrev teams : TeamService World
teams = team_service text_beq same_letter mail

-- A third user, whom alice invites.
abbrev carol : User
carol = record alice { id = pos 3; email = codes "carol@example.org"; username = codes "carol" }

abbrev larger : World
larger = record world {
  db = record database {
    tables = record (database.tables) { users = alice ∷ bob ∷ carol ∷ [] };
    next_user = 4;
  };
}

abbrev request : InviteInput
request = record { user_id = pos 0; email = codes " carol@example.org"; role = role_admin }

abbrev invited_world : World
invited_world = (invite teams (pos 1) (pos 1) request larger).1

abbrev invited : InviteResult
invited = record {
  team_member = record {
    team_id = pos 1;
    user_id = pos 3;
    role = role_admin;
    invited_by = some (pos 1);
    created_at = 0;
  };
  notification_sent = true;
}

invite-Admitted_example :
    let req = normalize_invite same_letter request in
    (role : Role) × (w1 : World) × (teams.teams.get_member_role (pos 1) (pos 1) larger
      ≡ (ok role, w1))
    × MayInvite role req.role
    × IsRequest req
    × Admitted teams (pos 1) (pos 1) req w1 invited
unfolding task_runs invite admit actor_role resolve_invitee load_invite_context notify_invitation
    check_invitee normalize_invite validate_invite role_valid can_invite can_invite_with_role
    to_lower UserRepository.get_by_email UserRepository.get_by_id TeamRepository.get
    TeamRepository.add_member TeamRepository.insert_member member_row_error missing
invite-Admitted_example =
    invite-Admitted teams (pos 1) (pos 1) request larger invited invited_world refl

matches_email_iff_example : (matches_email (codes "a.b@c.d") ≡ true) ↔ IsEmail (codes "a.b@c.d")
matches_email_iff_example = matches_email_iff (codes "a.b@c.d")

-- A hash that is the password itself, and a token that is the name.
abbrev hasher : PasswordHasher World
hasher = record {
  generate_from_password = λ password w. (ok password, w);
  compare_hash_and_password = λ hash password. text_beq hash password;
}

abbrev tokens : TokenIssuer World
tokens = record { generate = λ _ name w. (ok name, w) }

abbrev auth : AuthService World
auth = auth_service text_beq same_letter tokens hasher

login-eq-ok_example :
    (u : User) × (w1 : World) × (auth.users.get_by_email
        (normalised auth (codes "bob@example.org"))
        world
      ≡ (ok u, w1))
    × (auth.hasher.compare_hash_and_password u.password_hash (codes "a") ≡ true)
    × (auth.tokens.generate u.id u.username w1 ≡ (ok (codes "bob"), world))
unfolding task_runs to_lower login UserRepository.get_by_email
login-eq-ok_example =
    login-eq-ok auth (codes "bob@example.org") (codes "a") world (codes "bob") world refl

abbrev dora : User
dora = record {
  id = pos 3;
  email = codes "d@e.f";
  username = codes "dora";
  password_hash = codes "password";
  created_at = 7;
}

abbrev dora_world : World
dora_world = (register auth (codes "d@e.f") (codes "dora") (codes "password") world).1

register-eq-ok_example :
    IsCredentials (normalised auth (codes "d@e.f")) (trim_space (codes "dora")) (codes "password")
    × ((hash : Text) × (w1 : World) × (auth.hasher.generate_from_password (codes "password") world
          ≡ (ok hash, w1))
        × (auth.users.create (normalised auth (codes "d@e.f")) (trim_space (codes "dora")) hash w1
            ≡ (ok dora, dora_world)))
unfolding task_runs to_lower register validate_credentials matches_email UserRepository.create
    UserRepository.insert_user UserRepository.get_by_id user_row_error
register-eq-ok_example =
    register-eq-ok auth (codes "d@e.f") (codes "dora") (codes "password") world dora dora_world refl

abbrev wide : TaskFilters
wide = record { team_id = pos 1; status = []; assignee_id = none; page = pos 2; per_page = pos 500 }

abbrev narrow : TaskFilters
narrow = record wide { per_page = pos 50 }

-- Page 184467440737095517 of 50 rows, of no rows at all.
abbrev far : TaskFilters
far = record narrow { page = pos (184467440737095517) }

page_of-has_next_overflow_example :
    (page_of (task_service 300 codec) far ([], pos 0)).has_next ≡ true
page_of-has_next_overflow_example =
    page_of-has_next_overflow (task_service 300 codec) far [] (184467440737095517) 50 0 refl refl
      (omega arith) (omega arith)
