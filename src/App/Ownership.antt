-- ===== src/App/Ownership.antt =====
-- The team service over the database: every team has one owner, whatever is asked of
-- internal/service/team_service.go.
pub mod Teams
use testovoe_bazis.Common.{
  ℕ, ◌≡◌, ◌≢◌, ◌≤◌, refl, sym, ap, subst, ◌∙◌, inl, inr, true, false, Bool, Bool-cases, Option,
  none, some, [], List, ℤ, Text, arith, Error, Result, ok, err, Action, pure, check, fail_if,
  on_error, ◌>>=◌, ◌>>◌, text_eq, ◌==◌, not, trim_space, int_eq, invalid, plain, wrap, sentinel,
  conflict, forbidden, not_found, error_is,
}
use testovoe_bazis.Domain.{Role, User, Team, role_owner}
use testovoe_bazis.Service.Gateways.{EmailGateway}
use testovoe_bazis.Service.Authorization.{can_invite_with_role}
use testovoe_bazis.Service.Authorization.Policy.{MayInvite, can_invite_with_role_iff}
use testovoe_bazis.Service.Teams.{
  TeamService, InviteInput, InviteResult, normalize_invite, validate_invite, team_name_error,
  create_team, actor_role, resolve_invitee, load_invite_context, notify_invitation, check_invitee,
  admit, invite,
}
use testovoe_bazis.Store.Database.{Database, statement}
use testovoe_bazis.Store.Teams as TeamRepository
use testovoe_bazis.Store.Users as UserRepository
use testovoe_bazis.Store.Teams.Owners.{IsOwned}
use testovoe_bazis.Store.Teams.Owning.{create-IsOwned, add_member-IsOwned}
use testovoe_bazis.App.{World, on_db, team_service}
use testovoe_bazis.App.Preserving.{
  Preserves, Preserves->>=, Preserves-on_error, Preserves-pure, Preserves-check, Preserves-fail_if,
}

-- Every team has exactly one owner, in the database of the world.
abbrev pub Owned : World → Type 0
Owned w = IsOwned w.db.tables w.db.next_team

-- A call that reads the database, as far as teams go.
unfoldable pub Looks : {A : Type 0} → Action Database A → Type 0
Looks m = (db : Database) → ((m db).1.tables ≡ db.tables) × ((m db).1.next_team ≡ db.next_team)

Preserves-look : {A : Type 0} (m : Action Database A) → Looks m → Preserves Owned (on_db m)
unfolding Preserves Looks
Preserves-look m looks w c =
    let (tables, next) = looks w.db in
    subst (λ n. IsOwned (m w.db).1.tables n) (sym next)
      (subst (λ t. IsOwned t w.db.next_team) (sym tables) c)

Preserves-get_member_role :
    (team_id user_id : ℤ) → Preserves Owned (on_db (TeamRepository.get_member_role team_id user_id))
unfolding Looks TeamRepository.get_member_role statement
Preserves-get_member_role team_id user_id =
    Preserves-look (TeamRepository.get_member_role team_id user_id) (λ db. ground arith)

Preserves-is_member :
    (team_id user_id : ℤ) → Preserves Owned (on_db (TeamRepository.is_member team_id user_id))
unfolding Looks TeamRepository.is_member statement
Preserves-is_member team_id user_id =
    Preserves-look (TeamRepository.is_member team_id user_id) (λ db. ground arith)

Preserves-get_team : (id : ℤ) → Preserves Owned (on_db (TeamRepository.get id))
unfolding Looks TeamRepository.get statement
Preserves-get_team id = Preserves-look (TeamRepository.get id) (λ db. ground arith)

Preserves-get_by_id : (id : ℤ) → Preserves Owned (on_db (UserRepository.get_by_id id))
unfolding Looks UserRepository.get_by_id statement
Preserves-get_by_id id = Preserves-look (UserRepository.get_by_id id) (λ db. ground arith)

-- Sending mail leaves the database alone.
unfoldable pub LeavesDatabase : EmailGateway World → Type 0
LeavesDatabase email =
    (address team inviter : Text) (w : World)
    → (email.send_invitation address team inviter w).1.db ≡ w.db

Preserves-guarded :
    {A : Type 0} (o : Option Error) (m : Action World A)
    → (o ≡ none → Preserves Owned m)
    → Preserves Owned (check o >> m)
unfolding Preserves
Preserves-guarded none m h w c = h refl w c
Preserves-guarded (some e) m h w c = c

module _ (collate : Text → Text → Bool) (lower : ℕ → ℕ) (email : EmailGateway World)
    (apart : LeavesDatabase email) where
  abbrev s : TeamService World
  s = team_service collate lower email

  create-Owned :
      (name description : Text) (creator_id : ℤ)
      → Preserves Owned (on_db (TeamRepository.create name description creator_id))
  unfolding Preserves
  create-Owned name description creator_id w c = create-IsOwned name description creator_id w.db c

  -- `CreateTeam` keeps every team with one owner.
  pub create_team-Owned :
      (actor_id : ℤ) (name description : Text)
      → Preserves Owned (create_team s actor_id name description)
  unfolding create_team
  create_team-Owned actor_id name description =
      Preserves->>= Owned _ _ (Preserves-check Owned (team_name_error (trim_space name)))
        (λ _. create-Owned (trim_space name) description actor_id)

  Preserves-get_by_email :
      (address : Text) → Preserves Owned (on_db (UserRepository.get_by_email collate address))
  unfolding Looks UserRepository.get_by_email statement
  Preserves-get_by_email address =
      Preserves-look (UserRepository.get_by_email collate address) (λ db. ground arith)

  resolve_invitee-Owned : (req : InviteInput) → Preserves Owned (resolve_invitee s req)
  unfolding resolve_invitee
  resolve_invitee-Owned req = elim (Bool-cases (req.email == [])) [
    | inl missing ↦ rw missing (Preserves-get_by_id req.user_id)
    | inr given ↦ rw given (Preserves-get_by_email req.email)
  ]

  notify_invitation-Owned :
      (address team inviter : Text) → Preserves Owned (notify_invitation s address team inviter)
  unfolding notify_invitation Preserves LeavesDatabase
  notify_invitation-Owned address team inviter w c =
      subst (λ (d : Database). IsOwned d.tables d.next_team) (sym (apart address team inviter w)) c

  check_invitee-Owned :
      (actor_id team_id : ℤ) (invitee : User)
      → Preserves Owned (check_invitee s actor_id team_id invitee)
  unfolding check_invitee
  check_invitee-Owned actor_id team_id invitee =
      Preserves->>= Owned _ _
        (Preserves-fail_if Owned (invitee.id == actor_id)
          (invalid (plain "cannot invite yourself")))
        (λ _.
          Preserves->>= Owned _ _
            (Preserves-on_error Owned (on_db (TeamRepository.is_member team_id invitee.id)) _
              (Preserves-is_member team_id invitee.id))
            (λ already. Preserves-fail_if Owned already _))

  load_invite_context-Owned :
      (team_id actor_id : ℤ) → Preserves Owned (load_invite_context s team_id actor_id)
  unfolding load_invite_context
  load_invite_context-Owned team_id actor_id =
      Preserves->>= Owned _ _
        (Preserves-on_error Owned (on_db (TeamRepository.get team_id)) _
          (Preserves-get_team team_id))
        (λ team.
          Preserves->>= Owned _ _
            (Preserves-on_error Owned (on_db (UserRepository.get_by_id actor_id)) _
              (Preserves-get_by_id actor_id))
            (λ actor. Preserves-pure Owned (team, actor)))

  add_member-Owned :
      (team_id user_id invited_by : ℤ) (role : Role)
      → role ≢ role_owner
      → Preserves Owned (on_db (TeamRepository.add_member team_id user_id invited_by role))
  unfolding Preserves
  add_member-Owned team_id user_id invited_by role other w c =
      add_member-IsOwned team_id user_id invited_by role w.db other c

  admit-Owned :
      (actor_id team_id : ℤ) (req : InviteInput)
      → req.role ≢ role_owner
      → Preserves Owned (admit s actor_id team_id req)
  unfolding admit
  admit-Owned actor_id team_id req other =
      Preserves->>= Owned _ _ (resolve_invitee-Owned req) (λ invitee.
        Preserves->>= Owned _ _ (check_invitee-Owned actor_id team_id invitee) (λ _.
          Preserves->>= Owned _ _ (load_invite_context-Owned team_id actor_id) (λ context.
            Preserves->>= Owned _ _ (add_member-Owned team_id invitee.id actor_id req.role other)
              (λ _.
                Preserves->>= Owned _ _
                  (notify_invitation-Owned invitee.email context.0.name context.1.username)
                  (λ sent. Preserves-pure Owned _)))))

  -- `Invite` keeps every team with one owner.
  pub invite-Owned :
      (actor_id team_id : ℤ) (given : InviteInput)
      → Preserves Owned (invite s actor_id team_id given)
  unfolding invite actor_role
  invite-Owned actor_id team_id given =
      let req = normalize_invite lower given in
      Preserves->>= Owned _ _
        (Preserves-on_error Owned (on_db (TeamRepository.get_member_role team_id actor_id)) _
          (Preserves-get_member_role team_id actor_id))
        (λ role. Preserves->>= Owned _ _ (Preserves-check Owned (validate_invite req)) (λ _.
          Preserves-guarded (can_invite_with_role role req.role) (admit s actor_id team_id req)
            (λ allowed.
              let may = (can_invite_with_role_iff role req.role).0 allowed in
              admit-Owned actor_id team_id req (λ e. absurd (ground arith)))))
