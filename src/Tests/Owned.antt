-- ===== src/Tests/Owned.antt =====
-- A second team is founded, and a third user is invited to the first.
use testovoe_bazis.Common.{◌≡◌, refl, pos, [], All, text_beq, codes, ok, arith}
use testovoe_bazis.Domain.{Team, role_owner}
use testovoe_bazis.Service.Teams.{InviteInput, create_team, invite}
use testovoe_bazis.Service.Gateways.{EmailGateway}
use testovoe_bazis.Store.Teams.Owners.{owners}
use testovoe_bazis.App.{World, team_service}
use testovoe_bazis.App.Ownership.{Owned, LeavesDatabase}
use testovoe_bazis.App.Ownership.Teams.{TeamRun, begun, followed, founded, invited, one_owner}
use testovoe_bazis.Tests.Data.{world}

abbrev mail : EmailGateway World
mail = record { send_invitation = λ _ _ _ w. (ok tt, w) }

mail-LeavesDatabase : LeavesDatabase mail
unfolding LeavesDatabase
mail-LeavesDatabase address team inviter w = refl

abbrev two_teams : World
two_teams = (create_team (team_service text_beq (λ c. c) mail) (pos 2) (codes "shore") [] world).1

abbrev asked : InviteInput
asked = record { user_id = pos 1; email = []; role = role_owner }

abbrev refused : World
refused = (invite (team_service text_beq (λ c. c) mail) (pos 2) (pos 2) asked two_teams).1

world-Owned : Owned world
unfolding text_beq
world-Owned = record {
  teams_below = (omega arith, tt);
  members_below = (omega arith, (omega arith, tt));
  owned = (refl, tt);
}

run : TeamRun text_beq (λ c. c) mail world refused
run =
    followed two_teams refused
      (followed world two_teams begun (founded (pos 2) (codes "shore") [] world two_teams refl))
      (invited (pos 2) (pos 2) asked two_teams refused refl)

one_owner_example :
    All (λ (m : Team). owners m.id refused.db.tables.members ≡ 1) refused.db.tables.teams
one_owner_example =
    one_owner text_beq (λ c. c) mail mail-LeavesDatabase world refused world-Owned run
