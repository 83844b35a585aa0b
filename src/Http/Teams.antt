-- ===== src/Http/Teams.antt =====
-- internal/httpapi/handlers_teams.go: the requests about teams.
use testovoe_bazis.Common.{Option, List, Text, ◌>>=◌}
use testovoe_bazis.Domain.{Team}
use testovoe_bazis.Service.Teams.{TeamService, InviteInput, InviteResult}
use testovoe_bazis.Service.Teams as TeamOperations
use testovoe_bazis.Http.{Response, path_id}
use testovoe_bazis.Http.Requests.{Request, lift, current_user, decode_json, answer}

pub record CreateTeamRequest : Type 0 where
  pub name : Text
  pub description : Text

-- `encoding/json` on the bodies: `none` stands for an error.
pub record TeamCodec : Type 0 where
  pub create_team : Text → Option CreateTeamRequest
  pub invite : Text → Option InviteInput

module _ {W : Type 0} (s : TeamService W) (codec : TeamCodec) (r : Request) where
  -- `Handler.CreateTeam`
  unfoldable pub create_team : W → Response Team × W
  create_team = answer 201 do
    user_id ← lift (current_user r.user_id)
    req ← lift (decode_json (codec.create_team r.body))
    TeamOperations.create_team s user_id req.name req.description

  -- `Handler.ListTeams`
  unfoldable pub list_teams : W → Response (List Team) × W
  list_teams =
      answer 200 do user_id ← lift (current_user r.user_id); TeamOperations.list_teams s user_id

  -- `Handler.InviteToTeam`
  unfoldable pub invite_to_team : W → Response InviteResult × W
  invite_to_team = answer 201 do
    user_id ← lift (current_user r.user_id)
    team_id ← lift (path_id r.id)
    req ← lift (decode_json (codec.invite r.body))
    TeamOperations.invite s user_id team_id req
