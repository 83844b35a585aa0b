-- ===== src/Http/Router.antt =====
-- internal/httpapi/router.go: the routes, and the middleware around each group of them.
pub mod Guarded
use testovoe_bazis.Common.{
  ℕ, Bool, true, false, Option, none, some, List, [], ◌∷◌, ℤ, Text, codes, nat_eq, text_eq, ◌==◌,
  if◌then◌else◌, Result, Action,
}
use testovoe_bazis.Domain.{
  User, Team, Task, TaskHistory, TaskPage, TeamSummary, TopCreator, InvalidAssigneeTask,
}
use testovoe_bazis.Service.Auth.{AuthService}
use testovoe_bazis.Service.Teams.{TeamService, InviteResult}
use testovoe_bazis.Service.Tasks.{TaskService}
use testovoe_bazis.Service.Analytics.{AnalyticsService}
use testovoe_bazis.Http.{Payload, says, tells, shows, Response}
use testovoe_bazis.Http.Requests.{Request}
use testovoe_bazis.Http.Accounts.{AccountCodec}
use testovoe_bazis.Http.Accounts as Accounts
use testovoe_bazis.Http.Teams.{TeamCodec}
use testovoe_bazis.Http.Teams as Teams
use testovoe_bazis.Http.Tasks.{BodyCodec}
use testovoe_bazis.Http.Tasks as Tasks
use testovoe_bazis.Http.Reports as Reports
use testovoe_bazis.Http.Limits.{rate_limit}
use testovoe_bazis.Tokens.{Claims}
use testovoe_bazis.Tokens.Middleware.{auth_middleware}

-- What a response may show.
pub data Shown : Type 0 where
  user : User → Shown
  token : Text → Shown
  team : Team → Shown
  teams : List Team → Shown
  invitation : InviteResult → Shown
  task : Task → Shown
  page : TaskPage → Shown
  history : List TaskHistory → Shown
  summaries : List TeamSummary → Shown
  creators : List TopCreator → Shown
  assignees : List InvalidAssigneeTask → Shown

-- The handlers that the router names.
pub data Endpoint : Type 0 where
  health metrics register login : Endpoint
  create_team list_teams invite_to_team : Endpoint
  create_task list_tasks update_task task_history : Endpoint
  teams_summary top_creators invalid_assignees : Endpoint

-- `r.Group` with its middleware: none, the limiter, or the token and then the limiter.
pub data Group : Type 0 where
  open_group account_group member_group : Group

pub record Route : Type 0 where
  pub method : Text
  pub pattern : Text
  pub group : Group
  pub endpoint : Endpoint

abbrev route : Text → Text → Group → Endpoint → Route
route method pattern group endpoint = record {
  method = method;
  pattern = pattern;
  group = group;
  endpoint = endpoint;
}

-- `Handler.Router`
abbrev pub routes : List Route
routes =
    route (codes "GET") (codes "/health") open_group health
    ∷ route (codes "*") (codes "/metrics") open_group metrics
    ∷ route (codes "POST") (codes "/api/v1/register") account_group register
    ∷ route (codes "POST") (codes "/api/v1/login") account_group login
    ∷ route (codes "POST") (codes "/api/v1/teams") member_group create_team
    ∷ route (codes "GET") (codes "/api/v1/teams") member_group list_teams
    ∷ route (codes "POST") (codes "/api/v1/teams/{id}/invite") member_group invite_to_team
    ∷ route (codes "POST") (codes "/api/v1/tasks") member_group create_task
    ∷ route (codes "GET") (codes "/api/v1/tasks") member_group list_tasks
    ∷ route (codes "PUT") (codes "/api/v1/tasks/{id}") member_group update_task
    ∷ route (codes "GET") (codes "/api/v1/tasks/{id}/history") member_group task_history
    ∷ route (codes "GET") (codes "/api/v1/analytics/teams-summary") member_group teams_summary
    ∷ route (codes "GET") (codes "/api/v1/analytics/top-creators") member_group top_creators
    ∷ route (codes "GET") (codes "/api/v1/analytics/invalid-assignees") member_group
        invalid_assignees
    ∷ []

-- `Handler`: the services, the codecs of the bodies, the limiter, the check of a token
-- (`JWTManager.Parse` at the time of the request), and the page of promhttp.
pub record Handler (W : Type 0) : Type 0 where
  pub auth : AuthService W
  pub teams : TeamService W
  pub tasks : TaskService W
  pub analytics : AnalyticsService W
  pub account_codec : AccountCodec
  pub team_codec : TeamCodec
  pub task_codec : BodyCodec
  pub allow : Text → Action W Bool
  pub split_host_port : Text → Option Text
  pub parse_token : W → Text → Result Claims
  pub metrics_page : W → Response Shown × W
  pub observe : Text → Text → ℕ → W → W

-- A request that chi has matched with a route.
pub record Incoming : Type 0 where
  pub authorization : Text
  pub address : Text
  pub id : Text
  pub query : Text → Text
  pub body : Text

abbrev pub request : Incoming → Option ℤ → Request
request i user_id = record { user_id = user_id; id = i.id; query = i.query; body = i.body }

module _ {A : Type 0} (show : A → Shown) where
  abbrev shown_payload : Payload A → Payload Shown
  shown_payload (says s) = says s
  shown_payload (tells e) = tells e
  shown_payload (shows a) = shows (show a)

  abbrev shown_as : {W : Type 0} → Response A × W → Response Shown × W
  shown_as (r, w) = (record { status = r.status; payload = shown_payload r.payload }, w)

module _ {W : Type 0} (h : Handler W) where
  -- The handler of an endpoint.
  unfoldable pub dispatch : Endpoint → Request → W → Response Shown × W
  dispatch health r w = (record { status = 200; payload = says (codes "ok") }, w)
  dispatch metrics r w = h.metrics_page w
  dispatch register r w = shown_as user (Accounts.register h.auth h.account_codec r w)
  dispatch login r w = shown_as token (Accounts.login h.auth h.account_codec r w)
  dispatch create_team r w = shown_as team (Teams.create_team h.teams h.team_codec r w)
  dispatch list_teams r w = shown_as teams (Teams.list_teams h.teams h.team_codec r w)
  dispatch invite_to_team r w = shown_as invitation (Teams.invite_to_team h.teams h.team_codec r w)
  dispatch create_task r w = shown_as task (Tasks.create_task h.tasks h.task_codec r w)
  dispatch list_tasks r w = shown_as page (Tasks.list_tasks h.tasks h.task_codec r w)
  dispatch update_task r w = shown_as task (Tasks.update_task h.tasks h.task_codec r w)
  dispatch task_history r w = shown_as history (Tasks.task_history h.tasks h.task_codec r w)
  dispatch teams_summary r w = shown_as summaries (Reports.teams_summary h.analytics r w)
  dispatch top_creators r w = shown_as creators (Reports.top_creators h.analytics r w)
  dispatch invalid_assignees r w = shown_as assignees (Reports.invalid_assignees h.analytics r w)

  -- The limiter around a handler.
  abbrev pub limited : Endpoint → Incoming → Option ℤ → W → Response Shown × W
  limited e i user_id =
      rate_limit (dispatch e (request i user_id)) h.allow h.split_host_port user_id i.address

  -- The middleware of a group around a handler.
  unfoldable pub serve_group : Group → Endpoint → Incoming → W → Response Shown × W
  serve_group open_group e i w = dispatch e (request i none) w
  serve_group account_group e i w = limited e i none w
  serve_group member_group e i w =
      auth_middleware (λ user_id. limited e i (some user_id)) (h.parse_token w) i.authorization w

  abbrev status_or_ok : ℕ → ℕ
  status_or_ok status = if status == 0 then 200 else status

  abbrev pattern_or_unknown : Text → Text
  pattern_or_unknown pattern = if pattern == [] then codes "unknown" else pattern

  -- `Metrics.Middleware`, which counts every request behind its answer; the histogram of durations
  -- is left out.
  unfoldable pub count_request : Text → Text → Response Shown × W → Response Shown × W
  count_request method pattern (r, w) =
      (r, h.observe method (pattern_or_unknown pattern) (status_or_ok r.status) w)

  -- A request on a route.
  unfoldable pub serve : Route → Incoming → W → Response Shown × W
  serve r i w = count_request r.method r.pattern (serve_group r.group r.endpoint i w)
