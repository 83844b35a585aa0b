-- ===== src/App/Server.antt =====
-- The rest of the wiring of cmd/api/main.go: from a configuration to the handler that the server
-- runs.
pub mod Served
use testovoe_bazis.Common.{ℕ, ◌/◌, ℤ, Text, Bool, Option, Result, Action, pos_part}
use testovoe_bazis.Service.Gateways.{
  AnalyticsGateway, EmailGateway, PageCodec, PasswordHasher, TokenIssuer,
}
use testovoe_bazis.Service.Analytics.{AnalyticsService}
use testovoe_bazis.Store.Reports as AnalyticsRepository
use testovoe_bazis.Config.{Config}
use testovoe_bazis.Tokens.{JwtLibrary, JwtManager, generate, parse}
use testovoe_bazis.Mail.{MailLibrary, send_invitation}
use testovoe_bazis.Http.{Response}
use testovoe_bazis.Http.Accounts.{AccountCodec}
use testovoe_bazis.Http.Teams.{TeamCodec}
use testovoe_bazis.Http.Tasks.{BodyCodec}
use testovoe_bazis.Http.Router.{Handler, Shown}
use testovoe_bazis.App.{World, on_db, task_service, team_service, auth_service}

abbrev pub analytics_gateway : AnalyticsGateway World
analytics_gateway = record {
  team_summary = λ user_id. on_db (AnalyticsRepository.team_summary user_id);
  top_creators = λ user_id. on_db (AnalyticsRepository.top_creators user_id);
  invalid_assignees = λ user_id. on_db (AnalyticsRepository.invalid_assignees user_id);
}

-- `service.NewAnalyticsService(analyticsRepo)`
abbrev pub analytics_service : AnalyticsService World
analytics_service = record { repo = analytics_gateway }

-- What the program is linked with: JSON, bcrypt, the JWT library, the client of the mail service,
-- the tables of Unicode and of the server's collation; the clock in nanoseconds; and the answers of
-- the limiter and the page of promhttp, which keep their state elsewhere.
pub record Outside : Type 0 where
  pub page_codec : PageCodec
  pub account_codec : AccountCodec
  pub team_codec : TeamCodec
  pub task_codec : BodyCodec
  pub hasher : PasswordHasher World
  pub jwt : JwtLibrary
  pub mail : MailLibrary World
  pub lower : ℕ → ℕ
  pub collate : Text → Text → Bool
  pub clock : World → ℕ
  pub allow : ℤ → Text → World → Result Bool
  pub split_host_port : Text → Option Text
  pub metrics_page : World → Response Shown

module _ (outside : Outside) (cfg : Config) where
  -- `auth.NewJWTManager`
  abbrev pub jwt_manager : JwtManager
  jwt_manager = record { secret = cfg.jwt.secret; ttl = pos_part cfg.jwt.ttl }

  abbrev pub tokens : TokenIssuer World
  tokens = record {
    generate = λ user_id username w.
        (generate outside.jwt jwt_manager (outside.clock w) user_id username, w);
  }

  -- `email.NewHTTPSender`
  abbrev pub email_sender : EmailGateway World
  email_sender = record { send_invitation = send_invitation outside.mail cfg.email.base_url }

  -- The time to live of a page, in whole seconds.
  abbrev pub tasks_ttl : ℕ
  tasks_ttl = pos_part cfg.cache.tasks_ttl / 1000000000

  -- `httpapi.NewHandler` with what `run` passes to it.
  abbrev pub handler : Handler World
  handler = record {
    auth = auth_service outside.collate outside.lower tokens outside.hasher;
    teams = team_service outside.collate outside.lower email_sender;
    tasks = task_service tasks_ttl outside.page_codec;
    analytics = analytics_service;
    account_codec = outside.account_codec;
    team_codec = outside.team_codec;
    task_codec = outside.task_codec;
    allow = λ key w. (outside.allow cfg.rate_limit.requests_per_minute key w, w);
    split_host_port = outside.split_host_port;
    parse_token = λ w token. parse outside.jwt jwt_manager (outside.clock w) token;
    metrics_page = λ w. (outside.metrics_page w, w);
    observe = λ method pattern status w. w;
  }
