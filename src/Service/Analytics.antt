-- ===== src/Service/Analytics.antt =====
-- internal/service/analytics_service.go: the reports pass through.
use testovoe_bazis.Common.{List, ℤ, Action}
use testovoe_bazis.Domain.{TeamSummary, TopCreator, InvalidAssigneeTask}
use testovoe_bazis.Service.Gateways.{AnalyticsGateway}

pub record AnalyticsService (W : Type 0) : Type 0 where
  pub repo : AnalyticsGateway W

module _ {W : Type 0} (s : AnalyticsService W) where
  unfoldable pub teams_summary : ℤ → Action W (List TeamSummary)
  teams_summary actor_id = s.repo.team_summary actor_id

  unfoldable pub top_creators : ℤ → Action W (List TopCreator)
  top_creators actor_id = s.repo.top_creators actor_id

  unfoldable pub invalid_assignees : ℤ → Action W (List InvalidAssigneeTask)
  invalid_assignees actor_id = s.repo.invalid_assignees actor_id
