-- ===== src/Http/Reports.antt =====
-- internal/httpapi/handlers_analytics.go: the reports.
use testovoe_bazis.Common.{List, ◌>>=◌}
use testovoe_bazis.Domain.{TeamSummary, TopCreator, InvalidAssigneeTask}
use testovoe_bazis.Service.Analytics.{AnalyticsService}
use testovoe_bazis.Service.Analytics as AnalyticsOperations
use testovoe_bazis.Http.{Response}
use testovoe_bazis.Http.Requests.{Request, lift, current_user, answer}

module _ {W : Type 0} (s : AnalyticsService W) (r : Request) where
  -- `Handler.TeamsSummary`
  unfoldable pub teams_summary : W → Response (List TeamSummary) × W
  teams_summary =
      answer 200
        do user_id ← lift (current_user r.user_id); AnalyticsOperations.teams_summary s user_id

  -- `Handler.TopCreators`
  unfoldable pub top_creators : W → Response (List TopCreator) × W
  top_creators =
      answer 200
        do user_id ← lift (current_user r.user_id); AnalyticsOperations.top_creators s user_id

  -- `Handler.InvalidAssignees`
  unfoldable pub invalid_assignees : W → Response (List InvalidAssigneeTask) × W
  invalid_assignees =
      answer 200
        do user_id ← lift (current_user r.user_id); AnalyticsOperations.invalid_assignees s user_id
