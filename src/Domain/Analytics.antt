-- ===== src/Domain/Analytics.antt =====
-- internal/domain/analytics.go: the rows of the reports.
use testovoe_bazis.Common.{ℤ, Text}

pub record TeamSummary : Type 0 where
  pub team_id : ℤ
  pub team_name : Text
  pub members_count : ℤ
  pub done_last_7_days : ℤ

pub record TopCreator : Type 0 where
  pub team_id : ℤ
  pub team_name : Text
  pub user_id : ℤ
  pub username : Text
  pub tasks_created : ℤ
  pub rank_position : ℤ

pub record InvalidAssigneeTask : Type 0 where
  pub task_id : ℤ
  pub task_title : Text
  pub team_id : ℤ
  pub assignee_id : ℤ
