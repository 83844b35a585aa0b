-- ===== src/Store/Reports.antt =====
-- internal/store/mysql/analytics_repo.go: the queries of the reports, as functions on the tables.
pub mod Assignees
pub mod Creators
pub mod Places
pub mod Listing
use testovoe_bazis.Common.{
  ℕ, suc, ◌+◌, ◌*◌, ◌&&◌, ◌||◌, not, Bool, true, false, Option, none, some, List, [], ◌∷◌, ◌++◌,
  map, ℤ, pos, int_eq, text_eq, nat_eq, ◌==◌, leb, ltb, ltb_ℤ, Text, length, select, any,
  if◌then◌else◌, is_some, wrap, plain, Action, on_error, Result, ok, err,
}
use testovoe_bazis.Domain.{
  Time, Team, TeamMember, Task, User, TeamSummary, TopCreator, InvalidAssigneeTask, status_done,
}
use testovoe_bazis.Store.Database.{
  Database, Tables, query, statement, now, is_membership, has_member,
}
use testovoe_bazis.Store.Teams.{find_team}
use testovoe_bazis.Store.Users.{find_user}

-- ORDER BY, by insertion: `before` says which row comes first.
module _ {A : Type 0} (before : A → A → Bool) where
  unfoldable pub insert_row : A → List A → List A
  insert_row x [] = x ∷ []
  insert_row x (y ∷ ys) = let rest = insert_row x ys in if before y x then y ∷ rest else x ∷ y ∷ ys

  unfoldable pub order_rows : List A → List A
  order_rows [] = []
  order_rows (x ∷ xs) = insert_row x (order_rows xs)

-- An inner join with the memberships of a user in a team: the row once for each.
unfoldable pub join_member : {A : Type 0} → (A → ℤ) → ℤ → List TeamMember → List A → List A
join_member team_id user_id members [] = []
join_member team_id user_id members (x ∷ xs) =
    map (λ _. x) (select (is_membership (team_id x) user_id) members)
    ++ join_member team_id user_id members xs

-- `UTC_TIMESTAMP() - INTERVAL n DAY`, compared with a time: at or after it.
abbrev pub within_days : ℕ → Time → Time → Bool
within_days n now at = leb now (at + n * 86400)

abbrev completed_within : ℕ → Time → Option Time → Bool
completed_within n now none = false
completed_within n now (some at) = within_days n now at

-- Team summary.
abbrev team_key : Team → ℤ
team_key m = m.id

unfoldable pub summary_of : Time → Tables → Team → TeamSummary
summary_of now t m = record {
  team_id = m.id;
  team_name = m.name;
  members_count = pos (length (select (λ (x : TeamMember). x.team_id == m.id) t.members));
  done_last_7_days = pos (
      length (
        select
          (λ (k : Task).
            k.team_id == m.id && (k.status == status_done && completed_within 7 now k.completed_at))
          t.tasks));
}

unfoldable pub team_summary_rows : ℤ → Time → Tables → List TeamSummary
team_summary_rows user_id now t =
    map (summary_of now t) (
      order_rows (λ (a b : Team). ltb_ℤ a.id b.id) (join_member team_key user_id t.members t.teams))

-- Top creators: `created_stats`, with a row for each team and creator.
pub record CreatedStats : Type 0 where
  pub team_id : ℤ
  pub user_id : ℤ
  pub tasks_created : ℕ

abbrev task_team : Task → ℤ
task_team k = k.team_id

unfoldable pub recent_tasks : ℤ → Time → Tables → List Task
recent_tasks viewer now t =
    select (λ (k : Task). within_days 30 now k.created_at)
      (join_member task_team viewer t.members t.tasks)

abbrev pub by_creator : ℤ → ℤ → Task → Bool
by_creator team_id user_id k = k.team_id == team_id && k.created_by == user_id

-- GROUP BY: a row for the first task of each team and creator, with the count of all of them.
unfoldable pub group_stats : List Task → List Task → List CreatedStats
group_stats whole [] = []
group_stats whole (k ∷ ks) =
    let rest = group_stats whole ks in
    if any (by_creator k.team_id k.created_by) ks
    then rest
    else record {
      team_id = k.team_id;
      user_id = k.created_by;
      tasks_created = length (select (by_creator k.team_id k.created_by) whole);
    }
      ∷ rest

unfoldable pub created_stats : ℤ → Time → Tables → List CreatedStats
created_stats viewer now t = let ks = recent_tasks viewer now t in group_stats ks ks

-- `ORDER BY tasks_created DESC, user_id ASC` inside a team.
unfoldable pub ranks_before : CreatedStats → CreatedStats → Bool
ranks_before a b =
    a.team_id == b.team_id
    && (ltb b.tasks_created a.tasks_created
        || (a.tasks_created == b.tasks_created && ltb_ℤ a.user_id b.user_id))

-- ROW_NUMBER: one more than the rows of the team that come before.
unfoldable pub row_number : List CreatedStats → CreatedStats → ℕ
row_number rows s = suc (length (select (λ r. ranks_before r s) rows))

abbrev creator_row : ℕ → CreatedStats → Option Team → Option User → List TopCreator
creator_row rank s (some m) (some u) =
    record {
      team_id = s.team_id;
      team_name = m.name;
      user_id = s.user_id;
      username = u.username;
      tasks_created = pos s.tasks_created;
      rank_position = pos rank;
    }
    ∷ []
creator_row rank s (some m) none = []
creator_row rank s none _ = []

-- `ranked` joined with the teams and the users, up to the third place.
unfoldable pub creator_rows : Tables → List CreatedStats → List CreatedStats → List TopCreator
creator_rows t whole [] = []
creator_rows t whole (s ∷ ss) =
    let rest = creator_rows t whole ss in
    if leb (row_number whole s) 3
    then creator_row (row_number whole s) s (find_team s.team_id t) (find_user s.user_id t) ++ rest
    else rest

abbrev creator_before : TopCreator → TopCreator → Bool
creator_before a b =
    ltb_ℤ a.team_id b.team_id || (a.team_id == b.team_id && ltb_ℤ a.rank_position b.rank_position)

unfoldable pub top_creators_rows : ℤ → Time → Tables → List TopCreator
top_creators_rows viewer now t =
    let stats = created_stats viewer now t in order_rows creator_before (creator_rows t stats stats)

-- Invalid assignees: a task with an assignee who is not in its team any more.
unfoldable pub invalid_row : Tables → Task → Option ℤ → List InvalidAssigneeTask
invalid_row t k none = []
invalid_row t k (some user_id) =
    if has_member k.team_id user_id t
    then []
    else record { task_id = k.id; task_title = k.title; team_id = k.team_id; assignee_id = user_id }
      ∷ []

unfoldable pub invalid_rows : Tables → List Task → List InvalidAssigneeTask
invalid_rows t [] = []
invalid_rows t (k ∷ ks) = invalid_row t k k.assignee_id ++ invalid_rows t ks

unfoldable pub invalid_assignees_rows : ℤ → Tables → List InvalidAssigneeTask
invalid_assignees_rows viewer t =
    invalid_rows t (
      order_rows (λ (a b : Task). ltb_ℤ a.id b.id) (join_member task_team viewer t.members t.tasks))

-- `AnalyticsRepository.TeamSummary`
unfoldable pub team_summary : ℤ → Action Database (List TeamSummary)
team_summary user_id db =
    on_error (query (team_summary_rows user_id (now db))) (wrap (plain "select team summary: %w"))
      db

-- `AnalyticsRepository.TopCreators`
unfoldable pub top_creators : ℤ → Action Database (List TopCreator)
top_creators user_id db =
    on_error (query (top_creators_rows user_id (now db))) (wrap (plain "select top creators: %w"))
      db

-- `AnalyticsRepository.InvalidAssignees`
unfoldable pub invalid_assignees : ℤ → Action Database (List InvalidAssigneeTask)
invalid_assignees user_id =
    on_error (query (invalid_assignees_rows user_id)) (wrap (plain "select invalid assignees: %w"))
