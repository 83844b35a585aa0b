-- ===== src/Store/Database/Schema.antt =====
-- migrations/000001_init.up.sql: the tables, and when a row breaks a constraint of its table.
use testovoe_bazis.Common.{
  ℕ, ◌&&◌, ◌||◌, not, Bool, false, Option, none, some, List, ℤ, int_eq, text_eq, ◌==◌, ltb, Text,
  codes, byte_len, length, any, if◌then◌else◌, Error, mysql,
}
use testovoe_bazis.Domain.{User, Team, TeamMember, Task, TaskHistory, role_valid, status_valid}

pub record Tables : Type 0 where
  pub users : List User
  pub teams : List Team
  pub members : List TeamMember
  pub tasks : List Task
  pub history : List TaskHistory

-- The server's numbers: a key that is there already, a foreign key that is not, a text that does
-- not fit its column, a value outside an ENUM.
abbrev pub duplicate_key : Error
duplicate_key = mysql 1062

abbrev pub no_parent : Error
no_parent = mysql 1452

abbrev pub too_long : Error
too_long = mysql 1406

abbrev pub not_listed : Error
not_listed = mysql 1265

abbrev pub has_user : ℤ → Tables → Bool
has_user id t = any (λ (u : User). u.id == id) t.users

abbrev pub has_team : ℤ → Tables → Bool
has_team id t = any (λ (m : Team). m.id == id) t.teams

abbrev pub has_task : ℤ → Tables → Bool
has_task id t = any (λ (m : Task). m.id == id) t.tasks

abbrev pub is_membership : ℤ → ℤ → TeamMember → Bool
is_membership team_id user_id m = m.team_id == team_id && m.user_id == user_id

abbrev pub has_member : ℤ → ℤ → Tables → Bool
has_member team_id user_id t = any (is_membership team_id user_id) t.members

-- VARCHAR(n) counts characters, TEXT bytes.
abbrev pub longer_than : ℕ → Text → Bool
longer_than n s = ltb n (length s)

unfoldable pub long_text : Text → Bool
long_text s = ltb 65535 (byte_len s)

-- A nullable reference whose parent is not there.
unfoldable pub missing : (ℤ → Bool) → Option ℤ → Bool
missing has none = false
missing has (some id) = not (has id)

abbrev pub longer_value : ℕ → Option Text → Bool
longer_value n none = false
longer_value n (some s) = longer_than n s

-- The unique keys of `users` compare by the server's collation.
unfoldable pub user_row_error : (Text → Text → Bool) → User → Tables → Option Error
user_row_error collate u t =
    if longer_than 255 u.email || (longer_than 100 u.username || longer_than 255 u.password_hash)
    then some too_long
    else if any (λ (v : User). collate v.email u.email || collate v.username u.username) t.users
    then some duplicate_key
    else none

unfoldable pub team_row_error : Team → Tables → Option Error
team_row_error m t =
    if longer_than 120 m.name || long_text m.description
    then some too_long
    else if not (has_user m.created_by t)
    then some no_parent
    else none

unfoldable pub member_row_error : TeamMember → Tables → Option Error
member_row_error m t =
    if not (role_valid m.role)
    then some not_listed
    else if has_member m.team_id m.user_id t
    then some duplicate_key
    else if not (has_team m.team_id t)
        || (not (has_user m.user_id t) || missing (λ id. has_user id t) m.invited_by)
    then some no_parent
    else none

unfoldable pub task_row_error : Task → Tables → Option Error
task_row_error k t =
    if longer_than 200 k.title || long_text k.description
    then some too_long
    else if not (status_valid k.status)
    then some not_listed
    else if not (has_team k.team_id t)
        || (not (has_user k.created_by t) || missing (λ id. has_user id t) k.assignee_id)
    then some no_parent
    else none

unfoldable pub history_row_error : TaskHistory → Tables → Option Error
history_row_error h t =
    if longer_value 50 h.field || (longer_value 500 h.old_value || longer_value 500 h.new_value)
    then some too_long
    else if not (h.action == codes "created" || h.action == codes "updated")
    then some not_listed
    else if not (has_task h.task_id t) || not (has_user h.changed_by t)
    then some no_parent
    else none
