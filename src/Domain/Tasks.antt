-- ===== src/Domain/Tasks.antt =====
-- internal/domain/task.go: tasks, their history, filters, patches and pages.
use testovoe_bazis.Common.{
  ℕ, ◌||◌, ◌&&◌, not, Bool, Option, none, some, List, [], ℤ, pos, ltb_ℤ, leb_ℤ, Text, codes,
  text_eq, ◌==◌, is_some, if◌then◌else◌, Error, plain, shows_text, invalid,
}
use testovoe_bazis.Domain.Models.{Time}

-- `type TaskStatus string`
abbrev pub TaskStatus : Type 0
TaskStatus = Text

abbrev pub status_todo : TaskStatus
status_todo = codes "todo"

abbrev pub status_in_progress : TaskStatus
status_in_progress = codes "in_progress"

abbrev pub status_done : TaskStatus
status_done = codes "done"

-- `TaskStatus.Valid`
unfoldable pub status_valid : TaskStatus → Bool
status_valid s = s == status_todo || (s == status_in_progress || s == status_done)

abbrev pub max_task_title_length : ℕ
max_task_title_length = 200

abbrev pub default_page_size : ℕ
default_page_size = 20

abbrev pub max_page_size : ℕ
max_page_size = 100

pub record Task : Type 0 where
  pub id : ℤ
  pub team_id : ℤ
  pub title : Text
  pub description : Text
  pub status : TaskStatus
  pub assignee_id : Option ℤ
  pub created_by : ℤ
  pub created_at : Time
  pub updated_at : Time
  pub completed_at : Option Time

pub record TaskHistory : Type 0 where
  pub id : ℤ
  pub task_id : ℤ
  pub changed_by : ℤ
  pub action : Text
  pub field : Option Text
  pub old_value : Option Text
  pub new_value : Option Text
  pub created_at : Time

pub record TaskFilters : Type 0 where
  pub team_id : ℤ
  pub status : Text
  pub assignee_id : Option ℤ
  pub page : ℤ
  pub per_page : ℤ

-- The bounds that `Normalize` puts on the two paging numbers, one at a time.
unfoldable pub clamp_page : ℤ → ℤ
clamp_page page = if ltb_ℤ page (pos 1) then pos 1 else page

unfoldable pub clamp_per_page : ℤ → ℤ
clamp_per_page per_page =
    let sized = if leb_ℤ per_page (pos 0) then pos default_page_size else per_page in
    if ltb_ℤ (pos max_page_size) sized then pos max_page_size else sized

-- `TaskFilters.Normalize`
unfoldable pub normalize : TaskFilters → TaskFilters
normalize f = record f { page = clamp_page f.page; per_page = clamp_per_page f.per_page }

-- `TaskFilters.Validate`
unfoldable pub validate : TaskFilters → Option Error
validate f =
    if leb_ℤ f.team_id (pos 0)
    then some (invalid (plain "team_id is required"))
    else if not (f.status == []) && not (status_valid f.status)
    then some (invalid (shows_text "unknown status" f.status))
    else none

-- `OptionalInt64`: a field that may be absent, null or a number.
pub record OptionalInt64 : Type 0 where
  pub is_set : Bool
  pub value : Option ℤ

pub record TaskPatch : Type 0 where
  pub title : Option Text
  pub description : Option Text
  pub status : Option TaskStatus
  pub assignee : OptionalInt64

-- `TaskPatch.Empty`
unfoldable pub patch_empty : TaskPatch → Bool
patch_empty p =
    not (is_some p.title)
    && not (is_some p.description)
    && not (is_some p.status)
    && not p.assignee.is_set

pub record TaskPage : Type 0 where
  pub items : List Task
  pub total : ℤ
  pub page : ℤ
  pub per_page : ℤ
  pub has_next : Bool
