-- ===== src/Store/Audit.antt =====
-- `buildHistory` of internal/store/mysql/task_repo.go: a patch is applied to a task, field by
-- field, and each change is written down. The function returns the task that it mutates.
pub mod Effect
pub mod Silence
pub mod Columns
use testovoe_bazis.Common.{
  ℕ, not, Bool, true, false, Option, none, some, List, [], ◌∷◌, ◌++◌, ℤ, pos, int_eq, text_eq, ◌==◌,
  ltb, leb, Text, codes, length, take, format_int, if◌then◌else◌,
}
use testovoe_bazis.Domain.{
  Time, Task, TaskHistory, TaskPatch, TaskStatus, OptionalInt64, status_done,
}

-- `int64Ptr`
unfoldable pub int64_ptr : Option ℤ → Option Text
int64_ptr none = none
int64_ptr (some v) = some (format_int v)

unfoldable pub equal_str_ptr : Option Text → Option Text → Bool
equal_str_ptr none none = true
equal_str_ptr (some a) (some b) = a == b
equal_str_ptr _ _ = false

unfoldable pub truncate : Text → ℕ → Text
truncate s max = if leb (length s) max then s else take max s

abbrev pub History : Type 0
History = List TaskHistory

-- The state of the function: the task, and the entries so far.
abbrev pub Draft : Type 0
Draft = Task × History

-- The closure `record`.
unfoldable pub entry : ℤ → Task → Text → Option Text → Option Text → TaskHistory
entry actor_id task field old_value new_value = record {
  id = pos 0;
  task_id = task.id;
  changed_by = actor_id;
  action = codes "updated";
  field = some field;
  old_value = old_value;
  new_value = new_value;
  created_at = 0;
}

-- When a status is set, the time of completion is set or cleared with it.
abbrev pub completion : TaskStatus → Time → Option Time
completion status now = if status == status_done then some now else none

module _ (actor_id : ℤ) where
  abbrev noted : Draft → Text → Option Text → Option Text → History
  noted (task, history) field old_value new_value =
      history ++ (entry actor_id task field old_value new_value ∷ [])

  unfoldable pub change_title : Option Text → Draft → Draft
  change_title none d = d
  change_title (some title) d =
      if title == d.0.title
      then d
      else (record (d.0) { title = title }, noted d (codes "title") (some d.0.title) (some title))

  unfoldable pub change_description : Option Text → Draft → Draft
  change_description none d = d
  change_description (some description) d = if description == d.0.description then d else (
    record (d.0) { description = description },
    noted d (codes "description") (some (truncate d.0.description 500))
        (some (truncate description 500)),
  )

  unfoldable pub change_status : Option TaskStatus → Time → Draft → Draft
  change_status none now d = d
  change_status (some status) now d = if status == d.0.status then d else (
    record (d.0) { status = status; completed_at = completion status now },
    noted d (codes "status") (some d.0.status) (some status),
  )

  unfoldable pub change_assignee : OptionalInt64 → Draft → Draft
  change_assignee a d =
      let old_value = int64_ptr d.0.assignee_id in
      let new_value = int64_ptr a.value in
      if a.is_set
      then (
        record (d.0) { assignee_id = a.value },
        if equal_str_ptr old_value new_value
            then d.1
            else noted d (codes "assignee_id") old_value new_value,
      )
      else d

unfoldable pub build_history : Task → TaskPatch → ℤ → Time → Draft
build_history task patch actor_id now = change_assignee actor_id patch.assignee (
    change_status actor_id patch.status now (
      change_description actor_id patch.description (change_title actor_id patch.title (task, []))))
