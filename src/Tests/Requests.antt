-- ===== src/Tests/Requests.antt =====
-- Requests to the task service, over the database.
use testovoe_bazis.Common.{refl, inr, false, none, some, [], ◌∷◌, pos, codes, text_eq, trim_space}
use testovoe_bazis.Domain.{TaskFilters, TaskPage, Task, TaskPatch, status_todo, status_done}
use testovoe_bazis.Service.Tasks as TaskOperations
use testovoe_bazis.Service.Tasks.{
  CreateTaskInput, new_task, load_page, title_error, status_error, initial_status, member_role,
  check_assignee, authorize, update_checked,
}
use testovoe_bazis.Service.Tasks.Checks.{IsTitle}
use testovoe_bazis.Service.Tasks.Updating.{
  SetsSomething, trim?, IsTitle?, IsKnown?, Checked, update-Checked,
}
use testovoe_bazis.Service.Tasks.Rejecting.{IsBadStatus, IsInvalid, update_bad_request}
use testovoe_bazis.Service.Tasks.Creating.{Created, create-Created}
use testovoe_bazis.App.{World, task_service}
use testovoe_bazis.App.Authorized.{Authorized, Added, update-Authorized, create-Authorized}
use testovoe_bazis.Tests.Data.{plan, world, codec, done_patch, done_plan, task_runs}

abbrev done_world : World
done_world = (TaskOperations.update (task_service 300 codec) (pos 2) (pos 1) done_patch world).1

update-Authorized_example :
    Authorized 300 codec (pos 2) (pos 1) done_patch world done_plan done_world
unfolding task_runs
update-Authorized_example =
    update-Authorized 300 codec (pos 2) (pos 1) done_patch world done_plan done_world refl

abbrev new_input : CreateTaskInput
new_input = record {
  team_id = pos 1;
  title = codes " review ";
  description = [];
  status = [];
  assignee_id = some (pos 1);
}

abbrev review : Task
review = record {
  id = pos 2;
  team_id = pos 1;
  title = codes "review";
  description = [];
  status = status_todo;
  assignee_id = some (pos 1);
  created_by = pos 2;
  created_at = 7;
  updated_at = 7;
  completed_at = none;
}

abbrev review_world : World
review_world = (TaskOperations.create (task_service 300 codec) (pos 2) new_input world).1

create-Authorized_example : Added 300 codec (pos 2) new_input world review review_world
unfolding task_runs
create-Authorized_example =
    create-Authorized 300 codec (pos 2) new_input world review review_world refl

update-Checked_example :
    SetsSomething done_patch
    × IsKnown? (some status_done)
    × IsTitle? (trim? none)
    × Checked
        (task_service 300 codec)
        (pos 2)
        (pos 1)
        (record done_patch { title = trim? none })
        world
        done_plan
        done_world
unfolding task_runs
update-Checked_example =
    update-Checked (task_service 300 codec) (pos 2) (pos 1) done_patch world done_plan done_world
      refl

create-Created_example :
    IsTitle (trim_space (codes " review "))
    × Created (task_service 300 codec) (pos 2) new_input world review review_world
unfolding task_runs
create-Created_example =
    create-Created (task_service 300 codec) (pos 2) new_input world review review_world refl

-- A patch that sets a status that does not exist.
abbrev blank_patch : TaskPatch
blank_patch = record done_patch { status = some [] }

blank-IsBadStatus : IsBadStatus []
blank-IsBadStatus = (λ e. cc, λ e. cc, λ e. cc)

update_bad_request_example :
    IsInvalid world
      (TaskOperations.update (task_service 300 codec) (pos 2) (pos 1) blank_patch world)
update_bad_request_example =
    update_bad_request (task_service 300 codec) (pos 2) (pos 1) blank_patch world
      (inr (inr blank-IsBadStatus))

-- A user who is in no team asks.
abbrev stranger_world : World
stranger_world = world

abbrev asked : TaskFilters
asked = record {
  team_id = pos 1;
  status = [];
  assignee_id = none;
  page = pos 0;
  per_page = pos 500;
}

abbrev listed_world : World
listed_world = (TaskOperations.list (task_service 300 codec) (pos 2) asked world).1

abbrev first_page : TaskPage
first_page = record {
  items = plan ∷ [];
  total = pos 1;
  page = pos 1;
  per_page = pos 100;
  has_next = false;
}
