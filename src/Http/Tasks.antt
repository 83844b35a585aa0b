-- ===== src/Http/Tasks.antt =====
-- internal/httpapi/handlers_tasks.go: the requests about tasks.
pub mod Serving
use testovoe_bazis.Common.{
  ℕ, ◌≡◌, ◌≢◌, ◌⊎◌, refl, sym, ap, ◌∙◌, Bool, true, false, Option, none, some, Option-cases, List,
  [], ℤ, pos, Text, text_eq, ◌==◌, codes, if◌then◌else◌, trim_space, arith, Error, sentinel,
  unauthorized, invalid, plain, Result, ok, err, Action, pure, fail, on_error, check, outcome-cases,
  ◌>>=◌, ◌>>◌, inl, inr,
}
use testovoe_bazis.Domain.{Task, TaskHistory, TaskFilters, TaskPatch, OptionalInt64, TaskPage}
use testovoe_bazis.Service.Tasks.{TaskService, CreateTaskInput}
use testovoe_bazis.Service.Tasks as TaskOperations
use testovoe_bazis.Http.{Response, path_id, query_int}
use testovoe_bazis.Http.Requests.{Request, lift, current_user, decode_json, answer}

pub record UpdateTaskRequest : Type 0 where
  pub title : Option Text
  pub description : Option Text
  pub status : Option Text
  pub assignee_id : Text

-- `encoding/json` on the bodies: `none` stands for an error.
pub record BodyCodec : Type 0 where
  pub create_task : Text → Option CreateTaskInput
  pub update_task : Text → Option UpdateTaskRequest
  pub number : Text → Option ℤ

abbrev assignee_of : Option ℤ → Result OptionalInt64
assignee_of none = err (invalid (plain "assignee_id must be an integer or null"))
assignee_of (some v) = ok (record { is_set = true; value = some v })

-- A missing `assignee_id`, null, or a number.
unfoldable pub patch_assignee : (Text → Option ℤ) → Text → Result OptionalInt64
patch_assignee number raw =
    if raw == []
    then ok (record { is_set = false; value = none })
    else if trim_space raw == codes "null"
    then ok (record { is_set = true; value = none })
    else assignee_of (number raw)

abbrev with_assignee : UpdateTaskRequest → Result OptionalInt64 → Result TaskPatch
with_assignee req (err e) = err e
with_assignee req (ok a) =
    ok (record {
      title = req.title;
      description = req.description;
      status = req.status;
      assignee = a;
    })

-- `updateTaskRequest.toPatch`
unfoldable pub to_patch : (Text → Option ℤ) → UpdateTaskRequest → Result TaskPatch
to_patch number req = with_assignee req (patch_assignee number req.assignee_id)

abbrev some_int : Result ℤ → Result (Option ℤ)
some_int (ok v) = ok (some v)
some_int (err e) = err e

unfoldable pub query_assignee : (Text → Text) → Result (Option ℤ)
query_assignee get =
    if get (codes "assignee_id") == []
    then ok none
    else some_int (query_int get (codes "assignee_id"))

module _ {W : Type 0} (s : TaskService W) (codec : BodyCodec) (r : Request) where
  -- `Handler.CreateTask`
  unfoldable pub create_task : W → Response Task × W
  create_task = answer 201 do
    user_id ← lift (current_user r.user_id)
    req ← lift (decode_json (codec.create_task r.body))
    TaskOperations.create s user_id req

  -- `Handler.ListTasks`
  unfoldable pub list_tasks : W → Response TaskPage × W
  list_tasks = answer 200 do
    user_id ← lift (current_user r.user_id)
    team_id ← lift (query_int r.query (codes "team_id"))
    assignee_id ← lift (query_assignee r.query)
    page ← lift (query_int r.query (codes "page"))
    per_page ← lift (query_int r.query (codes "per_page"))
    TaskOperations.list s user_id (record {
      team_id = team_id;
      status = r.query (codes "status");
      assignee_id = assignee_id;
      page = page;
      per_page = per_page;
    })

  -- `Handler.UpdateTask` up to its answer.
  unfoldable pub run_update : Action W Task
  run_update = do
    user_id ← lift (current_user r.user_id)
    task_id ← lift (path_id r.id)
    req ← lift (decode_json (codec.update_task r.body))
    patch ← lift (to_patch codec.number req)
    TaskOperations.update s user_id task_id patch

  unfoldable pub update_task : W → Response Task × W
  update_task = answer 200 run_update

  -- `Handler.TaskHistory`
  unfoldable pub task_history : W → Response (List TaskHistory) × W
  task_history = answer 200 do
    user_id ← lift (current_user r.user_id)
    task_id ← lift (path_id r.id)
    page ← lift (query_int r.query (codes "page"))
    per_page ← lift (query_int r.query (codes "per_page"))
    TaskOperations.history s user_id task_id page per_page
