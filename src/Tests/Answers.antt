-- ===== src/Tests/Answers.antt =====
-- Requests over HTTP.
use testovoe_bazis.Common.{
  ◌≡◌, ◌↔◌, refl, true, false, Option, none, some, [], ℤ, pos, codes, Error, ok, wrap, plain,
  sentinel, not_found, forbidden, unauthorized, validation, conflict, error_is,
}
use testovoe_bazis.Domain.{Task, TaskPatch}
use testovoe_bazis.Service.Tasks as TaskOperations
use testovoe_bazis.Http.{Response, respond_error, respond, shows, parse_int, parse_digits, path_id}
use testovoe_bazis.Http.Answers.{respond_error-status_iff}
use testovoe_bazis.Http.Requests.{Request}
use testovoe_bazis.Http.Tasks.{BodyCodec, update_task, run_update, to_patch, patch_assignee}
use testovoe_bazis.Http.Tasks.Serving.{update_task-served}
use testovoe_bazis.Http.Limits.{rate_key, rate_key_of_user}
use testovoe_bazis.App.{World, task_service}
use testovoe_bazis.Tests.Data.{world, codec, task_runs}

abbrev bad_title : Error
bad_title = wrap (plain "title is required") (sentinel validation)

respond_error-status_iff_example :
    (((respond_error {A = Task} bad_title).status ≡ 404) ↔ (error_is bad_title not_found ≡ true))
    × (((respond_error {A = Task} bad_title).status ≡ 403) ↔ (error_is bad_title forbidden ≡ true))
    × (((respond_error {A = Task} bad_title).status ≡ 401)
        ↔ (error_is bad_title unauthorized ≡ true))
    × (((respond_error {A = Task} bad_title).status ≡ 400) ↔ (error_is bad_title validation ≡ true))
    × (((respond_error {A = Task} bad_title).status ≡ 409) ↔ (error_is bad_title conflict ≡ true))
    × (((respond_error {A = Task} bad_title).status ≡ 500) ↔ (
        (error_is bad_title not_found ≡ false)
        × (error_is bad_title forbidden ≡ false)
        × (error_is bad_title unauthorized ≡ false)
        × (error_is bad_title validation ≡ false)
        × (error_is bad_title conflict ≡ false)))
respond_error-status_iff_example = respond_error-status_iff Task bad_title

abbrev bodies : BodyCodec
bodies = record {
  create_task = λ _. none;
  update_task = λ _.
      some (record {
        title = none;
        description = none;
        status = some (codes "done");
        assignee_id = [];
      });
  number = λ _. none;
}

abbrev request : Option ℤ → Request
request user_id = record { user_id = user_id; id = codes "1"; query = λ _. []; body = codes "{}" }

abbrev answered : Response Task × World
answered = update_task (task_service 300 codec) bodies (request (some (pos 2))) world

update_task-served_example :
    (user_id : ℤ) × (task_id : ℤ) × (patch : TaskPatch) × (task : Task) × ((request
        (some (pos 2))).user_id
      ≡ some user_id)
    × (path_id (codes "1") ≡ ok task_id)
    × (TaskOperations.update (task_service 300 codec) user_id task_id patch world
        ≡ (ok task, answered.1))
    × (answered.0.payload ≡ shows task)
unfolding task_runs update_task run_update respond path_id parse_int parse_digits to_patch
    patch_assignee
update_task-served_example =
    update_task-served (task_service 300 codec) bodies (request (some (pos 2))) world refl

shared :
    rate_key (λ _. none) (some (pos 2)) (codes "a")
    ≡ rate_key (λ _. none) (some (pos 2)) (codes "b")
unfolding rate_key
shared = refl

rate_key_of_user_example : some (pos 2) ≡ some (pos 2)
rate_key_of_user_example =
    rate_key_of_user (λ _. none) (pos 2) (some (pos 2)) (codes "a") (codes "b") (shared)
