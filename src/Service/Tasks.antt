-- ===== src/Service/Tasks.antt =====
-- internal/service/task_service.go: creating, listing and changing tasks, and their history.
pub mod Checks
pub mod Creating
pub mod Updating
pub mod Listing
pub mod Rejecting
use testovoe_bazis.Common.{
  ℕ, ◌&&◌, not, Bool, true, false, Option, none, some, List, [], String, ℤ, pos, ltb, ltb_ℤ, mul64,
  sub64, int_eq, Text, text_eq, trim_space, length, ◌==◌, if◌then◌else◌, Error, sentinel, not_found,
  forbidden, plain, shows_text, shows_number, wrap, invalid, error_is, Action, pure, ok, on_error,
  fail, fail_if, check, ◌>>=◌, ◌>>◌, modify,
}
use testovoe_bazis.Domain.{
  Role, Task, TaskStatus, TaskHistory, TaskFilters, TaskPatch, TaskPage, status_todo, status_valid,
  max_task_title_length, normalize, validate, clamp_page, clamp_per_page, patch_empty,
}
use testovoe_bazis.Service.Gateways.{TeamGateway, TaskGateway, TaskCacheGateway, PageCodec, Bytes}
use testovoe_bazis.Service.Authorization.{can_update_task}

pub record CreateTaskInput : Type 0 where
  pub team_id : ℤ
  pub title : Text
  pub description : Text
  pub status : TaskStatus
  pub assignee_id : Option ℤ

pub record TaskService (W : Type 0) : Type 0 where
  pub tasks : TaskGateway W
  pub teams : TeamGateway W
  pub cache : TaskCacheGateway W
  pub codec : PageCodec

-- The checks of a trimmed title, the first with its own message in each caller.
unfoldable pub title_error : String → Text → Option Error
title_error missing title =
    if title == []
    then some (invalid (plain missing))
    else if ltb max_task_title_length (length title)
    then some (invalid (shows_number "title must be at most %d characters" max_task_title_length))
    else none

-- An empty status becomes `todo`, any other has to be known.
unfoldable pub initial_status : TaskStatus → TaskStatus
initial_status status = if status == [] then status_todo else status

unfoldable pub status_error : TaskStatus → Option Error
status_error status =
    if status_valid status then none else some (invalid (shows_text "unknown status" status))

module _ {W : Type 0} (s : TaskService W) where
  open s use {tasks, teams, cache, codec}

  unfoldable pub member_role : ℤ → ℤ → Action W Role
  member_role team_id user_id =
      on_error (teams.get_member_role team_id user_id)
        (λ e. if error_is e not_found then sentinel forbidden else wrap (plain "get member role") e)

  -- The membership test of an assignee, in `Create` and in `Update`.
  unfoldable pub check_assignee : ℤ → Option ℤ → Action W (Unit {0})
  check_assignee team_id none = pure tt
  check_assignee team_id (some user_id) = do
    member ← on_error (teams.is_member team_id user_id) (wrap (plain "check assignee membership"))
    fail_if (not member) (invalid (plain "assignee is not a member of the team"))

  -- The row that `Create` hands to the repository, which fills in the id and the times.
  abbrev pub new_task : ℤ → CreateTaskInput → Task
  new_task actor_id input = record {
    id = pos 0;
    team_id = input.team_id;
    title = trim_space input.title;
    description = input.description;
    status = initial_status input.status;
    assignee_id = input.assignee_id;
    created_by = actor_id;
    created_at = 0;
    updated_at = 0;
    completed_at = none;
  }

  unfoldable pub create : ℤ → CreateTaskInput → Action W Task
  create actor_id input = do
    check (title_error "title is required" (trim_space input.title))
    check (status_error (initial_status input.status))
    member_role input.team_id actor_id
    check_assignee input.team_id input.assignee_id
    created ← tasks.create (new_task actor_id input)
    modify (cache.invalidate_team created.team_id)
    pure created

  -- A hit counts only if it can be decoded.
  abbrev pub decoded : Option Bytes → Option TaskPage
  decoded none = none
  decoded (some bytes) = codec.unmarshal bytes

  abbrev pub look_up : TaskFilters → Action W (Option TaskPage)
  look_up filters w =
      let (hit, w') = cache.get_list filters.team_id filters w in (ok (decoded hit), w')

  abbrev pub store : TaskFilters → TaskPage → W → W
  store filters page w = elim (codec.marshal page) [
    | none ↦ w
    | some bytes ↦ cache.set_list filters.team_id filters bytes w
  ]

  abbrev pub page_of : TaskFilters → List Task × ℤ → TaskPage
  page_of filters (items, total) = record {
    items = items;
    total = total;
    page = filters.page;
    per_page = filters.per_page;
    has_next = ltb_ℤ (mul64 filters.page filters.per_page) total;
  }

  -- What `List` does after a miss.
  unfoldable pub load_page : TaskFilters → Action W TaskPage
  load_page filters = do
    found ← tasks.list filters
    modify (store filters (page_of filters found))
    pure (page_of filters found)

  abbrev pub or_load : TaskFilters → Option TaskPage → Action W TaskPage
  or_load filters none = load_page filters
  or_load filters (some page) = pure page

  unfoldable pub list : ℤ → TaskFilters → Action W TaskPage
  list actor_id asked = do
    let filters = normalize asked
    check (validate filters)
    member_role filters.team_id actor_id
    hit ← look_up filters
    or_load filters hit

  abbrev pub patch_status_error : Option TaskStatus → Option Error
  patch_status_error none = none
  patch_status_error (some status) = status_error status

  -- The title of a patch is checked and replaced by its trimmed form.
  abbrev pub trimmed_title : Option Text → Action W (Option Text)
  trimmed_title none = pure none
  trimmed_title (some title) =
      check (title_error "title cannot be empty" (trim_space title))
      >> pure (some (trim_space title))

  -- `t.AssigneeID != nil && *t.AssigneeID == actorID`
  abbrev pub is_assigned : Option ℤ → ℤ → Bool
  is_assigned none actor_id = false
  is_assigned (some user_id) actor_id = user_id == actor_id

  -- The callback that the repository runs on the locked row.
  unfoldable pub authorize : ℤ → Role → TaskPatch → Task → Option Error
  authorize actor_id role patch t = can_update_task patch (record {
    team_role = role;
    is_creator = t.created_by == actor_id;
    is_assignee = is_assigned t.assignee_id actor_id;
  })

  -- The assignee that a patch sets, if it sets one.
  abbrev pub new_assignee : TaskPatch → Option ℤ
  new_assignee patch = if patch.assignee.is_set then patch.assignee.value else none

  -- `Update` from the point where the patch is checked and its title trimmed.
  unfoldable pub update_checked : ℤ → ℤ → TaskPatch → Action W Task
  update_checked actor_id task_id patch = do
    task ← tasks.get task_id
    role ← member_role task.team_id actor_id
    check_assignee task.team_id (new_assignee patch)
    updated ← tasks.update task_id patch actor_id (authorize actor_id role patch)
    modify (cache.invalidate_team updated.team_id)
    pure updated

  unfoldable pub update : ℤ → ℤ → TaskPatch → Action W Task
  update actor_id task_id given = do
    fail_if (patch_empty given) (invalid (plain "at least one field must be provided"))
    check (patch_status_error given.status)
    title ← trimmed_title given.title
    update_checked actor_id task_id (record given { title = title })

  unfoldable pub history : ℤ → ℤ → ℤ → ℤ → Action W (List TaskHistory)
  history actor_id task_id asked_page asked_size = do
    let page = clamp_page asked_page
    let size = clamp_per_page asked_size
    task ← tasks.get task_id
    member_role task.team_id actor_id
    tasks.history task_id size (mul64 (sub64 page (pos 1)) size)
