-- ===== src/Tests/Data.antt =====
-- A team of two with one task, as the tables and requests of the tests.
use testovoe_bazis.Common.{
  false, none, some, [], ◌∷◌, pos, codes, text_beq, text_eq, byte_len, trim_space, format_int,
  is_space,
}
use testovoe_bazis.Domain.{
  User, Team, TeamMember, Task, TaskPatch, role_owner, role_member, status_todo, status_done,
  status_valid, patch_empty, is_owner_or_admin,
}
use testovoe_bazis.Service.Gateways.{PageCodec}
use testovoe_bazis.Service.Authorization.{can_update_task}
use testovoe_bazis.Service.Tasks as TaskOperations
use testovoe_bazis.Service.Tasks.{
  CreateTaskInput, new_task, load_page, title_error, status_error, initial_status, member_role,
  check_assignee, authorize, update_checked,
}
use testovoe_bazis.Store.Database.{
  Database, statement, long_text, missing, task_row_error, history_row_error,
}
use testovoe_bazis.Store.Audit.{
  int64_ptr, equal_str_ptr, truncate, entry, change_title, change_description, change_status,
  change_assignee, build_history,
}
use testovoe_bazis.Store.Tasks as TaskRepository
use testovoe_bazis.Store.Tasks.{
  matches, lock_task, update_body, write_changes, update_task, insert_entries, insert_history,
  insert_task, create_body, stamped,
}
use testovoe_bazis.Store.Teams.{find_role}
use testovoe_bazis.Store.Teams as TeamRepository
use testovoe_bazis.Store.Cache as TaskCache
use testovoe_bazis.Store.Cache.{CacheState, redis_incr, find_key, put_key, version_key}
use testovoe_bazis.Service.Tasks.Updating.{trim?}
use testovoe_bazis.App.{World}

abbrev pub alice : User
alice = record {
  id = pos 1;
  email = codes "alice@example.org";
  username = codes "alice";
  password_hash = codes "a";
  created_at = 0;
}

abbrev pub bob : User
bob = record alice { id = pos 2; email = codes "bob@example.org"; username = codes "bob" }

abbrev pub crew : Team
crew = record {
  id = pos 1;
  name = codes "crew";
  description = [];
  created_by = pos 1;
  created_at = 0;
  updated_at = 0;
}

abbrev pub owner_row : TeamMember
owner_row = record {
  team_id = pos 1;
  user_id = pos 1;
  role = role_owner;
  invited_by = none;
  created_at = 0;
}

abbrev pub member_row : TeamMember
member_row = record owner_row { user_id = pos 2; role = role_member; invited_by = some (pos 1) }

-- A task of alice's, which bob is to do.
abbrev pub plan : Task
plan = record {
  id = pos 1;
  team_id = pos 1;
  title = codes "plan";
  description = [];
  status = status_todo;
  assignee_id = some (pos 2);
  created_by = pos 1;
  created_at = 0;
  updated_at = 0;
  completed_at = none;
}

abbrev pub database : Database
database = record {
  tables = record {
    users = alice ∷ bob ∷ [];
    teams = crew ∷ [];
    members = owner_row ∷ member_row ∷ [];
    tasks = plan ∷ [];
    history = [];
  };
  next_user = 3;
  next_team = 2;
  next_task = 2;
  next_history = 1;
  faults = [];
  clock = 7500000000;
}

abbrev pub world : World
world = record {
  db = database;
  cache = record { entries = []; faults = []; clock = 7; hits = 0; misses = 0 };
}

abbrev pub codec : PageCodec
codec = record { marshal = λ _. none; unmarshal = λ _. none }

-- Bob is done.
abbrev pub done_patch : TaskPatch
done_patch = record {
  title = none;
  description = none;
  status = some status_done;
  assignee = record { is_set = false; value = none };
}

abbrev pub done_plan : Task
done_plan = record plan { status = status_done; completed_at = some 7; updated_at = 7 }

-- What the requests below compute with.
unfoldable pub task_runs : Unit {0}
unfolding TaskOperations.update TaskOperations.create update_checked member_role check_assignee
    title_error status_error initial_status status_valid patch_empty authorize can_update_task
    is_owner_or_admin text_beq trim_space TaskRepository.get TaskRepository.update
    TaskRepository.create lock_task update_body write_changes update_task insert_entries
    insert_history insert_task create_body stamped statement build_history change_title
    change_description change_status change_assignee entry int64_ptr equal_str_ptr truncate
    task_row_error history_row_error missing long_text byte_len TeamRepository.get_member_role
    TeamRepository.is_member TaskCache.invalidate_team redis_incr find_key put_key version_key
    format_int trim? is_space
task_runs = tt
