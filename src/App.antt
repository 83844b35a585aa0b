-- ===== src/App.antt =====
-- The wiring of cmd/api/main.go: the services over the repositories and the cache. The world is
-- the database and Redis; the mail service, the hashing and the tokens are given.
pub mod Members
pub mod Authorized
pub mod Server
pub mod Preserving
pub mod Ownership
pub mod Coherence
use testovoe_bazis.Common.{ℕ, ℤ, Text, Bool, Option, List, Error, Result, ok, err, Action}
use testovoe_bazis.Service.Gateways.{
  TaskGateway, TeamGateway, TaskCacheGateway, TeamStore, UserGateway, UserStore, EmailGateway,
  PageCodec, TokenIssuer, PasswordHasher, Bytes,
}
use testovoe_bazis.Service.Tasks.{TaskService}
use testovoe_bazis.Service.Teams.{TeamService}
use testovoe_bazis.Service.Auth.{AuthService}
use testovoe_bazis.Store.Database.{Database}
use testovoe_bazis.Store.Cache.{CacheState}
use testovoe_bazis.Store.Cache as TaskCache
use testovoe_bazis.Store.Tasks as TaskRepository
use testovoe_bazis.Store.Teams as TeamRepository
use testovoe_bazis.Store.Users as UserRepository

pub record World : Type 0 where
  pub db : Database
  pub cache : CacheState

-- An action on the database, or on Redis, as one on the world.
abbrev pub on_db : {A : Type 0} → Action Database A → Action World A
on_db m w = let (r, d) = m w.db in (r, record w { db = d })

abbrev pub on_cache : {A : Type 0} → (CacheState → A × CacheState) → World → A × World
on_cache f w = let (a, c) = f w.cache in (a, record w { cache = c })

abbrev pub task_gateway : TaskGateway World
task_gateway = record {
  get = λ id. on_db (TaskRepository.get id);
  list = λ f. on_db (TaskRepository.list f);
  create = λ k. on_db (TaskRepository.create k);
  update = λ id p actor_id authorize. on_db (TaskRepository.update id p actor_id authorize);
  history = λ id limit offset. on_db (TaskRepository.history id limit offset);
}

abbrev pub team_gateway : TeamGateway World
team_gateway = record {
  get_member_role = λ team_id user_id. on_db (TeamRepository.get_member_role team_id user_id);
  is_member = λ team_id user_id. on_db (TeamRepository.is_member team_id user_id);
}

abbrev pub cache_gateway : ℕ → TaskCacheGateway World
cache_gateway ttl = record {
  get_list = λ team_id f. on_cache (TaskCache.get_list team_id f);
  set_list =
      λ team_id f bytes w. record w { cache = TaskCache.set_list ttl team_id f bytes w.cache };
  invalidate_team = λ team_id w. record w { cache = TaskCache.invalidate_team team_id w.cache };
}

-- `service.NewTaskService(taskRepo, teamRepo, taskCache)`
abbrev pub task_service : ℕ → PageCodec → TaskService World
task_service ttl codec = record {
  tasks = task_gateway;
  teams = team_gateway;
  cache = cache_gateway ttl;
  codec = codec;
}

abbrev pub team_store : TeamStore World
team_store = record {
  create = λ name description creator_id. on_db (TeamRepository.create name description creator_id);
  get = λ id. on_db (TeamRepository.get id);
  list_by_user = λ user_id. on_db (TeamRepository.list_by_user user_id);
  get_member_role = λ team_id user_id. on_db (TeamRepository.get_member_role team_id user_id);
  is_member = λ team_id user_id. on_db (TeamRepository.is_member team_id user_id);
  add_member = λ team_id user_id invited_by role.
      on_db (TeamRepository.add_member team_id user_id invited_by role);
}

module _ (collate : Text → Text → Bool) where
  abbrev pub user_gateway : UserGateway World
  user_gateway = record {
    get_by_id = λ id. on_db (UserRepository.get_by_id id);
    get_by_email = λ email. on_db (UserRepository.get_by_email collate email);
  }

  abbrev pub user_store : UserStore World
  user_store = record {
    create = λ email username hash. on_db (UserRepository.create collate email username hash);
    get_by_id = λ id. on_db (UserRepository.get_by_id id);
    get_by_email = λ email. on_db (UserRepository.get_by_email collate email);
  }

  -- `service.NewTeamService(teamRepo, userRepo, emailSender, logger)`
  abbrev pub team_service : (ℕ → ℕ) → EmailGateway World → TeamService World
  team_service lower email = record {
    teams = team_store;
    users = user_gateway;
    email = email;
    lower = lower;
  }

  -- `service.NewAuthService(userRepo, jwtManager)`
  abbrev pub auth_service : (ℕ → ℕ) → TokenIssuer World → PasswordHasher World → AuthService World
  auth_service lower tokens hasher = record {
    users = user_store;
    tokens = tokens;
    hasher = hasher;
    lower = lower;
  }
