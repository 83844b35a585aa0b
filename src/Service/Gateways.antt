-- ===== src/Service/Gateways.antt =====
-- The interfaces of internal/service: what the services call, over any state `W` of the world.
-- Every method is an action that may fail; those of the cache cannot.
use testovoe_bazis.Common.{ℕ, Bool, Option, List, ℤ, Text, Error, Action}
use testovoe_bazis.Domain.{
  Role, User, Team, Task, TaskHistory, TaskFilters, TaskPatch, TaskPage, TeamSummary, TopCreator,
  InvalidAssigneeTask,
}

-- A byte slice that a cache keeps.
abbrev pub Bytes : Type 0
Bytes = List ℕ

pub record TeamGateway (W : Type 0) : Type 0 where
  pub get_member_role : ℤ → ℤ → Action W Role
  pub is_member : ℤ → ℤ → Action W Bool

pub record TaskGateway (W : Type 0) : Type 0 where
  pub get : ℤ → Action W Task
  pub list : TaskFilters → Action W (List Task × ℤ)
  pub create : Task → Action W Task
  pub update : ℤ → TaskPatch → ℤ → (Task → Option Error) → Action W Task
  pub history : ℤ → ℤ → ℤ → Action W (List TaskHistory)

pub record TaskCacheGateway (W : Type 0) : Type 0 where
  pub get_list : ℤ → TaskFilters → W → Option Bytes × W
  pub set_list : ℤ → TaskFilters → Bytes → W → W
  pub invalidate_team : ℤ → W → W

-- `encoding/json` on a page: `none` stands for an error.
pub record PageCodec : Type 0 where
  pub marshal : TaskPage → Option Bytes
  pub unmarshal : Bytes → Option TaskPage

pub record UserGateway (W : Type 0) : Type 0 where
  pub get_by_id : ℤ → Action W User
  pub get_by_email : Text → Action W User

pub record EmailGateway (W : Type 0) : Type 0 where
  pub send_invitation : Text → Text → Text → Action W (Unit {0})

pub record TeamStore (W : Type 0) : Type 0 where
  pub create : Text → Text → ℤ → Action W Team
  pub get : ℤ → Action W Team
  pub list_by_user : ℤ → Action W (List Team)
  pub get_member_role : ℤ → ℤ → Action W Role
  pub is_member : ℤ → ℤ → Action W Bool
  pub add_member : ℤ → ℤ → ℤ → Role → Action W (Unit {0})

pub record UserStore (W : Type 0) : Type 0 where
  pub create : Text → Text → Text → Action W User
  pub get_by_id : ℤ → Action W User
  pub get_by_email : Text → Action W User

pub record TokenIssuer (W : Type 0) : Type 0 where
  pub generate : ℤ → Text → Action W Text

-- `golang.org/x/crypto/bcrypt`: hashing draws a salt; a comparison that succeeds is `true`.
pub record PasswordHasher (W : Type 0) : Type 0 where
  pub generate_from_password : Text → Action W Text
  pub compare_hash_and_password : Text → Text → Bool

pub record AnalyticsGateway (W : Type 0) : Type 0 where
  pub team_summary : ℤ → Action W (List TeamSummary)
  pub top_creators : ℤ → Action W (List TopCreator)
  pub invalid_assignees : ℤ → Action W (List InvalidAssigneeTask)
