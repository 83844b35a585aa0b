-- ===== src/App/Ownership/Teams.antt =====
-- Requests about teams, one after another.
use testovoe_bazis.Common.{ℕ, ◌≡◌, ◌≤◌, subst, ℤ, Text, Bool, All}
use testovoe_bazis.Domain.{Team}
use testovoe_bazis.Service.Gateways.{EmailGateway}
use testovoe_bazis.Service.Teams.{InviteInput, create_team, invite}
use testovoe_bazis.Store.Teams.Owners.{IsOwned-rows, owners}
use testovoe_bazis.App.{World, team_service}
use testovoe_bazis.App.Preserving.{Preserves}
use testovoe_bazis.App.Ownership.{Owned, LeavesDatabase, create_team-Owned, invite-Owned}

module _ (collate : Text → Text → Bool) (lower : ℕ → ℕ) (email : EmailGateway World) where
  -- One request that writes teams or memberships, whatever it is answered with; or anything else,
  -- which leaves them as they are.
  pub data TeamStep : World → World → Type 0 where
    founded :
        (actor_id : ℤ) (name description : Text) (w w' : World)
        → (create_team (team_service collate lower email) actor_id name description w).1 ≡ w'
        → TeamStep w w'
    invited :
        (actor_id team_id : ℤ) (given : InviteInput) (w w' : World)
        → (invite (team_service collate lower email) actor_id team_id given w).1 ≡ w'
        → TeamStep w w'
    otherwise :
        (w w' : World)
        → w'.db.tables.teams ≡ w.db.tables.teams
        → w'.db.tables.members ≡ w.db.tables.members
        → w.db.next_team ≤ w'.db.next_team
        → TeamStep w w'

  pub data TeamRun (start : World) : World → Type 0 where
    begun : TeamRun start start
    followed : (v w : World) → TeamRun start v → TeamStep v w → TeamRun start w

  module _ (apart : LeavesDatabase email) where
    TeamStep-Owned : (v w : World) → TeamStep v w → Owned v → Owned w
    unfolding Preserves
    TeamStep-Owned _ _ (founded actor_id name description v w e) c =
        subst Owned e (create_team-Owned collate lower email apart actor_id name description v c)
    TeamStep-Owned _ _ (invited actor_id team_id given v w e) c =
        subst Owned e (invite-Owned collate lower email apart actor_id team_id given v c)
    TeamStep-Owned _ _ (otherwise v w teams members next) c =
        IsOwned-rows v.db.tables w.db.tables v.db.next_team w.db.next_team teams members next c

    TeamRun-Owned : (start w : World) → Owned start → TeamRun start w → Owned w
    TeamRun-Owned start _ c begun = c
    TeamRun-Owned start _ c (followed v w r step) =
        TeamStep-Owned v w step (TeamRun-Owned start v c r)

    -- If sending mail leaves the database alone and every team has exactly one owner at the start,
    -- with the ids of teams below their counter, then every team has exactly one owner after any run
    -- of requests, however they end.
    pub one_owner :
        (start w : World)
        → Owned start
        → TeamRun start w
        → All (λ (m : Team). owners m.id w.db.tables.members ≡ 1) w.db.tables.teams
    one_owner start w c run = (TeamRun-Owned start w c run).owned
