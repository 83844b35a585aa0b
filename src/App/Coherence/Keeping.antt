-- ===== src/App/Coherence/Keeping.antt =====
-- The calls that leave the tasks, their counter and the cache alone keep the cache right.
use testovoe_bazis.Common.{
  ℕ, ◌≡◌, ◌≤◌, refl, sym, ap, subst, Option, none, some, [], ℤ, arith, Action, on_error, not, wrap,
  plain,
}
use testovoe_bazis.Service.Gateways.{PageCodec}
use testovoe_bazis.Service.Tasks.{history, member_role, check_assignee}
use testovoe_bazis.Store.Database.{Database, Tables, statement, select_page}
use testovoe_bazis.Store.Tasks as TaskRepository
use testovoe_bazis.Store.Tasks.{find_task}
use testovoe_bazis.Store.Tasks.Numbering.{IsNumbered, IsNumbered-later}
use testovoe_bazis.Store.Teams as TeamRepository
use testovoe_bazis.Store.Teams.{find_role}
use testovoe_bazis.Store.Cache.Soundness.{IsSound}
use testovoe_bazis.App.{World, on_db, task_service}
use testovoe_bazis.App.Preserving.{
  Preserves, Preserves->>=, Preserves-on_error, Preserves-pure, Preserves-fail_if,
}
use testovoe_bazis.App.Coherence.{IsCoherent, IsRight}

module _ (ttl : ℕ) (codec : PageCodec) where
  -- From here to there the tasks and the entries of the cache are the same, no number of a task is
  -- given back, and Redis still answers.
  pub IsCoherent-moved :
      (v w : World)
      → w.db.tables.tasks ≡ v.db.tables.tasks
      → v.db.next_task ≤ w.db.next_task
      → w.cache.entries ≡ v.cache.entries
      → w.cache.faults ≡ []
      → IsCoherent ttl codec v
      → IsCoherent ttl codec w
  IsCoherent-moved v w tasks next entries calm c = record {
    numbered =
        subst (λ ks. IsNumbered ks w.db.next_task) (sym tasks)
          (IsNumbered-later v.db.tables.tasks v.db.next_task w.db.next_task next c.numbered);
    calm = calm;
    sound =
        subst (λ es. IsSound (IsRight ttl codec w.db.tables.tasks) es) (sym entries)
          (subst (λ ks. IsSound (IsRight ttl codec ks) v.cache.entries) (sym tasks) c.sound);
  }

-- A call that reads the database.
unfoldable pub Reads : {A : Type 0} → Action Database A → Type 0
Reads m = (db : Database) → ((m db).1.tables ≡ db.tables) × ((m db).1.next_task ≡ db.next_task)

Reads-get : (id : ℤ) → Reads (TaskRepository.get id)
unfolding Reads TaskRepository.get statement
Reads-get id db = ground arith

Reads-get_member_role :
    (team_id user_id : ℤ) → Reads (TeamRepository.get_member_role team_id user_id)
unfolding Reads TeamRepository.get_member_role statement
Reads-get_member_role team_id user_id db = ground arith

Reads-history : (id limit offset : ℤ) → Reads (TaskRepository.history id limit offset)
unfolding Reads TaskRepository.history select_page statement
Reads-history id limit offset db = ground arith

Reads-is_member : (team_id user_id : ℤ) → Reads (TeamRepository.is_member team_id user_id)
unfolding Reads TeamRepository.is_member statement
Reads-is_member team_id user_id db = ground arith

module _ (ttl : ℕ) (codec : PageCodec) where
  pub Preserves-on_db :
      {A : Type 0} (m : Action Database A) → Reads m → Preserves (IsCoherent ttl codec) (on_db m)
  unfolding Preserves Reads
  Preserves-on_db m reads w c =
      let (tables, next) = reads w.db in
      IsCoherent-moved ttl codec w (on_db m w).1 (ap (λ (t : Tables). t.tasks) tables)
        (omega (arith, next)) refl c.calm c

  pub Preserves-get : (id : ℤ) → Preserves (IsCoherent ttl codec) (on_db (TaskRepository.get id))
  Preserves-get id = Preserves-on_db (TaskRepository.get id) (Reads-get id)

  pub Preserves-member_role :
      (team_id user_id : ℤ)
      → Preserves (IsCoherent ttl codec) (member_role (task_service ttl codec) team_id user_id)
  unfolding member_role
  Preserves-member_role team_id user_id =
      Preserves-on_error (IsCoherent ttl codec)
        (on_db (TeamRepository.get_member_role team_id user_id)) _
        (Preserves-on_db (TeamRepository.get_member_role team_id user_id)
          (Reads-get_member_role team_id user_id))

  pub Preserves-check_assignee :
      (team_id : ℤ) (assignee : Option ℤ)
      → Preserves (IsCoherent ttl codec) (check_assignee (task_service ttl codec) team_id assignee)
  unfolding check_assignee
  Preserves-check_assignee team_id none = Preserves-pure (IsCoherent ttl codec) tt
  Preserves-check_assignee team_id (some user_id) =
      let member =
        on_error (on_db (TeamRepository.is_member team_id user_id))
          (wrap (plain "check assignee membership")) in
      Preserves->>= (IsCoherent ttl codec) member _
        (Preserves-on_error (IsCoherent ttl codec)
          (on_db (TeamRepository.is_member team_id user_id)) _
          (Preserves-on_db (TeamRepository.is_member team_id user_id)
            (Reads-is_member team_id user_id)))
        (λ found. Preserves-fail_if (IsCoherent ttl codec) (not found) _)

  -- `History` of the service keeps the cache right.
  pub history-IsCoherent :
      (actor_id id page size : ℤ)
      → Preserves (IsCoherent ttl codec) (history (task_service ttl codec) actor_id id page size)
  unfolding history
  history-IsCoherent actor_id id page size =
      Preserves->>= (IsCoherent ttl codec) _ _ (Preserves-get id) (λ task.
        Preserves->>= (IsCoherent ttl codec) _ _ (Preserves-member_role task.team_id actor_id)
          (λ role. Preserves-on_db _ (Reads-history id _ _)))
