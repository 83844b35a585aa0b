-- ===== src/App/Authorized.antt =====
-- The task service over the database: what a successful request says of the rows.
use testovoe_bazis.Common.{ℕ, ◌/◌, ◌≡◌, Mem, sym, ap, subst, ◌∙◌, none, some, ℤ, int_eq, arith, ok}
use testovoe_bazis.Domain.{Time, Role, Task, TaskStatus, TaskPatch}
use testovoe_bazis.Service.Gateways.{PageCodec}
use testovoe_bazis.Service.Tasks.{CreateTaskInput}
use testovoe_bazis.Service.Tasks as TaskOperations
use testovoe_bazis.Service.Tasks.Checks.{MayPatch}
use testovoe_bazis.Service.Tasks.Creating as ServiceCreating
use testovoe_bazis.Service.Tasks.Creating.{IsInitial, asked_task}
use testovoe_bazis.Service.Tasks.Updating as ServiceUpdating
use testovoe_bazis.Service.Tasks.Updating.{trim?}
use testovoe_bazis.Store.Database.{Database, Tables}
use testovoe_bazis.Store.Tasks.{find_task}
use testovoe_bazis.Store.Tasks as TaskRepository
use testovoe_bazis.Store.Tasks.Reading.{get-eq-ok}
use testovoe_bazis.Store.Tasks.Creating.{new_row, new_entry, with_task, create-eq-ok}
use testovoe_bazis.Store.Tasks.Updating.{Outcome, update-Updated}
use testovoe_bazis.Store.Teams.{find_role}
use testovoe_bazis.Store.Teams as TeamRepository
use testovoe_bazis.Store.Teams.Reading.{HasRole, find_role-HasRole, get_member_role-eq-ok}
use testovoe_bazis.App.{World, task_service}
use testovoe_bazis.App.Members.{
  on_db-eq-ok, IsMember?, IsAssigneeOf, SameRows, IsAssignable-IsMember?, IsAssignment-IsAssigneeOf,
}

Outcome-moved :
    (p : TaskPatch) (actor_id : ℤ) {at at' : Time} {k k' : Task} {t t' : Tables} {n n' : ℕ}
    {r : Task} {u u' : Tables}
    → at ≡ at'
    → k ≡ k'
    → t ≡ t'
    → n ≡ n'
    → u ≡ u'
    → Outcome p actor_id at k t n r u
    → Outcome p actor_id at' k' t' n' r u'
Outcome-moved p actor_id {r} e f g h l o =
    coe 0 1 (i. Outcome p actor_id (e i) (f i) (g i) (h i) r (l i)) o

module _ (ttl : ℕ) (codec : PageCodec) (actor_id task_id : ℤ) where
  -- The rows behind a successful update: the task, the role of the actor in its team, and what
  -- was allowed and done.
  pub record Authorized (patch : TaskPatch) (w : World) (result : Task) (w' : World) : Type 0 where
    pub task : Task
    pub role : Role
    pub was_stored : Mem task w.db.tables.tasks
    pub was_asked : task.id ≡ task_id
    pub has_role : HasRole task.team_id actor_id role w.db.tables
    pub was_allowed : MayPatch actor_id role patch task
    pub assignee_belongs :
        IsAssigneeOf task.team_id patch.assignee.is_set patch.assignee.value w.db.tables
    pub outcome :
        Outcome patch actor_id
          (w.db.clock / 1000000000)
          task
          w.db.tables
          w.db.next_history
          result
          w'.db.tables

  update-Authorized_from :
      (patch : TaskPatch) (w : World) (result : Task) (w' : World)
      → ServiceUpdating.Checked (task_service ttl codec) actor_id task_id patch w result w'
      → Authorized patch w result w'
  update-Authorized_from patch w result w' u =
      let (there, spent) =
        get-eq-ok task_id w.db (on_db-eq-ok (TaskRepository.get task_id) w u.was_read) in
      let (member, spent') =
        get_member_role-eq-ok u.read.team_id actor_id u.w1.db (
          on_db-eq-ok (TeamRepository.get_member_role u.read.team_id actor_id) u.w1 u.was_member) in
      let (belongs, same) =
        IsAssignment-IsAssigneeOf ttl codec u.read.team_id patch.assignee.is_set
          patch.assignee.value u.w2 u.w3 u.was_assignable in
      let done =
        update-Updated task_id patch actor_id u.allow u.w3.db result u.w4.db
          (on_db-eq-ok (TaskRepository.update task_id patch actor_id u.allow) u.w3 u.was_updated) in
      let rows : SameRows w.db u.w3.db = ground arith in
      let earlier : u.w2.db.tables ≡ w.db.tables = ground arith in
      let found_again : find_task task_id w.db.tables ≡ some done.locked =
        subst (λ t. find_task task_id t ≡ some done.locked) rows.0 done.was_found in
      let same : done.locked ≡ u.read = ground arith in
      let after : w'.db ≡ u.w4.db = ap (λ (v : World). v.db) u.invalidated in
      record {
        task = u.read;
        role = u.role;
        was_stored =
            subst (λ (t : Tables). Mem u.read t.tasks) rows.0
              (subst (λ k. Mem k u.w3.db.tables.tasks) same done.was_stored);
        was_asked = sym (ap (λ (k : Task). k.id) same) ∙ done.was_asked;
        has_role = find_role-HasRole u.read.team_id actor_id w.db.tables (
            subst (λ t. find_role u.read.team_id actor_id t ≡ some u.role)
              (ap (λ (d : Database). d.tables) spent) member);
        was_allowed =
            (u.guards.allows u.read).0 (subst (λ k. u.allow k ≡ none) same done.was_allowed);
        assignee_belongs =
            subst (λ t. IsAssigneeOf u.read.team_id patch.assignee.is_set patch.assignee.value t)
              earlier belongs;
        outcome =
            Outcome-moved patch actor_id (ap (λ c. c / 1000000000) rows.1) same rows.0 rows.3
              (ap (λ (d : Database). d.tables) (sym after)) done.outcome;
      }

  -- Over the database, a successful `Update` found a row of the table of tasks with the given id, and
  -- a row of the memberships gave the actor a role in its team; by README.md's rule that role, or
  -- being the author or the assignee, allows the patch; an assignee that the patch sets has a row in
  -- the memberships of the team. Then nothing was to be changed, or the patched row is returned and
  -- its title, description, status, assignee and times are stored, with one entry of history for
  -- each field that differs, and no other row is touched.
  pub update-Authorized :
      (given : TaskPatch) (w : World) (result : Task) (w' : World)
      → TaskOperations.update (task_service ttl codec) actor_id task_id given w ≡ (ok result, w')
      → Authorized (record given { title = trim? given.title }) w result w'
  update-Authorized given w result w' h =
      update-Authorized_from (record given { title = trim? given.title }) w result w'
        (ServiceUpdating.update-Checked (task_service ttl codec) actor_id task_id given w result w'
          h).3

module _ (ttl : ℕ) (codec : PageCodec) (actor_id : ℤ) (input : CreateTaskInput) where
  -- The rows behind a successful creation, and those that it adds.
  pub record Added (w : World) (result : Task) (w' : World) : Type 0 where
    pub role : Role
    pub status : TaskStatus
    pub has_role : HasRole input.team_id actor_id role w.db.tables
    pub assignee_belongs : IsMember? input.team_id input.assignee_id w.db.tables
    pub initial : IsInitial input.status status
    pub returned : result ≡ new_row w.db (asked_task actor_id input status)
    pub stored :
        w'.db.tables
        ≡ with_task w.db.tables result (new_entry w.db (asked_task actor_id input status))

  -- Over the database, a successful `Create` found a row of the memberships that gives the actor a
  -- role in the team, and one of an assignee that is named; the task that it returns is the one that
  -- was asked for, `todo` if no status was given, under the next id and with the times of the clock;
  -- and it and its entry `created` of the actor are all that was added to the tables.
  pub create-Authorized :
      (w : World) (result : Task) (w' : World)
      → TaskOperations.create (task_service ttl codec) actor_id input w ≡ (ok result, w')
      → Added w result w'
  create-Authorized w result w' h =
      let s = task_service ttl codec in
      let c = (ServiceCreating.create-Created s actor_id input w result w' h).1 in
      let k = asked_task actor_id input c.status in
      let (member, spent) =
        get_member_role-eq-ok input.team_id actor_id w.db
          (on_db-eq-ok (TeamRepository.get_member_role input.team_id actor_id) w c.was_member) in
      let (belongs, same) =
        IsAssignable-IsMember? ttl codec input.team_id input.assignee_id c.w1 c.w2
          c.was_assignable in
      let (returned, fits, stored) =
        create-eq-ok k c.w2.db result c.w3.db
          (on_db-eq-ok (TaskRepository.create k) c.w2 c.was_created) in
      let rows : SameRows w.db c.w2.db = ground arith in
      let earlier : c.w1.db.tables ≡ w.db.tables = ground arith in
      let after : w'.db ≡ c.w3.db = ap (λ (v : World). v.db) c.invalidated in
      record {
        role = c.role;
        status = c.status;
        has_role = find_role-HasRole input.team_id actor_id w.db.tables member;
        assignee_belongs = subst (λ t. IsMember? input.team_id input.assignee_id t) earlier belongs;
        initial = c.initial;
        returned = returned ∙ (λ i.
            new_row
              (record (w.db) { clock = rows.1 i; next_task = rows.2 i; next_history = rows.3 i })
              k);
        stored = ap (λ (d : Database). d.tables) after ∙ stored ∙ (λ i.
            with_task (rows.0 i) result (
              new_entry
                (record (w.db) { clock = rows.1 i; next_task = rows.2 i; next_history = rows.3 i })
                k));
      }
