-- ===== src/App/Members.antt =====
-- The checks of the task service over the database: the rows of the memberships behind them, and
-- what they leave of the database.
use testovoe_bazis.Common.{ℕ, ◌≡◌, Bool, true, false, ap, Option, none, some, ℤ, int_eq, ok, Action}
use testovoe_bazis.Service.Gateways.{PageCodec}
use testovoe_bazis.Service.Tasks.Checks.{IsAssignable, IsAssignment}
use testovoe_bazis.Store.Database.{Database, Tables, spend}
use testovoe_bazis.Store.Teams.{find_role}
use testovoe_bazis.Store.Teams as TeamRepository
use testovoe_bazis.Store.Teams.Reading.{IsMember, has_member-IsMember, is_member-eq-ok}
use testovoe_bazis.App.{World, on_db, task_service}

-- A successful action on the database.
pub on_db-eq-ok :
    {A : Type 0} (m : Action Database A) (w : World) {a : A} {w' : World}
    → on_db m w ≡ (ok a, w')
    → (m w.db ≡ (ok a, w'.db))
on_db-eq-ok m w h = ap (λ p. (p.0, p.1.db)) h

-- An assignee, if there is one, is a member of the team.
abbrev pub IsMember? : ℤ → Option ℤ → Tables → Type 0
IsMember? team_id none t = Unit
IsMember? team_id (some user_id) t = IsMember team_id user_id t

-- The same of an assignee that a patch sets.
abbrev pub IsAssigneeOf : ℤ → Bool → Option ℤ → Tables → Type 0
IsAssigneeOf team_id true (some user_id) t = IsMember team_id user_id t
IsAssigneeOf team_id true none t = Unit
IsAssigneeOf team_id false assignee t = Unit

-- What the statements before a write leave of the database: all but the answers that they used up.
abbrev pub SameRows : Database → Database → Type 0
SameRows before after =
    (after.tables ≡ before.tables)
    × (after.clock ≡ before.clock)
    × (after.next_task ≡ before.next_task)
    × (after.next_history ≡ before.next_history)

same_rows : (db db' : Database) → db' ≡ spend db → SameRows db db'
same_rows db db' e = (
  ap (λ (d : Database). d.tables) e,
  ap (λ (d : Database). d.clock) e,
  ap (λ (d : Database). d.next_task) e,
  ap (λ (d : Database). d.next_history) e,
)

unmoved : {w w' : World} → w' ≡ w → SameRows w.db w'.db
unmoved e = (
  ap (λ (v : World). v.db.tables) e,
  ap (λ (v : World). v.db.clock) e,
  ap (λ (v : World). v.db.next_task) e,
  ap (λ (v : World). v.db.next_history) e,
)

module _ (ttl : ℕ) (codec : PageCodec) where
  is_member-IsMember :
      (team_id user_id : ℤ) (w w' : World)
      → (task_service ttl codec).teams.is_member team_id user_id w ≡ (ok true, w')
      → IsMember team_id user_id w.db.tables × SameRows w.db w'.db
  is_member-IsMember team_id user_id w w' h =
      let (there, e) =
        is_member-eq-ok team_id user_id w.db
          (on_db-eq-ok (TeamRepository.is_member team_id user_id) w h) in
      (has_member-IsMember team_id user_id w.db.tables there, same_rows w.db w'.db e)

  pub IsAssignable-IsMember? :
      (team_id : ℤ) (assignee : Option ℤ) (w w' : World)
      → IsAssignable (task_service ttl codec) team_id assignee w w'
      → IsMember? team_id assignee w.db.tables × SameRows w.db w'.db
  IsAssignable-IsMember? team_id none w w' h = (tt, unmoved h)
  IsAssignable-IsMember? team_id (some user_id) w w' h = is_member-IsMember team_id user_id w w' h

  pub IsAssignment-IsAssigneeOf :
      (team_id : ℤ) (is_set : Bool) (assignee : Option ℤ) (w w' : World)
      → IsAssignment (task_service ttl codec) team_id is_set assignee w w'
      → IsAssigneeOf team_id is_set assignee w.db.tables × SameRows w.db w'.db
  IsAssignment-IsAssigneeOf team_id true (some user_id) w w' h =
      is_member-IsMember team_id user_id w w' h
  IsAssignment-IsAssigneeOf team_id true none w w' h = (tt, unmoved h)
  IsAssignment-IsAssigneeOf team_id false assignee w w' h = (tt, unmoved h)
