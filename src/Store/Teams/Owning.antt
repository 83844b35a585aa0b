-- ===== src/Store/Teams/Owning.antt =====
-- The writes to teams and memberships leave every team with one owner.
use testovoe_bazis.Common.{
  suc, ◌≤◌, ◌≡◌, ◌≢◌, ◌⊎◌, sym, subst, ◌∙◌, inl, inr, true, some, [], ◌∷◌, ◌++◌, ℤ, int_eq, arith,
  Text, Result, ok, outcome-cases,
}
use testovoe_bazis.Domain.{TeamMember, Role, role_owner}
use testovoe_bazis.Store.Database.{Database, statement, now, has_team, member_row_error}
use testovoe_bazis.Store.Teams.{
  create, create_rows, create_body, insert_team, insert_member, add_member, get,
}
use testovoe_bazis.Store.Teams.Founding.{
  read_back, not_read_back, create_rows-eq-ok, create_rows-err_tables,
}
use testovoe_bazis.Store.Teams.Owners.{
  IsOwned, IsOwned-later, with_team-IsOwned, with_member-IsOwned,
}

module _ (name description : Text) (creator_id : ℤ) where
  create_rows-next :
      (db : Database) {id : ℤ} {mid : Database}
      → create_rows name description creator_id db ≡ (ok id, mid)
      → mid.next_team ≡ suc db.next_team
  unfolding create_rows create_body insert_team insert_member statement
  create_rows-next db h = ground arith

  create_rows-later :
      (db : Database) → db.next_team ≤ (create_rows name description creator_id db).1.next_team
  unfolding create_rows create_body insert_team insert_member statement
  create_rows-later db = ground arith

  get-keeps :
      (id : ℤ) (db : Database)
      → ((get id db).1.tables ≡ db.tables) × ((get id db).1.next_team ≡ db.next_team)
  unfolding get statement
  get-keeps id db = ground arith

  -- However `Create` ends, every team has one owner if every team had.
  pub create-IsOwned :
      (db : Database)
      → IsOwned db.tables db.next_team
      → IsOwned
          (create name description creator_id db).1.tables
          (create name description creator_id db).1.next_team
  create-IsOwned db c = elim (outcome-cases (create_rows name description creator_id db)) [
    | inl (id, mid, first) ↦
        let (tables, next) = get-keeps id mid in
        let back = read_back name description creator_id db first in
        let counted = create_rows-next db first in
        let stored = (create_rows-eq-ok name description creator_id db first).1 in
        let whole =
          with_team-IsOwned db mid.next_team name description creator_id c
            (omega (arith, counted)) in
        subst (λ (d : Database). IsOwned d.tables d.next_team) (sym back)
          (subst (λ n. IsOwned (get id mid).1.tables n) (sym next)
            (subst (λ t. IsOwned t mid.next_team) (sym (tables ∙ stored)) whole))
    | inr (e, mid, failed) ↦
        let back = not_read_back name description creator_id db failed in
        let same = create_rows-err_tables name description creator_id db failed in
        let later =
          subst (λ (p : Result ℤ × Database). db.next_team ≤ p.1.next_team) failed
            (create_rows-later db) in
        subst (λ (d : Database). IsOwned d.tables d.next_team) (sym back)
          (subst (λ t. IsOwned t mid.next_team) (sym same)
            (IsOwned-later db.tables db.next_team mid.next_team later c))
  ]

module _ (team_id user_id invited_by : ℤ) (role : Role) where
  abbrev joining : Database → TeamMember
  joining db = record {
    team_id = team_id;
    user_id = user_id;
    role = role;
    invited_by = some invited_by;
    created_at = now db;
  }

  add_member-cases :
      (db : Database)
      → ((add_member team_id user_id invited_by role db).1.next_team ≡ db.next_team)
        × (((add_member team_id user_id invited_by role db).1.tables ≡ db.tables)
            ⊎ (((add_member team_id user_id invited_by role db).1.tables
                  ≡ record (db.tables) { members = db.tables.members ++ (joining db ∷ []) })
                × (has_team team_id db.tables ≡ true)))
  unfolding add_member insert_member statement member_row_error
  add_member-cases db = ground arith

  -- However `AddMember` ends, every team has one owner if every team had and the new role is
  -- another.
  pub add_member-IsOwned :
      (db : Database)
      → role ≢ role_owner
      → IsOwned db.tables db.next_team
      → IsOwned
          (add_member team_id user_id invited_by role db).1.tables
          (add_member team_id user_id invited_by role db).1.next_team
  add_member-IsOwned db other c =
      let (next, stored) = add_member-cases db in
      subst (λ n. IsOwned (add_member team_id user_id invited_by role db).1.tables n) (sym next)
        (elim stored [
          | inl same ↦ subst (λ t. IsOwned t db.next_team) (sym same) c
          | inr (added, there) ↦
              subst (λ t. IsOwned t db.next_team) (sym added)
                (with_member-IsOwned db.tables db.next_team (joining db) other there c)
        ])
