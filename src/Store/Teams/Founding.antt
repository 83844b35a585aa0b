-- ===== src/Store/Teams/Founding.antt =====
-- `TeamRepository.Create`: a team with its owner, or neither.
use testovoe_bazis.Common.{
  ◌≡◌, ap, ◌∙◌, ◌⊎◌, inl, inr, Option, none, some, [], ◌∷◌, ◌++◌, ℤ, pos, arith, Text, Error, ok,
  err, outcome-cases, on_error-eq-ok,
}
use testovoe_bazis.Domain.{Role, Team, TeamMember, role_owner}
use testovoe_bazis.Store.Database.{
  Database, Tables, Ending, committed, left_open, spend, now, query_row, commit, statement,
}
use testovoe_bazis.Store.Database.Steps.{query_row-eq-ok, transaction-eq-ok, transaction-err_tables}
use testovoe_bazis.Store.Tasks.Writing.{commit-eq-ok}
use testovoe_bazis.Store.Teams.{
  find_team, get, insert_team, add_team, insert_member, add_row, create_body, create_rows, create,
}

-- The rows of a new team, with the next id and the time of the clock.
abbrev pub new_team : Database → Text → Text → ℤ → Team
new_team db name description creator_id = record {
  id = pos db.next_team;
  name = name;
  description = description;
  created_by = creator_id;
  created_at = now db;
  updated_at = now db;
}

abbrev pub owner_of : Team → TeamMember
owner_of m = record {
  team_id = m.id;
  user_id = m.created_by;
  role = role_owner;
  invited_by = none;
  created_at = m.created_at;
}

abbrev pub with_team : Tables → Team → Tables
with_team t m = record t { teams = t.teams ++ (m ∷ []); members = t.members ++ (owner_of m ∷ []) }

insert_team-eq-ok :
    (name description : Text) (creator_id : ℤ) (db : Database) {id : ℤ} {db' : Database}
    → insert_team name description creator_id db ≡ (ok id, db')
    → (id ≡ pos db.next_team)
      × (db' ≡ add_team (new_team db name description creator_id) (spend db))
unfolding insert_team statement
insert_team-eq-ok name description creator_id db e = ground arith

insert_member-eq-ok :
    (team_id user_id : ℤ) (role : Role) (invited_by : Option ℤ) (db : Database) {u : Unit {0}}
    {db' : Database}
    → insert_member team_id user_id role invited_by db ≡ (ok u, db')
    → db'
      ≡ add_row
          (record {
            team_id = team_id;
            user_id = user_id;
            role = role;
            invited_by = invited_by;
            created_at = now db;
          })
          (spend db)
unfolding insert_member statement
insert_member-eq-ok team_id user_id role invited_by db e = ground arith

get-eq-ok :
    (id : ℤ) (db : Database) {m : Team} {db' : Database}
    → get id db ≡ (ok m, db')
    → (find_team id db.tables ≡ some m) × (db' ≡ spend db)
unfolding get
get-eq-ok id db e =
    query_row-eq-ok (find_team id) db (on_error-eq-ok (query_row (find_team id)) _ db e)

get_tables : (id : ℤ) (db : Database) → (get id db).1.tables ≡ db.tables
unfolding get statement
get_tables id db = ground arith

module _ (name description : Text) (creator_id : ℤ) where
  create_body-eq-ok :
      (db : Database) {end : Ending ℤ} {db' : Database}
      → create_body name description creator_id db ≡ (ok end, db')
      → (end ≡ committed (pos db.next_team))
        × (db'.tables ≡ with_team db.tables (new_team db name description creator_id))
  unfolding create_body
  create_body-eq-ok db {end} {db'} e =
      elim (outcome-cases (insert_team name description creator_id db)) [
        | inl (id, mid, first) ↦
            let (fresh, added) = insert_team-eq-ok name description creator_id db first in
            elim (outcome-cases (insert_member id creator_id role_owner none mid)) [
              | inl (u, late, second) ↦
                  let third : commit id late ≡ (ok end, db') = ground arith in
                  let (ended, spent) = commit-eq-ok id late third in
                  let joined = insert_member-eq-ok id creator_id role_owner none mid second in
                  (ended ∙ ap committed fresh, ground arith)
              | inr (f, late, failed) ↦ absurd (ground arith)
            ]
        | inr (f, mid, failed) ↦ absurd (ground arith)
      ]

  pub create_rows-eq-ok :
      (db : Database) {id : ℤ} {db' : Database}
      → create_rows name description creator_id db ≡ (ok id, db')
      → (id ≡ pos db.next_team)
        × (db'.tables ≡ with_team db.tables (new_team db name description creator_id))
  unfolding create_rows
  create_rows-eq-ok db {id} {db'} e =
      elim (transaction-eq-ok (create_body name description creator_id) db e) [
        | inl kept ↦
            let (ended, stored) = create_body-eq-ok (spend db) kept in (ground arith, stored)
        | inr (undone, same) ↦
            let after = (create_body name description creator_id (spend db)).1 in
            let (ended, stored) =
              create_body-eq-ok (spend db) {end = left_open id} {db' = after}
                (λ i. (undone i, after)) in
            absurd (ground arith)
      ]

  -- A successful `Create` has appended one team with the next id and one membership, which makes
  -- its creator the owner, and changed nothing else; what it returns is the row with that id.
  pub create-Founded :
      (db : Database) (result : Team) (db' : Database)
      → create name description creator_id db ≡ (ok result, db')
      → (db'.tables ≡ with_team db.tables (new_team db name description creator_id))
        × (find_team (pos db.next_team) db'.tables ≡ some result)
  unfolding create
  create-Founded db result db' e =
      elim (outcome-cases (create_rows name description creator_id db)) [
        | inl (id, mid, first) ↦
            let (fresh, stored) = create_rows-eq-ok db first in
            let second : get id mid ≡ (ok result, db') = ground arith in
            let (there, spent) = get-eq-ok id mid second in
            let same : db'.tables ≡ mid.tables = ap (λ (d : Database). d.tables) spent in
            (same ∙ stored, ground arith)
        | inr (f, mid, failed) ↦ absurd (ground arith)
      ]

  pub read_back :
      (db : Database) {id : ℤ} {mid : Database}
      → create_rows name description creator_id db ≡ (ok id, mid)
      → (create name description creator_id db).1 ≡ (get id mid).1
  unfolding create
  read_back db h = ground arith

  pub not_read_back :
      (db : Database) {f : Error} {mid : Database}
      → create_rows name description creator_id db ≡ (err f, mid)
      → (create name description creator_id db).1 ≡ mid
  unfolding create
  not_read_back db h = ground arith

  pub create_rows-err_tables :
      (db : Database) {f : Error} {mid : Database}
      → create_rows name description creator_id db ≡ (err f, mid)
      → mid.tables ≡ db.tables
  unfolding create_rows
  create_rows-err_tables db failed =
      transaction-err_tables (create_body name description creator_id) db failed

  -- However `Create` ends, no team was stored without its owner: the tables are as they were, or
  -- have both new rows, also where the new team could not be read back.
  pub create_both_or_neither :
      (db : Database)
      → ((create name description creator_id db).1.tables ≡ db.tables)
        ⊎ ((create name description creator_id db).1.tables
            ≡ with_team db.tables (new_team db name description creator_id))
  create_both_or_neither db = elim (outcome-cases (create_rows name description creator_id db)) [
    | inl (id, mid, first) ↦ inr (
        ap (λ (d : Database). d.tables) (read_back db first)
        ∙ get_tables id mid
        ∙ (create_rows-eq-ok db first).1)
    | inr (f, mid, failed) ↦ inl (
        ap (λ (d : Database). d.tables) (not_read_back db failed)
        ∙ create_rows-err_tables db failed)
  ]
