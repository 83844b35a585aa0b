-- ===== src/Store/Teams.antt =====
-- internal/store/mysql/team_repo.go: the repository of teams and memberships.
pub mod Reading
pub mod Founding
pub mod Owners
pub mod Owning
use testovoe_bazis.Common.{
  ℕ, suc, ◌&&◌, Bool, true, Option, none, some, List, [], ◌∷◌, ◌++◌, map, ℤ, pos, int_eq, nat_eq,
  ◌==◌, Text, select, find_first, any, if◌then◌else◌, Error, sentinel, conflict, mysql_number, wrap,
  plain, Action, Result, ok, err, pure, gets, on_error, check, modify, ◌>>=◌, ◌>>◌,
}
use testovoe_bazis.Domain.{Time, Role, Team, TeamMember, role_owner}
use testovoe_bazis.Store.Database.{
  Database, Tables, statement, query, query_row, exec, or_not_found, now, Ending, committed,
  left_open, transaction, commit, order_desc, team_row_error, member_row_error, is_membership,
  has_member,
}

-- `IsMySQLDuplicate` of task_repo.go.
abbrev is_duplicate : Option ℕ → Bool
is_duplicate none = Bool.false
is_duplicate (some number) = number == 1062

unfoldable pub is_mysql_duplicate : Error → Bool
is_mysql_duplicate e = is_duplicate (mysql_number e)

abbrev pub find_team : ℤ → Tables → Option Team
find_team id t = find_first (λ (m : Team). m.id == id) t.teams

-- `TeamRepository.Get`
unfoldable pub get : ℤ → Action Database Team
get id = on_error (query_row (find_team id)) (or_not_found (plain "select team"))

abbrev pub add_team : Team → Database → Database
add_team m db = record db {
  tables = record (db.tables) { teams = db.tables.teams ++ (m ∷ []) };
  next_team = suc db.next_team;
}

-- INSERT INTO teams: the server fills in the id and the times.
unfoldable pub insert_team : Text → Text → ℤ → Action Database ℤ
insert_team name description creator_id = do
  id ← gets (λ db. pos db.next_team)
  at ← gets now
  let m =
      let row : Team = record {
        id = id;
        name = name;
        description = description;
        created_by = creator_id;
        created_at = at;
        updated_at = at;
      } in
      row
  exec (team_row_error m) (add_team m)
  pure id

abbrev pub add_row : TeamMember → Database → Database
add_row m db = record db { tables = record (db.tables) { members = db.tables.members ++ (m ∷ []) } }

-- INSERT INTO team_members
unfoldable pub insert_member : ℤ → ℤ → Role → Option ℤ → Action Database (Unit {0})
insert_member team_id user_id role invited_by = do
  at ← gets now
  let m =
      let row : TeamMember = record {
        team_id = team_id;
        user_id = user_id;
        role = role;
        invited_by = invited_by;
        created_at = at;
      } in
      row
  exec (member_row_error m) (add_row m)

-- The part of `Create` inside its transaction: the team and the membership of its owner.
unfoldable pub create_body : Text → Text → ℤ → Action Database (Ending ℤ)
create_body name description creator_id = do
  id ← on_error (insert_team name description creator_id) (wrap (plain "insert team"))
  on_error (insert_member id creator_id role_owner none) (wrap (plain "insert owner membership"))
  commit id

unfoldable pub create_rows : Text → Text → ℤ → Action Database ℤ
create_rows name description creator_id = transaction (create_body name description creator_id)

-- `TeamRepository.Create`
unfoldable pub create : Text → Text → ℤ → Action Database Team
create name description creator_id = do id ← create_rows name description creator_id; get id

-- The join of a team with the memberships of a user.
abbrev joined : ℤ → List TeamMember → List Team → List Team
joined user_id members [] = []
joined user_id members (m ∷ teams) =
    map (λ _. m) (select (is_membership m.id user_id) members) ++ joined user_id members teams

abbrev team_id : Team → ℤ
team_id m = m.id

-- `TeamRepository.ListByUser`
unfoldable pub list_by_user : ℤ → Action Database (List Team)
list_by_user user_id =
    on_error (query (λ t. order_desc team_id (joined user_id t.members t.teams)))
      (wrap (plain "select teams by user"))

abbrev role_of : Option TeamMember → Option Role
role_of none = none
role_of (some m) = some m.role

abbrev pub find_role : ℤ → ℤ → Tables → Option Role
find_role team_id user_id t = role_of (find_first (is_membership team_id user_id) t.members)

-- `TeamRepository.GetMemberRole`
unfoldable pub get_member_role : ℤ → ℤ → Action Database Role
get_member_role team_id user_id =
    on_error (query_row (find_role team_id user_id)) (or_not_found (plain "select member role"))

-- `TeamRepository.IsMember`
unfoldable pub is_member : ℤ → ℤ → Action Database Bool
is_member team_id user_id =
    on_error (query (has_member team_id user_id)) (wrap (plain "check membership"))

-- `TeamRepository.AddMember`
unfoldable pub add_member : ℤ → ℤ → ℤ → Role → Action Database (Unit {0})
add_member team_id user_id invited_by role =
    on_error (insert_member team_id user_id role (some invited_by)) (λ e.
      if is_mysql_duplicate e
      then wrap (plain "user is already a member of the team") (sentinel conflict)
      else wrap (plain "insert team member") e)
