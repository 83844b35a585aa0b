-- ===== src/Store/Teams/Reading.antt =====
-- The reads of internal/store/mysql/team_repo.go: what a successful one says of the tables.
use testovoe_bazis.Common.{
  ◌≡◌, inl, inr, Bool, true, some, ℤ, arith, int_eq, int_beq_iff, Mem, find_first, find_first-Mem,
  any-Mem, Option-cases, ok, on_error-eq-ok,
}
use testovoe_bazis.Domain.{Role, TeamMember}
use testovoe_bazis.Store.Database.{
  Database, Tables, is_membership, spend, query, query_row, has_member,
}
use testovoe_bazis.Store.Database.Steps.{query_row-eq-ok, query-eq-ok}
use testovoe_bazis.Store.Teams.{find_role, get_member_role, is_member}

-- The user has a row in the team, and one with the role.
abbrev pub IsMember : ℤ → ℤ → Tables → Type 0
IsMember team_id user_id t =
    (m : TeamMember) × Mem m t.members × (m.team_id ≡ team_id) × (m.user_id ≡ user_id)

abbrev pub HasRole : ℤ → ℤ → Role → Tables → Type 0
HasRole team_id user_id role t =
    (m : TeamMember) × Mem m t.members
    × (m.team_id ≡ team_id)
    × (m.user_id ≡ user_id)
    × (m.role ≡ role)

is_membership_ids :
    (team_id user_id : ℤ) (m : TeamMember)
    → is_membership team_id user_id m ≡ true
    → (m.team_id ≡ team_id) × (m.user_id ≡ user_id)
is_membership_ids team_id user_id m h =
    ground (arith, int_beq_iff m.team_id team_id, int_beq_iff m.user_id user_id)

pub has_member-IsMember :
    (team_id user_id : ℤ) (t : Tables)
    → has_member team_id user_id t ≡ true
    → IsMember team_id user_id t
has_member-IsMember team_id user_id t h =
    let (m, there, passed) = any-Mem (is_membership team_id user_id) t.members h in
    let (team, user) = is_membership_ids team_id user_id m passed in (m, there, team, user)

pub find_role-HasRole :
    (team_id user_id : ℤ) (t : Tables) {role : Role}
    → find_role team_id user_id t ≡ some role
    → HasRole team_id user_id role t
find_role-HasRole team_id user_id t {role} h =
    elim (Option-cases (find_first (is_membership team_id user_id) t.members)) [
      | inl nobody ↦ absurd (ground arith)
      | inr (m, hit) ↦
          let (there, passed) = find_first-Mem (is_membership team_id user_id) t.members hit in
          let (team, user) = is_membership_ids team_id user_id m passed in
          (m, there, team, user, ground arith)
    ]

pub get_member_role-eq-ok :
    (team_id user_id : ℤ) (db : Database) {role : Role} {db' : Database}
    → get_member_role team_id user_id db ≡ (ok role, db')
    → (find_role team_id user_id db.tables ≡ some role) × (db' ≡ spend db)
unfolding get_member_role
get_member_role-eq-ok team_id user_id db e =
    query_row-eq-ok (find_role team_id user_id) db
      (on_error-eq-ok (query_row (find_role team_id user_id)) _ db e)

pub is_member-eq-ok :
    (team_id user_id : ℤ) (db : Database) {b : Bool} {db' : Database}
    → is_member team_id user_id db ≡ (ok b, db')
    → (has_member team_id user_id db.tables ≡ b) × (db' ≡ spend db)
unfolding is_member
is_member-eq-ok team_id user_id db e =
    query-eq-ok (has_member team_id user_id) db
      (on_error-eq-ok (query (has_member team_id user_id)) _ db e)
