-- ===== src/Tests/Founding.antt =====
-- Teams, at one database.
use testovoe_bazis.Common.{
  ◌≡◌, ◌⊎◌, refl, some, none, [], ◌∷◌, pos, codes, foreign, byte_len, text_beq,
}
use testovoe_bazis.Domain.{Team, role_valid}
use testovoe_bazis.Store.Database.{
  Database, statement, team_row_error, member_row_error, missing, long_text,
}
use testovoe_bazis.Store.Teams as TeamRepository
use testovoe_bazis.Store.Teams.{find_team, insert_team, insert_member, create_body, create_rows}
use testovoe_bazis.Store.Teams.Founding.{
  new_team, with_team, create-Founded, create_both_or_neither,
}
use testovoe_bazis.Tests.Data.{database}

abbrev founded : Team
founded = new_team database (codes "club") [] (pos 2)

abbrev founded_database : Database
founded_database = (TeamRepository.create (codes "club") [] (pos 2) database).1

create-Founded_example :
    (founded_database.tables ≡ with_team database.tables founded)
    × (find_team (pos 2) founded_database.tables ≡ some founded)
unfolding TeamRepository.create TeamRepository.get insert_team insert_member create_body create_rows
    statement team_row_error member_row_error missing long_text byte_len role_valid text_beq
create-Founded_example =
    create-Founded (codes "club") [] (pos 2) database founded founded_database refl

-- The connection is lost at the commit.
abbrev lost_commit : Database
lost_commit = record database { faults = none ∷ none ∷ none ∷ some (foreign 1) ∷ [] }

create_both_or_neither_example :
    ((TeamRepository.create (codes "club") [] (pos 2) lost_commit).1.tables ≡ lost_commit.tables)
    ⊎ ((TeamRepository.create (codes "club") [] (pos 2) lost_commit).1.tables
        ≡ with_team lost_commit.tables (new_team lost_commit (codes "club") [] (pos 2)))
create_both_or_neither_example = create_both_or_neither (codes "club") [] (pos 2) lost_commit
