-- ===== src/Store/Database.antt =====
-- The database as the repositories of internal/store/mysql see it: the tables of
-- migrations/000001_init.up.sql with their constraints, statements that the server may refuse, and
-- transactions that are rolled back unless they end in a commit.
mod Schema
pub mod Steps
pub use Schema.*
unfoldable pub use Schema.{
  long_text, missing, team_row_error, member_row_error, task_row_error, history_row_error,
  user_row_error,
}
use testovoe_bazis.Common.{
  ℕ, suc, ◌+◌, ◌*◌, ◌/◌, Bool, Option, none, some, List, [], ◌∷◌, ◌++◌, map, ℤ, pos, ltb_ℤ,
  pos_part, int_eq, ◌==◌, ◌||◌, if◌then◌else◌, Text, length, take, drop, Error, sentinel, no_rows,
  mysql, not_found, Action, Result, ok, err, pure, fail, gets, on_error, check, modify, error_is,
  wrap, plain, Message, ◌>>=◌, ◌>>◌,
}
use testovoe_bazis.Domain.{Time, User, Team, TeamMember, Task, TaskHistory}

-- `faults` says what becomes of the next statements: `some e` if the server or the connection
-- answers with `e`. When it is used up, all statements are carried out.
pub record Database : Type 0 where
  pub tables : Tables
  pub next_user : ℕ
  pub next_team : ℕ
  pub next_task : ℕ
  pub next_history : ℕ
  pub faults : List (Option Error)
  pub clock : ℕ

abbrev pub next_fault : List (Option Error) → Option Error
next_fault [] = none
next_fault (fault ∷ _) = fault

abbrev pub later_faults : List (Option Error) → List (Option Error)
later_faults [] = []
later_faults (_ ∷ faults) = faults

abbrev pub spend : Database → Database
spend db = record db { faults = later_faults db.faults }

-- One round trip to the server.
unfoldable pub statement : Action Database (Unit {0})
statement db = elim (next_fault db.faults) [ none ↦ (ok tt, spend db) | some e ↦ (err e, spend db) ]

-- `SelectContext`, and `GetContext` on a query that has one row.
abbrev pub query : {A : Type 0} → (Tables → A) → Action Database A
query f = statement >> gets (λ db. f db.tables)

abbrev pub found : {A : Type 0} → Option A → Action Database A
found none = fail (sentinel no_rows)
found (some a) = pure a

-- `GetContext` on a query that may have no row.
abbrev pub query_row : {A : Type 0} → (Tables → Option A) → Action Database A
query_row f = do row ← query f; found row

-- `if errors.Is(err, sql.ErrNoRows) { return domain.ErrNotFound }`, else the error is wrapped.
abbrev pub or_not_found : Message → Error → Error
or_not_found m e = if error_is e no_rows then sentinel not_found else wrap m e

-- `ExecContext`: a statement that breaks a constraint changes nothing.
abbrev pub exec : (Tables → Option Error) → (Database → Database) → Action Database (Unit {0})
exec refused change = do
  statement
  broken ← gets (λ db. refused db.tables)
  check broken
  modify change

-- `time.Now().UTC().Truncate(time.Second)`, of a clock in nanoseconds.
abbrev pub now : Database → Time
now db = db.clock / 1000000000

-- How a function leaves its transaction.
pub data Ending (A : Type 0) : Type 0 where
  committed : A → Ending A
  left_open : A → Ending A

abbrev roll_back : Database → Database → Database
roll_back before after = record after { tables = before.tables }

-- `BeginTxx` with `defer tx.Rollback()`: what was not committed is undone. The counters of
-- AUTO_INCREMENT are not. A COMMIT that is answered with an error is taken to have failed: that the
-- server carries it out and its answer is lost is left out.
abbrev pub end_transaction :
    {A : Type 0} → Database → Result (Ending A) × Database → Result A × Database
end_transaction before (ok (committed a), db) = (ok a, db)
end_transaction before (ok (left_open a), db) = (ok a, roll_back before db)
end_transaction before (err e, db) = (err e, roll_back before db)

abbrev pub transaction : {A : Type 0} → Action Database (Ending A) → Action Database A
transaction body before =
    end_transaction before ((on_error statement (wrap (plain "begin tx")) >> body) before)

abbrev pub commit : {A : Type 0} → A → Action Database (Ending A)
commit a = on_error statement (wrap (plain "commit tx")) >> pure (committed a)

-- `ORDER BY id DESC`, by insertion.
module _ {A : Type 0} (id : A → ℤ) where
  unfoldable pub insert_desc : A → List A → List A
  insert_desc x [] = x ∷ []
  insert_desc x (y ∷ ys) = if ltb_ℤ (id x) (id y) then y ∷ insert_desc x ys else x ∷ y ∷ ys

  unfoldable pub order_desc : List A → List A
  unfolding insert_desc
  order_desc [] = []
  order_desc (x ∷ xs) = insert_desc x (order_desc xs)

-- `LIMIT ? OFFSET ?`, which the server refuses for negative arguments.
abbrev pub bad_arguments : Error
bad_arguments = mysql 1210

abbrev pub is_negative : ℤ → Bool
is_negative n = ltb_ℤ n (pos 0)

abbrev pub page_of_rows : {A : Type 0} → ℤ → ℤ → List A → List A
page_of_rows limit offset rows = take (pos_part limit) (drop (pos_part offset) rows)

unfoldable pub select_page : {A : Type 0} → ℤ → ℤ → (Tables → List A) → Action Database (List A)
select_page limit offset rows = do
  statement
  check (if is_negative limit || is_negative offset then some bad_arguments else none)
  gets (λ db. page_of_rows limit offset (rows db.tables))
