-- ===== src/Store/Database/Steps.antt =====
-- What a statement that was carried out says of the tables: the inversion lemmas of the
-- repositories.
use testovoe_bazis.Common.{
  ◌≡◌, sym, ap, ◌∙◌, ◌⊎◌, inl, inr, Option, none, some, arith, Error, Result, ok, err, Action,
  outcome-cases,
}
use testovoe_bazis.Store.Database.{
  Database, Ending, committed, left_open, statement, query, query_row, exec, spend, transaction,
  end_transaction,
}
use testovoe_bazis.Store.Database.Schema.{Tables}

-- Whatever becomes of a statement, it takes one answer off the list and leaves the rest alone.
pub statement_spends : (db : Database) → (statement db).1 ≡ spend db
unfolding statement
statement_spends db = ground arith

pub statement-eq-ok :
    (db : Database) {u : Unit {0}} {db' : Database} → statement db ≡ (ok u, db') → db' ≡ spend db
statement-eq-ok db h = sym (ap (λ p. p.1) h) ∙ statement_spends db

module _ {A : Type 0} where
  pub query-eq-ok :
      (f : Tables → A) (db : Database) {a : A} {db' : Database}
      → query f db ≡ (ok a, db')
      → (f db.tables ≡ a) × (db' ≡ spend db)
  unfolding statement
  query-eq-ok f db h = ground arith

  pub query_row-eq-ok :
      (f : Tables → Option A) (db : Database) {a : A} {db' : Database}
      → query_row f db ≡ (ok a, db')
      → (f db.tables ≡ some a) × (db' ≡ spend db)
  unfolding statement
  query_row-eq-ok f db h = ground arith

pub exec-eq-ok :
    (refused : Tables → Option Error) (change : Database → Database) (db : Database) {u : Unit {0}}
    {db' : Database}
    → exec refused change db ≡ (ok u, db')
    → (refused db.tables ≡ none) × (db' ≡ change (spend db))
unfolding statement
exec-eq-ok refused change db h = ground arith

module _ {A : Type 0} (before : Database) where
  end_transaction-err :
      (p : Result (Ending A) × Database) {e : Error} {db' : Database}
      → end_transaction before p ≡ (err e, db')
      → db'.tables ≡ before.tables
  end_transaction-err (ok (committed a), db) h = absurd (ground arith)
  end_transaction-err (ok (left_open a), db) h = absurd (ground arith)
  end_transaction-err (err e, db) h = sym (ap (λ p. p.1.tables) h)

  end_transaction-ok :
      (p : Result (Ending A) × Database) {a : A} {db' : Database}
      → end_transaction before p ≡ (ok a, db')
      → (p ≡ (ok (committed a), db')) ⊎ ((p.0 ≡ ok (left_open a)) × (db'.tables ≡ before.tables))
  end_transaction-ok (ok (committed a), db) h = inl (ground arith)
  end_transaction-ok (ok (left_open a), db) h = inr (ground arith, sym (ap (λ p. p.1.tables) h))
  end_transaction-ok (err e, db) h = absurd (ground arith)

-- A failed transaction has changed no table.
pub transaction-err_tables :
    {A : Type 0} (body : Action Database (Ending A)) (db : Database) {e : Error} {db' : Database}
    → transaction body db ≡ (err e, db')
    → db'.tables ≡ db.tables
transaction-err_tables body db h = end_transaction-err db _ h

-- A transaction that succeeds was committed, or it was left and has changed no table.
pub transaction-eq-ok :
    {A : Type 0} (body : Action Database (Ending A)) (db : Database) {a : A} {db' : Database}
    → transaction body db ≡ (ok a, db')
    → (body (spend db) ≡ (ok (committed a), db'))
      ⊎ (((body (spend db)).0 ≡ ok (left_open a)) × (db'.tables ≡ db.tables))
transaction-eq-ok body db h = elim (outcome-cases (statement db)) [
  | inl (u, v, done) ↦
      let at : v ≡ spend db = statement-eq-ok db done in
      elim (end_transaction-ok db _ h) [
        | inl kept ↦ inl (ground arith)
        | inr undone ↦ inr (ground arith)
      ]
  | inr (e, v, failed) ↦ absurd (ground arith)
]
