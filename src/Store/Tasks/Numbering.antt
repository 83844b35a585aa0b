-- ===== src/Store/Tasks/Numbering.antt =====
-- The ids of tasks: below the counter, and each of one team.
use testovoe_bazis.Common.{
  ℕ, suc, ◌≤◌, ◌<◌, ◌≡◌, refl, sym, ap, subst, ◌∙◌, inl, inr, Bool-cases, List, [], ◌∷◌, ◌++◌, map,
  ℤ, pos, pos_part, int_beq, int_beq_iff, int_eq, arith, All, All-append, All-map, if◌then◌else◌,
  Result, ok, outcome-cases,
}
use testovoe_bazis.Domain.{Task}
use testovoe_bazis.Store.Database.{Database, Ending, left_open, spend, now}
use testovoe_bazis.Store.Database.Steps.{transaction-eq-ok}
use testovoe_bazis.Store.Tasks.{insert_task, stamped, create_body, create, overwrite}
use testovoe_bazis.Store.Tasks.Elsewhere.{overwrite-id, overwrite-team_id}
use testovoe_bazis.Store.Tasks.Counting.{Grows, create_rest, Grows-create_rest}
use testovoe_bazis.Store.Tasks.Creating.{insert_task-eq-ok, create_body-eq-ok}

-- Every id is below the counter, and the tasks with one id are of one team.
pub record IsNumbered (tasks : List Task) (next : ℕ) : Type 0 where
  pub below : All (λ (k : Task). pos_part k.id < next) tasks
  pub team_of : ℤ → ℤ
  pub teams : All (λ (k : Task). k.team_id ≡ team_of k.id) tasks

pub IsNumbered-later :
    (tasks : List Task) (m n : ℕ) → m ≤ n → IsNumbered tasks m → IsNumbered tasks n
IsNumbered-later tasks m n h num = record {
  below = weaken tasks num.below;
  team_of = num.team_of;
  teams = num.teams;
}
  where
    weaken :
        (ks : List Task)
        → All (λ (k : Task). pos_part k.id < m) ks
        → All (λ (k : Task). pos_part k.id < n) ks
    weaken [] b = tt
    weaken (k ∷ ks) (p, b) = (omega (arith, p, h), weaken ks b)

create_body-next :
    (k : Task) (db : Database) {end : Ending Task} {db' : Database}
    → create_body k db ≡ (ok end, db')
    → suc db.next_task ≤ db'.next_task
unfolding create_body Grows
create_body-next k db {end} {db'} e = elim (outcome-cases (insert_task (stamped (now db) k) db)) [
  | inl (id, mid, first) ↦
      let (fresh, fits, added) = insert_task-eq-ok (stamped (now db) k) db first in
      let rest : create_rest k (now db) id mid ≡ (ok end, db') = ground arith in
      let counted : mid.next_task ≡ suc db.next_task = ap (λ (d : Database). d.next_task) added in
      let more = Grows-create_rest k (now db) id mid in
      let last = ap (λ (p : Result (Ending Task) × Database). p.1.next_task) rest in
      omega (arith, counted, more, last)
  | inr (f, mid, failed) ↦ absurd (ground arith)
]

-- A task that was created has used up a number.
pub create-next :
    (k : Task) (db : Database) (r : Task) (db' : Database)
    → create k db ≡ (ok r, db')
    → suc db.next_task ≤ db'.next_task
unfolding create
create-next k db r db' e = elim (transaction-eq-ok (create_body k) db e) [
  | inl kept ↦ create_body-next k (spend db) kept
  | inr (undone, same) ↦
      let after = (create_body k (spend db)).1 in
      let (ended, fits, stored) =
        create_body-eq-ok k (spend db) {end = left_open r} {db' = after} (λ i. (undone i, after)) in
      absurd (ground arith)
]

module _ (tasks : List Task) (next : ℕ) (num : IsNumbered tasks next) (r : Task) where
  team_with : ℤ → ℤ
  team_with id = if int_beq id r.id then r.team_id else num.team_of id

  teams_with :
      (ks : List Task)
      → r.id ≡ pos next
      → All (λ (k : Task). pos_part k.id < next) ks
      → All (λ (k : Task). k.team_id ≡ num.team_of k.id) ks
      → All (λ (k : Task). k.team_id ≡ team_with k.id) ks
  unfolding team_with
  teams_with [] fresh b h = tt
  teams_with (k ∷ ks) fresh (low, b) (p, h) = elim (Bool-cases (int_beq k.id r.id)) [
    | inl same ↦
        let e = ap pos_part ((int_beq_iff k.id r.id).0 same ∙ fresh) in
        absurd (omega (arith, e, low))
    | inr other ↦ (rw other p, teams_with ks fresh b h)
  ]

  team_with-new : team_with r.id ≡ r.team_id
  unfolding team_with
  team_with-new = rw ((int_beq_iff r.id r.id).1 refl) refl

  pub IsNumbered-append :
      (n : ℕ) → r.id ≡ pos next → suc next ≤ n → IsNumbered (tasks ++ (r ∷ [])) n
  IsNumbered-append n fresh h =
      let old = IsNumbered-later tasks next n (omega (arith, h)) num in
      record {
        below =
            All-append (λ (k : Task). pos_part k.id < n) tasks (r ∷ []) old.below
              (omega (arith, h, ap pos_part fresh), tt);
        team_of = team_with;
        teams =
            All-append (λ (k : Task). k.team_id ≡ team_with k.id) tasks (r ∷ [])
              (teams_with tasks fresh num.below num.teams) (sym team_with-new, tt);
      }

  pub IsNumbered-overwrite : IsNumbered (map (overwrite r) tasks) next
  IsNumbered-overwrite = record {
    below =
        All-map (λ (k : Task). pos_part k.id < next) (overwrite r) tasks
          (λ k h. subst (λ i. pos_part i < next) (sym (overwrite-id r k)) h) num.below;
    team_of = num.team_of;
    teams =
        All-map (λ (k : Task). k.team_id ≡ num.team_of k.id) (overwrite r) tasks
          (λ k h. overwrite-team_id r k ∙ h ∙ ap num.team_of (sym (overwrite-id r k))) num.teams;
  }
