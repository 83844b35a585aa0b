-- ===== src/Store/Audit/Columns.antt =====
-- The entries of `buildHistory` fit the columns of the table task_history.
use mathlib.Core.Option
use testovoe_bazis.Common.{
  ◌≡◌, ◌≤◌, refl, sym, subst, inl, inr, true, false, Option, none, some, ℤ, arith, ltb, length,
  length-take, take, All, All-append, Bool-cases, Text, codes, text_eq, text_beq_iff, ◌==◌, Is64,
  format_int, length-format_int,
}
use testovoe_bazis.Domain.{
  Time, Task, TaskPatch, TaskHistory, status_valid, status_todo, status_in_progress, status_done,
}
use testovoe_bazis.Store.Database.{longer_value}
use testovoe_bazis.Store.Audit.{History, build_history}
use testovoe_bazis.Store.Audit.Effect.{
  patched, differences, text_change, assignee_change, same_assignee, build_history_lem,
}

-- VARCHAR(50) for the field, VARCHAR(500) for the values.
pub record FitsColumns (h : TaskHistory) : Type 0 where
  pub field_fits : longer_value 50 h.field ≡ false
  pub old_fits : longer_value 500 h.old_value ≡ false
  pub new_fits : longer_value 500 h.new_value ≡ false

abbrev pub Is64? : Option ℤ → Type 0
Is64? none = Unit
Is64? (some v) = Is64 v

-- A task as the services let it through: a bounded title, a known status, a 64-bit assignee. The
-- description has no bound.
pub record IsStorable (t : Task) : Type 0 where
  pub title_max : length t.title ≤ 200
  pub status_known : status_valid t.status ≡ true
  pub assignee_64 : Is64? t.assignee_id

abbrev Fits500 : Text → Type 0
Fits500 s = ltb 500 (length s) ≡ false

length-Fits500 : (s : Text) → length s ≤ 500 → Fits500 s
length-Fits500 s h = ground arith

take-Fits500 : (s : Text) → Fits500 (take 500 s)
take-Fits500 s = length-Fits500 (take 500 s) (length-take 500 s)

-- The three statuses are short.
status_valid-Fits500 : (s : Text) → status_valid s ≡ true → Fits500 s
unfolding status_valid
status_valid-Fits500 s h = length-Fits500 s (
    ground (
      arith,
      text_beq_iff s status_todo,
      text_beq_iff s status_in_progress,
      text_beq_iff s status_done,
    ))

number-Fits500 : (a : Option ℤ) → Is64? a → longer_value 500 (Option.map format_int a) ≡ false
number-Fits500 none h = refl
number-Fits500 (some v) h = length-Fits500 (format_int v) (omega (arith, length-format_int v h))

module _ (actor_id task_id : ℤ) where
  text_change-FitsColumns :
      (field new old : Text) (shown : Text → Text)
      → length field ≤ 50
      → Fits500 (shown old)
      → Fits500 (shown new)
      → All FitsColumns (text_change actor_id task_id field new old shown)
  text_change-FitsColumns field new old shown f h k = elim (Bool-cases (new == old)) [
    | inl same ↦ rw same tt
    | inr differ ↦ rw differ (record { field_fits = ground arith; old_fits = h; new_fits = k }, tt)
  ]

  assignee_change-FitsColumns :
      (new old : Option ℤ)
      → Is64? new
      → Is64? old
      → All FitsColumns (assignee_change actor_id task_id new old)
  assignee_change-FitsColumns new old h k = elim (Bool-cases (same_assignee old new)) [
    | inl same ↦ rw same tt
    | inr differ ↦ rw differ (
      record {
        field_fits = refl;
        old_fits = number-Fits500 old k;
        new_fits = number-Fits500 new h;
      },
      tt,
    )
  ]

differences-FitsColumns :
    (actor_id : ℤ) (new old : Task)
    → IsStorable new
    → IsStorable old
    → All FitsColumns (differences actor_id new old)
differences-FitsColumns actor_id new old n o =
    let titles =
      text_change-FitsColumns actor_id old.id (codes "title") new.title old.title (λ s. s)
        (omega arith) (length-Fits500 old.title (omega arith))
        (length-Fits500 new.title (omega arith)) in
    let descriptions =
      text_change-FitsColumns actor_id old.id (codes "description") new.description old.description
        (λ s. take 500 s) (omega arith) (take-Fits500 old.description)
        (take-Fits500 new.description) in
    let statuses =
      text_change-FitsColumns actor_id old.id (codes "status") new.status old.status (λ s. s)
        (omega arith) (status_valid-Fits500 old.status o.status_known)
        (status_valid-Fits500 new.status n.status_known) in
    let assignees =
      assignee_change-FitsColumns actor_id old.id new.assignee_id old.assignee_id n.assignee_64
        o.assignee_64 in
    All-append FitsColumns _ _ titles
      (All-append FitsColumns _ _ descriptions (All-append FitsColumns _ _ statuses assignees))

-- If the task has a title of at most 200 characters, a known status and a 64-bit assignee, before
-- and after the patch, then every entry of its history fits the columns: the field 50 characters,
-- both values 500, however long the descriptions are.
pub build_history-FitsColumns :
    (t : Task) (p : TaskPatch) (actor_id : ℤ) (now : Time)
    → IsStorable t
    → IsStorable (build_history t p actor_id now).0
    → All FitsColumns (build_history t p actor_id now).1
build_history-FitsColumns t p actor_id now h k =
    let e = build_history_lem t p actor_id now in
    subst (λ (d : Task × History). All FitsColumns d.1) (sym e)
      (differences-FitsColumns actor_id (patched t p now) t
        (subst (λ (d : Task × History). IsStorable d.0) e k) h)
