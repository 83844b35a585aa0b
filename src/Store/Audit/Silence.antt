-- ===== src/Store/Audit/Silence.antt =====
-- When `buildHistory` of internal/store/mysql/task_repo.go writes nothing down, on which `Update`
-- leaves its transaction without a write.
use testovoe_bazis.Common.{
  ◌≡◌, ◌↔◌, refl, sym, subst, Bool, true, false, Option, none, some, List, [], ◌∷◌, ◌++◌, ℤ, arith,
  take, int_eq, int_beq_iff, text_eq, text_beq_iff, text_beq_refl, ◌==◌, codes, if◌then◌else◌,
}
use testovoe_bazis.Domain.{Time, Task, TaskPatch, TaskHistory}
use testovoe_bazis.Store.Audit.{build_history}
use testovoe_bazis.Store.Audit.Effect.{
  or_old, patched, text_change, same_assignee, same_assignee_refl, assignee_change, differences,
  build_history_lem,
}

-- An entry is left out only if its test has passed.
unless-eq-nil : (same : Bool) (x : TaskHistory) → (if same then [] else x ∷ []) ≡ [] → same ≡ true
unless-eq-nil true x h = refl
unless-eq-nil false x h = cc

same_assignee_sound : (a b : Option ℤ) → same_assignee a b ≡ true → b ≡ a
same_assignee_sound none none h = refl
same_assignee_sound none (some b) h = cc
same_assignee_sound (some a) none h = cc
same_assignee_sound (some a) (some b) h = ground (arith, int_beq_iff a b)

append-eq-nil : {A : Type 0} (xs ys : List A) → xs ++ ys ≡ [] → (xs ≡ []) × (ys ≡ [])
append-eq-nil [] ys h = (refl, h)
append-eq-nil (x ∷ xs) ys h = cc

-- No difference means that the four fields agree.
differences-eq-nil :
    (actor_id : ℤ) (new old : Task)
    → differences actor_id new old ≡ []
    → (new.title ≡ old.title)
      × (new.description ≡ old.description)
      × (new.status ≡ old.status)
      × (new.assignee_id ≡ old.assignee_id)
differences-eq-nil actor_id new old h =
    let s = text_change actor_id old.id (codes "status") new.status old.status (λ s. s) in
    let a = assignee_change actor_id old.id new.assignee_id old.assignee_id in
    let d =
      text_change actor_id old.id (codes "description") new.description old.description
        (λ s. take 500 s) in
    let (titles, h1) = append-eq-nil _ (d ++ (s ++ a)) h in
    let (descriptions, h2) = append-eq-nil d (s ++ a) h1 in
    let (statuses, assignees) = append-eq-nil s a h2 in
    (
      (text_beq_iff _ _).0 (unless-eq-nil (new.title == old.title) _ titles),
      (text_beq_iff _ _).0 (unless-eq-nil (new.description == old.description) _ descriptions),
      (text_beq_iff _ _).0 (unless-eq-nil (new.status == old.status) _ statuses),
      same_assignee_sound old.assignee_id new.assignee_id
          (unless-eq-nil (same_assignee old.assignee_id new.assignee_id) _ assignees),
    )

differences_self : (actor_id : ℤ) (t : Task) → differences actor_id t t ≡ []
differences_self actor_id t = simp (text_beq_refl, same_assignee_refl)

-- A patch that changes none of the four fields leaves the task as it was.
pub patched-eq_of_differences :
    (t : Task) (p : TaskPatch) (actor_id : ℤ) (now : Time)
    → differences actor_id (patched t p now) t ≡ []
    → patched t p now ≡ t
patched-eq_of_differences t p actor_id now h =
    let same = differences-eq-nil actor_id (patched t p now) t h in
    ground (arith, same, text_beq_iff (or_old p.status t.status) t.status)

-- The history is empty if and only if the task comes out as it went in.
pub build_history-eq-nil_iff :
    (t : Task) (p : TaskPatch) (actor_id : ℤ) (now : Time)
    → ((build_history t p actor_id now).1 ≡ []) ↔ ((build_history t p actor_id now).0 ≡ t)
build_history-eq-nil_iff t p actor_id now = rw build_history_lem (
  patched-eq_of_differences t p actor_id now,
  λ e. subst (λ k. differences actor_id k t ≡ []) (sym e) (differences_self actor_id t),
)
