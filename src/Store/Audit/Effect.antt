-- ===== src/Store/Audit/Effect.antt =====
-- What `buildHistory` of internal/store/mysql/task_repo.go does to the task, and which changes it
-- writes down.
use mathlib.Core.List.{append-nil, append_assoc}
use mathlib.Core.Option
use testovoe_bazis.Common.{
  ◌≡◌, refl, sym, ap, inl, inr, ℕ, zero, suc, ◌≤◌, Bool, true, false, Option, none, some, [], ◌∷◌,
  ◌++◌, ℤ, pos, arith, leb, length, take, int_eq, int_beq_iff, text_eq, text_beq_iff, text_beq_refl,
  Bool-cases, ◌==◌, Text, codes, format_int, format_int_injective, if◌then◌else◌,
}
use testovoe_bazis.Domain.{Time, Task, TaskPatch, TaskStatus, TaskHistory, OptionalInt64}
use testovoe_bazis.Store.Audit.{
  History, Draft, int64_ptr, equal_str_ptr, truncate, entry, change_title, change_description,
  change_status, change_assignee, build_history,
}

-- A field of a patch, or what it leaves as it was.
abbrev pub or_old : {A : Type 0} → Option A → A → A
or_old none old = old
or_old (some new) old = new

-- The task that a patch asks for. The time of completion moves only with the status: it is the time
-- of the change if that makes the task `done`, and none if it makes it anything else.
abbrev pub patched : Task → TaskPatch → Time → Task
patched t p now = record t {
  title = or_old p.title t.title;
  description = or_old p.description t.description;
  status = or_old p.status t.status;
  assignee_id = if p.assignee.is_set then p.assignee.value else t.assignee_id;
  completed_at =
      if or_old p.status t.status == t.status
      then t.completed_at
      else if or_old p.status t.status == codes "done"
      then some now
      else none;
}

-- The entry of a changed field: who changed which field of which task, from what to what.
abbrev pub update_entry : ℤ → ℤ → Text → Option Text → Option Text → TaskHistory
update_entry actor_id task_id field old new = record {
  id = pos 0;
  task_id = task_id;
  changed_by = actor_id;
  action = codes "updated";
  field = some field;
  old_value = old;
  new_value = new;
  created_at = 0;
}

-- The entry that tells two values of a field apart, if they differ.
abbrev pub text_change : ℤ → ℤ → Text → Text → Text → (Text → Text) → History
text_change actor_id task_id field new old shown =
    if new == old
    then []
    else update_entry actor_id task_id field (some (shown old)) (some (shown new)) ∷ []

abbrev pub same_assignee : Option ℤ → Option ℤ → Bool
same_assignee none none = true
same_assignee (some a) (some b) = a == b
same_assignee _ _ = false

-- Assignees are written in decimal.
abbrev pub assignee_change : ℤ → ℤ → Option ℤ → Option ℤ → History
assignee_change actor_id task_id new old =
    if same_assignee old new
    then []
    else update_entry actor_id task_id (codes "assignee_id") (Option.map format_int old)
        (Option.map format_int new)
      ∷ []

-- The differences between two states of a task, in the order of the fields.
abbrev pub differences : ℤ → Task → Task → History
differences actor_id new old =
    text_change actor_id old.id (codes "title") new.title old.title (λ s. s)
    ++ (text_change actor_id old.id (codes "description") new.description old.description
          (λ s. take 500 s)
        ++ (text_change actor_id old.id (codes "status") new.status old.status (λ s. s)
            ++ assignee_change actor_id old.id new.assignee_id old.assignee_id))

take-eq_of_short : (n : ℕ) (s : Text) → length s ≤ n → take n s ≡ s
take-eq_of_short zero [] h = refl
take-eq_of_short zero (c ∷ s) h = absurd (omega (arith, h))
take-eq_of_short (suc n) [] h = refl
take-eq_of_short (suc n) (c ∷ s) h = ap (λ t. c ∷ t) (take-eq_of_short n s (omega (arith, h)))

-- `truncate` keeps the first characters, all of them if they are few.
truncate-eq-take : (s : Text) (n : ℕ) → truncate s n ≡ take n s
unfolding truncate
truncate-eq-take s n = elim (Bool-cases (leb (length s) n)) [
  | inl short ↦ rw short (sym (take-eq_of_short n s (ground arith)))
  | inr long ↦ rw long
]

int64_ptr-eq-map : (a : Option ℤ) → int64_ptr a ≡ Option.map format_int a
unfolding int64_ptr
int64_ptr-eq-map none = refl
int64_ptr-eq-map (some a) = refl

pub same_assignee_refl : (a : Option ℤ) → same_assignee a a ≡ true
same_assignee_refl none = refl
same_assignee_refl (some a) = (int_beq_iff a a).1 refl

-- Pointers to numbers are compared through their decimal forms, which is the same.
equal_str_ptr-map :
    (a b : Option ℤ)
    → equal_str_ptr (Option.map format_int a) (Option.map format_int b) ≡ same_assignee a b
unfolding equal_str_ptr
equal_str_ptr-map none none = refl
equal_str_ptr-map none (some b) = refl
equal_str_ptr-map (some a) none = refl
equal_str_ptr-map (some a) (some b) =
    ground
      (arith, text_beq_iff (format_int a) (format_int b), format_int_injective a b, int_beq_iff a b)

module _ (actor_id : ℤ) where
  change_title_lem :
      (o : Option Text) (d : Draft)
      → change_title actor_id o d ≡ (
        record (d.0) { title = or_old o d.0.title },
        d.1 ++ text_change actor_id d.0.id (codes "title") (or_old o d.0.title) d.0.title (λ s. s),
      )
  unfolding change_title entry
  change_title_lem none d = rw (text_beq_refl, append-nil)
  change_title_lem (some title) d = elim (Bool-cases (title == d.0.title)) [
    | inl same ↦ let e = (text_beq_iff _ _).0 same in rw (same, e, append-nil)
    | inr differ ↦ rw differ
  ]

  change_description_lem :
      (o : Option Text) (d : Draft)
      → change_description actor_id o d ≡ (
        record (d.0) { description = or_old o d.0.description },
        d.1
            ++ text_change actor_id d.0.id
                (codes "description")
                (or_old o d.0.description)
                d.0.description
                (λ s. take 500 s),
      )
  unfolding change_description entry
  change_description_lem none d = rw (text_beq_refl, append-nil)
  change_description_lem (some title) d = elim (Bool-cases (title == d.0.description)) [
    | inl same ↦ let e = (text_beq_iff _ _).0 same in rw (same, e, append-nil)
    | inr differ ↦ simp (differ, truncate-eq-take)
  ]

  change_status_lem :
      (o : Option TaskStatus) (now : Time) (d : Draft)
      → change_status actor_id o now d ≡ (
        record (d.0) {
          status = or_old o d.0.status;
          completed_at =
              if or_old o d.0.status == d.0.status
              then d.0.completed_at
              else if or_old o d.0.status == codes "done"
              then some now
              else none;
        },
        d.1
            ++ text_change actor_id d.0.id
                (codes "status")
                (or_old o d.0.status)
                d.0.status
                (λ s. s),
      )
  unfolding change_status entry
  change_status_lem none now d = rw (text_beq_refl, append-nil)
  change_status_lem (some status) now d = elim (Bool-cases (status == d.0.status)) [
    | inl same ↦ let e = (text_beq_iff _ _).0 same in rw (same, e, append-nil)
    | inr differ ↦ rw differ
  ]

  change_assignee_lem :
      (a : OptionalInt64) (d : Draft)
      → let new = if a.is_set then a.value else d.0.assignee_id in
        change_assignee actor_id a d ≡ (
          record (d.0) { assignee_id = new },
          d.1 ++ assignee_change actor_id d.0.id new d.0.assignee_id,
        )
  unfolding change_assignee entry
  change_assignee_lem a d = elim (Bool-cases a.is_set) [
    | inl set ↦ elim (Bool-cases (same_assignee d.0.assignee_id a.value)) [
      | inl same ↦ simp (set, int64_ptr-eq-map, equal_str_ptr-map, same, append-nil)
      | inr differ ↦ simp (set, int64_ptr-eq-map, equal_str_ptr-map, differ)
    ]
    | inr unset ↦ simp (unset, same_assignee_refl, append-nil)
  ]

-- The task comes out as the patch asks, with the time of completion set if it becomes `done` and
-- cleared if its status becomes anything else; and the history holds exactly the differences between
-- that task and the one that was read, in the order of the fields: an entry `updated` of the actor
-- for a field if and only if it changed, with its old and its new value, of descriptions the first
-- 500 characters, of assignees the decimal digits.
pub build_history_lem :
    (t : Task) (p : TaskPatch) (actor_id : ℤ) (now : Time)
    → build_history t p actor_id now ≡ (patched t p now, differences actor_id (patched t p now) t)
unfolding build_history
build_history_lem t p actor_id now =
    simp (
      change_title_lem, change_description_lem, change_status_lem, change_assignee_lem,
      append_assoc,
    )
