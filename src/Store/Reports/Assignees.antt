-- ===== src/Store/Reports/Assignees.antt =====
-- The report of invalid assignees.
use testovoe_bazis.Common.{
  ◌≡◌, ◌↔◌, ◌⊎◌, refl, ap, ◌∙◌, inl, inr, Bool, true, false, Bool-cases, Option, none, some, List,
  [], ◌∷◌, ◌++◌, map, ℤ, int_eq, arith, ltb_ℤ, select, any, All, All-append,
}
use testovoe_bazis.Domain.{Task, TeamMember, InvalidAssigneeTask}
use testovoe_bazis.Store.Database.{Tables, is_membership, has_member}
use testovoe_bazis.Store.Reports.{
  insert_row, order_rows, join_member, task_team, invalid_row, invalid_rows, invalid_assignees_rows,
}

either : (b : Bool) → (b ≡ false) ⊎ (b ≡ true)
either true = inr refl
either false = inl refl

module _ {A : Type 0} (P : A → Type 0) (before : A → A → Bool) where
  -- Ordering keeps and needs what holds of all rows.
  All-insert_row : (x : A) (xs : List A) → All P (insert_row before x xs) ↔ (P x × All P xs)
  unfolding insert_row
  All-insert_row x [] = ground arith
  All-insert_row x (y ∷ ys) = elim (Bool-cases (before y x)) [
    | inl first ↦ let rest = All-insert_row x ys in rw first (ground arith)
    | inr last ↦ rw last (ground arith)
  ]

  pub All-order_rows : (xs : List A) → All P (order_rows before xs) ↔ All P xs
  unfolding order_rows
  All-order_rows [] = (λ h. h, λ h. h)
  All-order_rows (x ∷ xs) =
      let one = All-insert_row x (order_rows before xs) in
      let rest = All-order_rows xs in
      (λ h. let (p, q) = one.0 h in (p, rest.0 q), λ h. one.1 (h.0, rest.1 h.1))

module _ {A : Type 0} (P : A → Type 0) where
  All-join_one :
      (x : A) (p : TeamMember → Bool) (members : List TeamMember)
      → All P (map (λ _. x) (select p members)) ↔ ((any p members ≡ false) ⊎ P x)
  All-join_one x p [] = ground arith
  All-join_one x p (m ∷ members) = elim (Bool-cases (p m)) [
    | inl joined ↦ let rest = All-join_one x p members in rw joined (ground arith)
    | inr other ↦ let rest = All-join_one x p members in rw other rest
  ]

  pub All-append_iff : (xs ys : List A) → All P (xs ++ ys) ↔ (All P xs × All P ys)
  All-append_iff [] ys = ground arith
  All-append_iff (x ∷ xs) ys = let rest = All-append_iff xs ys in ground arith

  -- A row is joined unless the user is not in its team.
  pub All-join_member :
      (team_id : A → ℤ) (user_id : ℤ) (members : List TeamMember) (xs : List A)
      → All P (join_member team_id user_id members xs)
        ↔ All (λ x. (any (is_membership (team_id x) user_id) members ≡ false) ⊎ P x) xs
  unfolding join_member
  All-join_member team_id user_id members [] = ground arith
  All-join_member team_id user_id members (x ∷ xs) =
      let rest = All-join_member team_id user_id members xs in
      let one = All-join_one x (is_membership (team_id x) user_id) members in
      let both =
        All-append_iff (map (λ _. x) (select (is_membership (team_id x) user_id) members))
          (join_member team_id user_id members xs) in
      (λ h. let (a, b) = both.0 h in (one.0 a, rest.0 b), λ h. both.1 (one.1 h.0, rest.1 h.1))

append-eq-nil : {A : Type 0} (xs ys : List A) → xs ++ ys ≡ [] → (xs ≡ []) × (ys ≡ [])
append-eq-nil [] ys h = (refl, h)
append-eq-nil (x ∷ xs) ys h = absurd (ground arith)

pub All_always : {A : Type 0} (P : A → Type 0) → ((x : A) → P x) → (xs : List A) → All P xs
All_always P h [] = tt
All_always P h (x ∷ xs) = (h x, All_always P h xs)

-- What the viewer's joins yield is of the teams that the viewer is in.
pub All-joined :
    {A : Type 0} (team_id : A → ℤ) (viewer : ℤ) (members : List TeamMember) (xs : List A)
    → All
        (λ x. any (is_membership (team_id x) viewer) members ≡ true)
        (join_member team_id viewer members xs)
All-joined {A} team_id viewer members xs =
    let found = λ (x : A). any (is_membership (team_id x) viewer) members in
    (All-join_member (λ (x : A). found x ≡ true) team_id viewer members xs).1 (
      All_always (λ (x : A). (found x ≡ false) ⊎ (found x ≡ true)) (λ (x : A). either (found x)) xs)

module _ (t : Tables) where
  -- The assignee of a task, if there is one, is in its team.
  pub IsPlaced : Task → Option ℤ → Type 0
  IsPlaced k none = Unit
  IsPlaced k (some user_id) = has_member k.team_id user_id t ≡ true

  invalid_row-eq-nil : (k : Task) (o : Option ℤ) → (invalid_row t k o ≡ []) ↔ IsPlaced k o
  unfolding invalid_row IsPlaced
  invalid_row-eq-nil k none = ground arith
  invalid_row-eq-nil k (some user_id) = ground arith

  invalid_rows-eq-nil :
      (ks : List Task) → (invalid_rows t ks ≡ []) ↔ All (λ (k : Task). IsPlaced k k.assignee_id) ks
  unfolding invalid_rows
  invalid_rows-eq-nil [] = ground arith
  invalid_rows-eq-nil (k ∷ ks) =
      let rest = invalid_rows-eq-nil ks in
      let one = invalid_row-eq-nil k k.assignee_id in
      (
        λ h. let (a, b) = append-eq-nil _ _ h in (one.0 a, rest.0 b),
        λ h. ap (λ xs. xs ++ invalid_rows t ks) (one.1 h.0) ∙ rest.1 h.1,
      )

  -- The report of a user is empty exactly if every task of a team that the user is in has no
  -- assignee, or one who is in its team too.
  pub invalid_assignees_rows-eq-nil_iff :
      (viewer : ℤ)
      → (invalid_assignees_rows viewer t ≡ [])
        ↔ All
            (λ (k : Task). (has_member k.team_id viewer t ≡ false) ⊎ IsPlaced k k.assignee_id)
            t.tasks
  unfolding invalid_assignees_rows
  invalid_assignees_rows-eq-nil_iff viewer =
      let P = λ (k : Task). IsPlaced k k.assignee_id in
      let before = λ (a b : Task). ltb_ℤ a.id b.id in
      let joined = join_member task_team viewer t.members t.tasks in
      let none_left = invalid_rows-eq-nil (order_rows before joined) in
      let ordered = All-order_rows P before joined in
      let members = All-join_member P task_team viewer t.members t.tasks in
      (λ h. members.0 (ordered.0 (none_left.0 h)), λ h. none_left.1 (ordered.1 (members.1 h)))

  -- What a row says: the viewer is in the team of the task, and its assignee is not.
  abbrev pub IsInvalid : ℤ → InvalidAssigneeTask → Type 0
  IsInvalid viewer r =
      (has_member r.team_id viewer t ≡ true) × (has_member r.team_id r.assignee_id t ≡ false)

  invalid_row-IsInvalid :
      (viewer : ℤ) (k : Task) (o : Option ℤ)
      → has_member k.team_id viewer t ≡ true
      → All (IsInvalid viewer) (invalid_row t k o)
  unfolding invalid_row
  invalid_row-IsInvalid viewer k none h = tt
  invalid_row-IsInvalid viewer k (some user_id) h =
      elim (Bool-cases (has_member k.team_id user_id t)) [
        | inl placed ↦ rw placed tt
        | inr lost ↦ rw lost ((h, lost), tt)
      ]

  invalid_rows-IsInvalid :
      (viewer : ℤ) (ks : List Task)
      → All (λ (k : Task). has_member k.team_id viewer t ≡ true) ks
      → All (IsInvalid viewer) (invalid_rows t ks)
  unfolding invalid_rows
  invalid_rows-IsInvalid viewer [] h = tt
  invalid_rows-IsInvalid viewer (k ∷ ks) (p, h) =
      All-append (IsInvalid viewer) (invalid_row t k k.assignee_id) (invalid_rows t ks)
        (invalid_row-IsInvalid viewer k k.assignee_id p) (invalid_rows-IsInvalid viewer ks h)

  -- Every row of the report is of a team that the viewer is in and its assignee is not.
  pub invalid_assignees_rows-IsInvalid :
      (viewer : ℤ) → All (IsInvalid viewer) (invalid_assignees_rows viewer t)
  unfolding invalid_assignees_rows
  invalid_assignees_rows-IsInvalid viewer = invalid_rows-IsInvalid viewer _ (
      (All-order_rows (λ (k : Task). has_member k.team_id viewer t ≡ true)
          (λ (a b : Task). ltb_ℤ a.id b.id) (join_member task_team viewer t.members t.tasks)).1
        (All-joined task_team viewer t.members t.tasks))
