-- ===== src/Store/Reports/Places.antt =====
-- The places in the report of the most active creators: `ROW_NUMBER() OVER (PARTITION BY team_id
-- ORDER BY tasks_created DESC, user_id ASC)` of internal/store/mysql/analytics_repo.go, against a
-- count of the creators who are ahead.
use testovoe_bazis.Common.{
  ℕ, suc, ◌+◌, ◌≡◌, refl, ap, inl, inr, Bool, not, ◌&&◌, ◌||◌, Bool-cases, List, [], ◌∷◌, ◌++◌, map,
  ℤ, int_eq, int_beq_iff, nat_eq, ◌==◌, leb, ltb, ltb_ℤ, arith, if◌then◌else◌, select, any, length,
}
use testovoe_bazis.Domain.{Time, Task, TeamMember}
use testovoe_bazis.Store.Database.{is_membership}
use testovoe_bazis.Store.Reports.{
  CreatedStats, by_creator, group_stats, ranks_before, row_number, join_member, task_team,
  within_days,
}

-- The tasks of the last thirty days in the teams of the viewer, once for each membership.
abbrev pub recent : ℤ → Time → List TeamMember → List Task → List Task
recent viewer now members [] = []
recent viewer now members (k ∷ ks) =
    let rest = recent viewer now members ks in
    if leb now (k.created_at + 2592000)
    then map (λ _. k)
        (select (λ (m : TeamMember). m.team_id == k.team_id && m.user_id == viewer) members)
      ++ rest
    else rest

-- How many tasks of a list a user has created in a team.
abbrev pub made : List Task → ℤ → ℤ → ℕ
made ks team_id user_id =
    length (select (λ (k : Task). k.team_id == team_id && k.created_by == user_id) ks)

-- The creators of a team, each once.
abbrev pub creators : List Task → ℤ → List ℤ
creators [] team_id = []
creators (k ∷ ks) team_id =
    let rest = creators ks team_id in
    if k.team_id == team_id && not (any (λ (u : ℤ). u == k.created_by) rest)
    then k.created_by ∷ rest
    else rest

-- Whether a creator is ahead of another: by more tasks, or by a smaller id at as many tasks.
abbrev pub is_ahead : List Task → ℤ → ℤ → ℤ → Bool
is_ahead ks team_id other user_id =
    ltb (made ks team_id user_id) (made ks team_id other)
    || (made ks team_id other == made ks team_id user_id && ltb_ℤ other user_id)

-- The place of a creator in a team: one more than the creators that are ahead.
abbrev pub place : List Task → ℤ → ℤ → ℕ
place ks team_id user_id =
    suc (length (select (λ other. is_ahead ks team_id other user_id) (creators ks team_id)))

-- A creator has a task in the team.
any-creators :
    (ks : List Task) (team_id user_id : ℤ)
    → any (λ (u : ℤ). u == user_id) (creators ks team_id) ≡ any (by_creator team_id user_id) ks
any-creators [] team_id user_id = refl
any-creators (k ∷ ks) team_id user_id =
    let rest = any-creators ks team_id user_id in
    elim (Bool-cases (k.created_by == user_id)) [
      | inl own ↦
          let e = (int_beq_iff k.created_by user_id).0 own in
          rw (e) (ground (arith, rest, int_beq_iff user_id user_id))
      | inr other ↦ ground (arith, rest)
    ]

module _ (whole : List Task) (team_id user_id : ℤ) where
  abbrev pub stats_of : CreatedStats
  stats_of = record {
    team_id = team_id;
    user_id = user_id;
    tasks_created = made whole team_id user_id;
  }

  length-group_stats :
      (ks : List Task)
      → length (select (λ r. ranks_before r stats_of) (group_stats whole ks))
        ≡ length (select (λ other. is_ahead whole team_id other user_id) (creators ks team_id))
  unfolding group_stats ranks_before
  length-group_stats [] = refl
  length-group_stats (k ∷ ks) =
      let rest = length-group_stats ks in
      let later = any-creators ks team_id k.created_by in
      elim (Bool-cases (k.team_id == team_id)) [
        | inl same ↦
            let e = (int_beq_iff k.team_id team_id).0 same in
            rw e (ground (arith, rest, later, int_beq_iff team_id team_id))
        | inr other ↦ ground (arith, rest)
      ]

  -- ROW_NUMBER over the groups is the place.
  pub row_number-eq-place :
      row_number (group_stats whole whole) stats_of ≡ place whole team_id user_id
  unfolding row_number
  row_number-eq-place = ap (λ n. suc n) (length-group_stats whole)

select-append :
    {A : Type 0} (p : A → Bool) (xs ys : List A) → select p (xs ++ ys) ≡ select p xs ++ select p ys
select-append p [] ys = refl
select-append p (x ∷ xs) ys = ground (arith, select-append p xs ys)

select-map_const :
    {A B : Type 0} (p : A → Bool) (x : A) (ms : List B)
    → select p (map (λ _. x) ms) ≡ (if p x then map (λ _. x) ms else [])
select-map_const p x [] = ground arith
select-map_const p x (m ∷ ms) = ground (arith, select-map_const p x ms)

-- The join comes before the test of the time, which is the same.
pub join_member-eq-recent :
    (viewer : ℤ) (now : Time) (members : List TeamMember) (ks : List Task)
    → select
        (λ (k : Task). within_days 30 now k.created_at)
        (join_member task_team viewer members ks)
      ≡ recent viewer now members ks
unfolding join_member
join_member-eq-recent viewer now members [] = refl
join_member-eq-recent viewer now members (k ∷ ks) =
    let rest = join_member-eq-recent viewer now members ks in
    let is_recent : Task → Bool = λ k. within_days 30 now k.created_at in
    let joined = select (is_membership k.team_id viewer) members in
    let split =
      select-append is_recent (map (λ _. k) joined) (join_member task_team viewer members ks) in
    elim (Bool-cases (leb now (k.created_at + 2592000))) [
      | inl fresh ↦ rw (split, select-map_const is_recent k joined, rest, fresh)
      | inr old ↦ rw (split, select-map_const is_recent k joined, rest, old)
    ]
