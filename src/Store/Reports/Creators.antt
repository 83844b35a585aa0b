-- ===== src/Store/Reports/Creators.antt =====
-- The report of the most active creators.
use testovoe_bazis.Common.{
  ℕ, ◌≤◌, ◌≡◌, refl, ap, subst, ◌∙◌, Mem, find_first-Mem, int_eq, int_beq_iff, ◌==◌, inl, inr, Bool,
  true, Bool-cases, Option, none, some, List, [], ◌∷◌, ℤ, pos, ◌≤ℤ◌, leb, arith, select, any, All,
  All-append,
}
use testovoe_bazis.Domain.{Time, Task, Team, User, TopCreator}
use testovoe_bazis.Store.Database.{Tables, has_member}
use testovoe_bazis.Store.Teams.{find_team}
use testovoe_bazis.Store.Users.{find_user}
use testovoe_bazis.Store.Reports.{
  CreatedStats, task_team, recent_tasks, by_creator, group_stats, created_stats, row_number,
  creator_row, creator_rows, creator_before, top_creators_rows, within_days,
}
use testovoe_bazis.Store.Teams.Reading.{IsMember, has_member-IsMember}
use testovoe_bazis.Store.Reports.Places.{
  recent, made, place, stats_of, row_number-eq-place, join_member-eq-recent,
}
use testovoe_bazis.Store.Reports.Listing.{IsShown, All-imp, order_rows-IsShown}
use testovoe_bazis.Store.Reports.Assignees.{All-order_rows, All-joined}

module _ (viewer : ℤ) (t : Tables) (whole : List Task) where
  -- A group is of a team that the viewer is in, and counts the tasks of its creator there.
  abbrev IsCounted : CreatedStats → Type 0
  IsCounted s = (has_member s.team_id viewer t ≡ true) × (s ≡ stats_of whole s.team_id s.user_id)

  group_stats-IsCounted :
      (ks : List Task)
      → All (λ (k : Task). has_member k.team_id viewer t ≡ true) ks
      → All IsCounted (group_stats whole ks)
  unfolding group_stats
  group_stats-IsCounted [] h = tt
  group_stats-IsCounted (k ∷ ks) (p, h) =
      elim (Bool-cases (any (by_creator k.team_id k.created_by) ks)) [
        | inl more ↦ rw more (group_stats-IsCounted ks h)
        | inr last ↦ rw last ((p, refl), group_stats-IsCounted ks h)
      ]

  -- A row of the report on some tasks: one of the first three places of a team that the viewer is in,
  -- the place that the tasks give its creator there, with the names of both and the number of tasks.
  pub record IsRanked (r : TopCreator) : Type 0 where
    pub viewer_in : IsMember r.team_id viewer t
    pub rank : r.rank_position ≡ pos (place whole r.team_id r.user_id)
    pub rank_max : r.rank_position ≤ℤ pos 3
    pub team_row : (m : Team) × Mem m t.teams × (m.id ≡ r.team_id) × (m.name ≡ r.team_name)
    pub user_row : (u : User) × Mem u t.users × (u.id ≡ r.user_id) × (u.username ≡ r.username)
    pub created : r.tasks_created ≡ pos (made whole r.team_id r.user_id)

  find_team-row : (id : ℤ) {m : Team} → find_team id t ≡ some m → Mem m t.teams × (m.id ≡ id)
  find_team-row id {m} h =
      let (there, passed) = find_first-Mem (λ (m : Team). m.id == id) t.teams h in
      (there, (int_beq_iff m.id id).0 passed)

  find_user-row : (id : ℤ) {u : User} → find_user id t ≡ some u → Mem u t.users × (u.id ≡ id)
  find_user-row id {u} h =
      let (there, passed) = find_first-Mem (λ (u : User). u.id == id) t.users h in
      (there, (int_beq_iff u.id id).0 passed)

  creator_row-IsRanked :
      (rank : ℕ) (s : CreatedStats) (m : Option Team) (u : Option User)
      → rank ≡ place whole s.team_id s.user_id
      → rank ≤ 3
      → IsCounted s
      → find_team s.team_id t ≡ m
      → find_user s.user_id t ≡ u
      → All IsRanked (creator_row rank s m u)
  creator_row-IsRanked rank s none u placed high c e f = tt
  creator_row-IsRanked rank s (some m) none placed high c e f = tt
  creator_row-IsRanked rank s (some m) (some u) placed high c e f =
      let (team, team_id) = find_team-row s.team_id e in
      let (user, user_id) = find_user-row s.user_id f in
      (
        record {
          viewer_in = has_member-IsMember s.team_id viewer t c.0;
          rank = ap pos placed;
          rank_max = omega (arith, high);
          team_row = (m, team, team_id, refl);
          user_row = (u, user, user_id, refl);
          created = ap (λ (x : CreatedStats). pos x.tasks_created) c.1;
        },
        tt,
      )

  creator_rows-IsRanked :
      (ss : List CreatedStats)
      → All IsCounted ss
      → All IsRanked (creator_rows t (group_stats whole whole) ss)
  unfolding creator_rows
  creator_rows-IsRanked [] h = tt
  creator_rows-IsRanked (s ∷ ss) (p, h) =
      let rank = row_number (group_stats whole whole) s in
      let placed : rank ≡ place whole s.team_id s.user_id =
        ap (row_number (group_stats whole whole)) p.1
        ∙ row_number-eq-place whole s.team_id s.user_id in
      elim (Bool-cases (leb rank 3)) [
        | inl first ↦ rw first (
            All-append IsRanked _ _
              (creator_row-IsRanked rank s _ _ placed (ground arith) p refl refl)
              (creator_rows-IsRanked ss h))
        | inr beaten ↦ rw beaten (creator_rows-IsRanked ss h)
      ]

All-select :
    {A : Type 0} (P : A → Type 0) (p : A → Bool) (xs : List A) → All P xs → All P (select p xs)
All-select P p [] h = tt
All-select P p (x ∷ xs) (q, h) = elim (Bool-cases (p x)) [
  | inl kept ↦ rw kept (q, All-select P p xs h)
  | inr left ↦ rw left (All-select P p xs h)
]

module _ (viewer : ℤ) (now : Time) (t : Tables) where
  recent_tasks-joined :
      All (λ (k : Task). has_member k.team_id viewer t ≡ true) (recent_tasks viewer now t)
  unfolding recent_tasks
  recent_tasks-joined =
      All-select (λ (k : Task). has_member k.team_id viewer t ≡ true)
        (λ (k : Task). within_days 30 now k.created_at) _
        (All-joined task_team viewer t.members t.tasks)

  -- Every row of the report of top creators is of a team that the viewer is in, with the names of the
  -- team and of the creator; its place is one of the first three and is one more than the number of
  -- creators of the team who are ahead, by more tasks or by a smaller id at as many tasks; and it
  -- says how many tasks the creator has made there, all of the last thirty days. And the creator of
  -- each such task has a row, unless that place is behind the third, or there is no row of the team
  -- or of the user in the tables.
  pub top_creators_rows-IsRanked :
      let whole = recent viewer now t.members t.tasks in
      let rows = top_creators_rows viewer now t in
      All (IsRanked viewer t whole) rows
      × All (λ (k : Task). IsShown t whole rows k.team_id k.created_by) whole
  unfolding top_creators_rows created_stats recent_tasks
  top_creators_rows-IsRanked =
      let whole = recent_tasks viewer now t in
      let rows = top_creators_rows viewer now t in
      let groups = group_stats-IsCounted viewer t whole whole recent_tasks-joined in
      subst
        (λ ks.
          All (IsRanked viewer t ks) rows
          × All (λ (k : Task). IsShown t ks rows k.team_id k.created_by) ks)
        (join_member-eq-recent viewer now t.members t.tasks)
        (
          (All-order_rows (IsRanked viewer t whole) creator_before _).1
              (creator_rows-IsRanked viewer t whole _ groups),
          order_rows-IsShown t whole (All-imp (λ s c. c.1) (group_stats whole whole) groups),
        )
