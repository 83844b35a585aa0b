-- ===== src/Store/Reports/Listing.antt =====
-- No creator of the first three places is left out of the report of internal/store/mysql/
-- analytics_repo.go: from the tasks through the groups and the joins to the ordered rows.
use testovoe_bazis.Common.{
  ℕ, ◌≡◌, ◌≢◌, ◌≤◌, ◌⊎◌, inl, inr, refl, ap, ◌∙◌, Bool, true, false, Bool-cases, Option, none, some,
  List, [], ◌∷◌, ℤ, int_eq, int_beq_iff, ◌==◌, leb, arith, any, Mem, All, find_first,
}
use mathlib.Core.List.{mem-cons_self, mem-cons_of_mem}
use testovoe_bazis.Domain.{Task, Team, User, TopCreator}
use testovoe_bazis.Store.Database.{Tables}
use testovoe_bazis.Store.Teams.{find_team}
use testovoe_bazis.Store.Users.{find_user}
use testovoe_bazis.Store.Reports.{
  CreatedStats, by_creator, group_stats, row_number, creator_row, creator_rows, creator_before,
  order_rows,
}
use testovoe_bazis.Store.Reports.Places.{place, stats_of, row_number-eq-place}
use testovoe_bazis.Store.Reports.Assignees.{All-order_rows, All-append_iff}

module _ {A : Type 0} where
  pub All-imp : {P Q : A → Type 0} → ((x : A) → P x → Q x) → (xs : List A) → All P xs → All Q xs
  All-imp f [] h = tt
  All-imp f (x ∷ xs) (p, h) = (f x p, All-imp f xs h)

  All-Mem : (xs : List A) → All (λ x. Mem x xs) xs
  All-Mem [] = tt
  All-Mem (x ∷ xs) = (mem-cons_self, All-imp (λ y m. mem-cons_of_mem x m) xs (All-Mem xs))

  All-any :
      (P : A → Type 0) (p : A → Bool) (xs : List A)
      → All P xs
      → any p xs ≡ true
      → (x : A) × P x × (p x ≡ true)
  All-any P p [] h e = absurd (ground arith)
  All-any P p (x ∷ xs) (q, h) e = elim (Bool-cases (p x)) [
    | inl hit ↦ (x, q, hit)
    | inr miss ↦ All-any P p xs h (rw miss at e)
  ]

  find_first-none :
      (p : A → Bool) (xs : List A) → find_first p xs ≡ none → All (λ x. p x ≡ false) xs
  find_first-none p [] e = tt
  find_first-none p (x ∷ xs) e = elim (Bool-cases (p x)) [
    | inl hit ↦ absurd (ground arith)
    | inr miss ↦ (miss, find_first-none p xs (rw miss at e))
  ]

-- What holds of every group holds of the group of every task.
All-group_stats :
    (P : CreatedStats → Type 0) (whole ks : List Task)
    → All P (group_stats whole ks)
    → All (λ (k : Task). P (stats_of whole k.team_id k.created_by)) ks
unfolding group_stats
All-group_stats P whole [] h = tt
All-group_stats P whole (k ∷ ks) h =
    elim (Bool-cases (any (by_creator k.team_id k.created_by) ks)) [
      | inl more ↦
          let rest = All-group_stats P whole ks (rw more at h) in
          let (x, p, same) =
            All-any (λ (k : Task). P (stats_of whole k.team_id k.created_by))
              (by_creator k.team_id k.created_by) ks rest more in
          let team : x.team_id ≡ k.team_id = ground (arith, int_beq_iff x.team_id k.team_id) in
          let user : x.created_by ≡ k.created_by =
            ground (arith, int_beq_iff x.created_by k.created_by) in
          (coe 0 1 (i. P (stats_of whole (team i) (user i))) p, rest)
      | inr last ↦ let (p, h') = rw last at h in (p, All-group_stats P whole ks h')
    ]

module _ (t : Tables) (whole : List Task) (rows : List TopCreator) where
  -- A creator of a team is on a list of rows, unless the place is behind the third, or there is no row
  -- of the team or of the user to take the name from.
  abbrev pub IsShown : ℤ → ℤ → Type 0
  IsShown team_id user_id =
      (4 ≤ place whole team_id user_id)
      ⊎ All (λ (m : Team). m.id ≢ team_id) t.teams
      ⊎ All (λ (u : User). u.id ≢ user_id) t.users
      ⊎ ((r : TopCreator) × Mem r rows × (r.team_id ≡ team_id) × (r.user_id ≡ user_id))

  no_row : (a b : ℤ) → (a == b) ≡ false → a ≢ b
  no_row a b h = λ e. absurd (ground (arith, int_beq_iff a b))

  creator_row-IsShown :
      (s : CreatedStats) (m : Option Team) (u : Option User) (rank : ℕ)
      → find_team s.team_id t ≡ m
      → find_user s.user_id t ≡ u
      → All (λ r. Mem r rows) (creator_row rank s m u)
      → IsShown s.team_id s.user_id
  creator_row-IsShown s none u rank e f h = inr (
      inl (All-imp (λ (m : Team) p. no_row m.id s.team_id p) t.teams (find_first-none _ t.teams e)))
  creator_row-IsShown s (some m) none rank e f h = inr (
      inr (
        inl (
          All-imp (λ (u : User) p. no_row u.id s.user_id p) t.users (find_first-none _ t.users f))))
  creator_row-IsShown s (some m) (some u) rank e f (there, _) =
      inr (inr (inr (_, there, refl, refl)))

  creator_rows-IsShown :
      (ss : List CreatedStats)
      → All (λ (s : CreatedStats). s ≡ stats_of whole s.team_id s.user_id) ss
      → All (λ r. Mem r rows) (creator_rows t (group_stats whole whole) ss)
      → All (λ (s : CreatedStats). IsShown s.team_id s.user_id) ss
  unfolding creator_rows
  creator_rows-IsShown [] g h = tt
  creator_rows-IsShown (s ∷ ss) (p, g) h =
      let rank = row_number (group_stats whole whole) s in
      let placed : rank ≡ place whole s.team_id s.user_id =
        ap (row_number (group_stats whole whole)) p
        ∙ row_number-eq-place whole s.team_id s.user_id in
      elim (Bool-cases (leb rank 3)) [
        | inl first ↦
            let split = (All-append_iff (λ r. Mem r rows) _ _).0 (rw first at h) in
            (creator_row-IsShown s _ _ rank refl refl split.0, creator_rows-IsShown ss g split.1)
        | inr behind ↦
            let far : 4 ≤ place whole s.team_id s.user_id = ground arith in
            (inl far, creator_rows-IsShown ss g (rw behind at h))
      ]

-- Every creator of a task is on the ordered rows, with these exceptions.
pub order_rows-IsShown :
    (t : Tables) (whole : List Task)
    → All (λ (s : CreatedStats). s ≡ stats_of whole s.team_id s.user_id) (group_stats whole whole)
    → let stats = group_stats whole whole in
      All
        (λ (k : Task).
          IsShown t whole
            (order_rows creator_before (creator_rows t stats stats))
            k.team_id
            k.created_by)
        whole
order_rows-IsShown t whole g =
    let stats = group_stats whole whole in
    let rows = order_rows creator_before (creator_rows t stats stats) in
    let there = (All-order_rows (λ r. Mem r rows) creator_before _).0 (All-Mem rows) in
    All-group_stats (λ (s : CreatedStats). IsShown t whole rows s.team_id s.user_id) whole whole
      (creator_rows-IsShown t whole rows stats g there)
