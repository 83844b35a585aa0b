-- ===== src/Service/Tasks/Listing.antt =====
-- `TaskService.List` and `TaskService.History`: who is shown anything, and the paging numbers that
-- reach the repository.
use testovoe_bazis.Common.{
  ℕ, ◌≡◌, ◌≤◌, ◌<◌, ◌*◌, ◌^◌, ◌↔◌, inl, inr, true, none, List, ℤ, pos, arith, ltb_ℤ, wrap64,
  wrap64_small, *ℤ_pos, Option-cases, ok, outcome-cases,
}
use testovoe_bazis.Domain.{Role, Task, TaskFilters, TaskPage, normalize, validate}
use testovoe_bazis.Service.Tasks.{TaskService, member_role, list, page_of}
use testovoe_bazis.Service.Tasks.Checks.{member_role-eq-ok}

module _ {W : Type 0} (s : TaskService W) (actor_id : ℤ) where
  open s use {tasks, teams, cache}

  -- Nobody gets a page without a role in the team, not from the cache either: a successful `List`
  -- has valid filters, and has first been told a role of the actor in the team that it lists.
  pub list-member :
      (asked : TaskFilters) (w : W) (page : TaskPage) (w' : W)
      → list s actor_id asked w ≡ (ok page, w')
      → (validate (normalize asked) ≡ none)
        × ((role : Role) × (w1 : W) × (teams.get_member_role asked.team_id actor_id w
              ≡ (ok role, w1)))
  unfolding list normalize
  list-member asked w page w' h = elim (Option-cases (validate (normalize asked))) [
    | inl valid ↦ elim (outcome-cases (member_role s asked.team_id actor_id w)) [
      | inl (role, w1, first) ↦
          (valid, (role, w1, member_role-eq-ok s asked.team_id actor_id w first))
      | inr (e, w1, failed) ↦ absurd (ground arith)
    ]
    | inr (e, bad) ↦ absurd (ground arith)
  ]

-- Where page * size is below 2 ^ 63, `has_next` says exactly whether rows are left behind it.
pub page_of-has_next_iff :
    {W : Type 0} (s : TaskService W) (f : TaskFilters) (items : List Task) (page size total : ℕ)
    → f.page ≡ pos page
    → f.per_page ≡ pos size
    → page * size < 2 ^ 63
    → ((page_of s f (items, pos total)).has_next ≡ true) ↔ (page * size < total)
page_of-has_next_iff s f items page size total p q h =
    rw (p, q, *ℤ_pos page size, wrap64_small (page * size) h) (ground arith)

wrap64_overflow : (n : ℕ) → 2 ^ 63 ≤ n → n < 2 ^ 64 → ltb_ℤ (wrap64 (pos n)) (pos 0) ≡ true
unfolding wrap64
wrap64_overflow n h k = ground arith

-- Where page * size lies between 2 ^ 63 and 2 ^ 64, the product is negative and `has_next` is true,
-- however few rows there are.
pub page_of-has_next_overflow :
    {W : Type 0} (s : TaskService W) (f : TaskFilters) (items : List Task) (page size total : ℕ)
    → f.page ≡ pos page
    → f.per_page ≡ pos size
    → 2 ^ 63 ≤ page * size
    → page * size < 2 ^ 64
    → (page_of s f (items, pos total)).has_next ≡ true
page_of-has_next_overflow s f items page size total p q h k =
    rw (p, q, *ℤ_pos page size) (ground (arith, wrap64_overflow (page * size) h k))
