-- ===== src/Domain/Paging.antt =====
-- The paging numbers of internal/domain/task.go after `Normalize`, and the 64-bit arithmetic on
-- them.
use testovoe_bazis.Common.{
  ℕ, ◌-◌, ◌*◌, ◌≤◌, ◌<◌, ◌≡◌, ◌^◌, pos, arith, ◌≤ℤ◌, mul64, sub64, wrap64_small, *ℤ_pos, -ℤ_pos,
}
use testovoe_bazis.Domain.Tasks.{TaskFilters, clamp_page, clamp_per_page, normalize}

-- A page number and size as the queries want them.
pub record IsPaged (f : TaskFilters) : Type 0 where
  pub page_pos : pos 1 ≤ℤ f.page
  pub per_page_pos : pos 1 ≤ℤ f.per_page
  pub per_page_max : f.per_page ≤ℤ pos 100

-- After `Normalize` the page is at least 1 and its size between 1 and 100, whatever was asked for,
-- and the other filters are as they were.
pub normalize-IsPaged :
    (f : TaskFilters)
    → IsPaged (normalize f)
      × ((normalize f).team_id ≡ f.team_id)
      × ((normalize f).status ≡ f.status)
      × ((normalize f).assignee_id ≡ f.assignee_id)
unfolding normalize clamp_page clamp_per_page
normalize-IsPaged f = ground arith

-- Filters that are in range already are left alone by `Normalize`.
pub normalize_of_IsPaged : (f : TaskFilters) → IsPaged f → normalize f ≡ f
unfolding normalize clamp_page clamp_per_page
normalize_of_IsPaged f h = ground arith

pub normalize_idempotent : (f : TaskFilters) → normalize (normalize f) ≡ normalize f
normalize_idempotent f = normalize_of_IsPaged (normalize f) (normalize-IsPaged f).0

-- For a positive page whose end, page * size, is below 2 ^ 63, the offset that the queries compute
-- in 64 bits is exactly (page - 1) * size.
pub offset_exact :
    (page size : ℕ)
    → 1 ≤ page
    → page * size < 2 ^ 63
    → page < 2 ^ 63
    → mul64 (sub64 (pos page) (pos 1)) (pos size) ≡ pos ((page - 1) * size)
offset_exact page size h k l =
    rw (-ℤ_pos page 1 h, wrap64_small (page - 1) (omega arith), *ℤ_pos (page - 1) size)
      (wrap64_small ((page - 1) * size) (grind arith))
