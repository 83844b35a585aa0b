-- ===== src/App/Coherence/Serving.antt =====
-- `List` answers a member with a page, as long as the database does.
use testovoe_bazis.Common.{
  ℕ, ◌≡◌, ◌<◌, ◌*◌, ◌^◌, refl, sym, ap, subst, ◌∙◌, inl, inr, false, none, some, [], ℤ, pos, negsuc,
  ◌≤ℤ◌, pos_part, arith, mul64, sub64, ok, Option-cases, ◌>>=◌, ◌||◌,
}
use testovoe_bazis.Domain.{Role, TaskFilters, TaskPage, normalize, validate}
use testovoe_bazis.Domain.Paging.{normalize-IsPaged, normalize_idempotent, offset_exact}
use testovoe_bazis.Store.Database.{
  Database, spend, statement, next_fault, later_faults, select_page, is_negative,
}
use testovoe_bazis.Store.Tasks as TaskRepository
use testovoe_bazis.Store.Tasks.{matching, task_id}
use testovoe_bazis.Store.Tasks.Reading.{listed}
use testovoe_bazis.Service.Gateways.{PageCodec}
use testovoe_bazis.Service.Tasks.{
  TaskService, list, load_page, look_up, or_load, member_role, page_of,
}
use testovoe_bazis.Store.Cache.{get_list}
use testovoe_bazis.Store.Cache.Keys.{IsFilterStatus, validate-IsFilterStatus}
use testovoe_bazis.App.{World, task_service}
use testovoe_bazis.App.Coherence.{RoundTrips, IsCoherent, page_for}
use testovoe_bazis.App.Coherence.Keeping.{IsCoherent-moved}
use testovoe_bazis.App.Coherence.Reads.{loaded, asked_role, hit-IsRight}
use testovoe_bazis.App.Coherence.Runs.{Run, IsStart, Run-IsCoherent, list-page_for}
use testovoe_bazis.Store.Teams as TeamRepository
use testovoe_bazis.Store.Teams.{find_role}

-- The database answers: none of the next statements fails.
abbrev pub IsAnswering : Database → Type 0
IsAnswering db = db.faults ≡ []

get_member_role_answers :
    (team_id user_id : ℤ) (role : Role) (db : Database)
    → IsAnswering db
    → find_role team_id user_id db.tables ≡ some role
    → TeamRepository.get_member_role team_id user_id db ≡ (ok role, spend db)
unfolding TeamRepository.get_member_role statement
get_member_role_answers team_id user_id role db calm has =
    let next = ap next_fault calm in ground arith

-- The arguments of LIMIT and OFFSET are not negative.
offset-pos :
    (page size : ℤ)
    → pos 1 ≤ℤ page
    → pos 1 ≤ℤ size
    → pos_part page * pos_part size < 2 ^ 63
    → (is_negative size || is_negative (mul64 (sub64 page (pos 1)) size)) ≡ false
offset-pos (pos p) (pos n) h k small =
    let exact = offset_exact p n (ground arith) small (grind arith) in rw exact (ground arith)
offset-pos (negsuc p) size h k small = absurd (ground arith)
offset-pos (pos p) (negsuc n) h k small = absurd (ground arith)

list_answers :
    (f : TaskFilters) (db : Database)
    → IsAnswering db
    → pos_part (normalize f).page * pos_part (normalize f).per_page < 2 ^ 63
    → TaskRepository.list f db ≡ (ok (listed f db.tables), spend (spend db))
unfolding TaskRepository.list select_page statement
list_answers f db calm small =
    let paged = (normalize-IsPaged f).0 in
    let fine =
      offset-pos (normalize f).page (normalize f).per_page paged.page_pos paged.per_page_pos
        small in
    let next = ap next_fault calm in
    let second = ap (λ fs. next_fault (later_faults fs)) calm in ground arith

module _ (ttl : ℕ) (codec : PageCodec) (exact : RoundTrips codec) where
  abbrev s : TaskService World
  s = task_service ttl codec

  module _ (f : TaskFilters) (known : IsFilterStatus f.status)
      (small : pos_part (normalize f).page * pos_part (normalize f).per_page < 2 ^ 63) where
    load_page_answers :
        (w : World) → IsAnswering w.db → (page : TaskPage) × ((load_page s f w).0 ≡ ok page)
    unfolding load_page
    load_page_answers w calm = (
      page_of s f (listed f w.db.tables),
      subst (λ p. (loaded ttl codec exact f known w p).0 ≡ ok (page_of s f (listed f w.db.tables)))
          (sym (list_answers f w.db calm small)) refl,
    )

    tail_answers :
        (w : World)
        → IsCoherent ttl codec w
        → IsAnswering w.db
        → (page : TaskPage) × (((look_up s f >>= or_load s f) w).0 ≡ ok page)
    tail_answers w c calm =
        let looked = record w { cache = (get_list f.team_id f w.cache).1 } in
        elim (Option-cases (get_list f.team_id f w.cache).0) [
          | inl missed ↦ let (page, good) = load_page_answers looked calm in (page, rw missed good)
          | inr (bytes, hit) ↦ (
            page_for ttl codec f w.db.tables.tasks,
            rw (hit, hit-IsRight ttl codec exact f known w bytes c hit) refl,
          )
        ]

  member_role_answers :
      (team_id actor_id : ℤ) (role : Role) (w : World)
      → IsAnswering w.db
      → find_role team_id actor_id w.db.tables ≡ some role
      → member_role s team_id actor_id w ≡ (ok role, record w { db = spend w.db })
  unfolding member_role
  member_role_answers team_id actor_id role w calm has =
      let member = get_member_role_answers team_id actor_id role w.db calm has in ground arith

  list_page :
      (actor_id : ℤ) (asked : TaskFilters) (role : Role) (w : World)
      → IsCoherent ttl codec w
      → IsAnswering w.db
      → find_role (normalize asked).team_id actor_id w.db.tables ≡ some role
      → validate (normalize asked) ≡ none
      → pos_part (normalize asked).page * pos_part (normalize asked).per_page < 2 ^ 63
      → (page : TaskPage) × ((list s actor_id asked w).0 ≡ ok page)
  unfolding list
  list_page actor_id asked role w c calm has valid small =
      let f = normalize asked in
      let behind : World = record w { db = spend w.db } in
      let member = member_role_answers f.team_id actor_id role w calm has in
      let kept : IsCoherent ttl codec behind =
        IsCoherent-moved ttl codec w behind refl (omega arith) refl c.calm c in
      let twice =
        ap (λ (g : TaskFilters). pos_part g.page * pos_part g.per_page)
          (normalize_idempotent asked) in
      let (page, good) =
        tail_answers f (validate-IsFilterStatus f valid) (omega (arith, twice, small)) behind kept
          (ap later_faults calm) in
      (page, rw valid (subst (λ p. (asked_role ttl codec exact f p).0 ≡ ok page) (sym member) good))

  -- If encoding/json decodes what it encoded, and the service has started with an empty cache that
  -- answers ever since, then after any run of requests a `List` of a member of the team, with valid
  -- filters and a page whose end is below 2 ^ 63, answers with the page that the tables hold, as
  -- long as the database answers.
  pub list_of_member :
      (start w : World) (actor_id : ℤ) (asked : TaskFilters) (role : Role)
      → IsStart ttl codec start
      → Run ttl codec start w
      → IsAnswering w.db
      → find_role (normalize asked).team_id actor_id w.db.tables ≡ some role
      → validate (normalize asked) ≡ none
      → pos_part (normalize asked).page * pos_part (normalize asked).per_page < 2 ^ 63
      → (list s actor_id asked w).0 ≡ ok (page_for ttl codec (normalize asked) w.db.tables.tasks)
  list_of_member start w actor_id asked role st run calm has valid small =
      let (page, good) =
        list_page actor_id asked role w (Run-IsCoherent ttl codec exact start w st run) calm has
          valid small in
      let done : list s actor_id asked w ≡ (ok page, (list s actor_id asked w).1) =
        ap (λ r. (r, (list s actor_id asked w).1)) good in
      good ∙ ap ok (list-page_for ttl codec exact start w actor_id asked page _ st run done)
