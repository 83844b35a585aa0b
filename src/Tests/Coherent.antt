-- ===== src/Tests/Coherent.antt =====
-- A page that is listed, and listed again after its task has changed.
use testovoe_bazis.Common.{
  ◌≡◌, refl, ok, true, false, Bool, Bool-cases, none, some, List, [], ◌∷◌, pos, arith, inl, inr,
  not, int_beq_iff, int_eq, ◌==◌, ◌&&◌, if◌then◌else◌, wrap64, ◌*ℤ◌, ◌-ℤ◌,
}
use testovoe_bazis.Domain.{
  Task, TaskFilters, TaskPage, normalize, clamp_page, clamp_per_page, validate, status_done,
  role_member,
}
use testovoe_bazis.Service.Gateways.{PageCodec}
use testovoe_bazis.Service.Tasks.{list, load_page, update}
use testovoe_bazis.Store.Database.{select_page, insert_desc, order_desc}
use testovoe_bazis.Store.Tasks as TaskRepository
use testovoe_bazis.Store.Tasks.{matches}
use testovoe_bazis.Store.Cache as TaskCache
use testovoe_bazis.Store.Cache.{
  redis_get, redis_set, find_key, put_key, version_key, version, key_text, key_for,
}
use testovoe_bazis.App.{World, task_service}
use testovoe_bazis.App.Coherence.{RoundTrips, page_for}
use testovoe_bazis.App.Coherence.Runs.{
  Run, begun, followed, listed, updated, IsStart, list-page_for,
}
use testovoe_bazis.App.Coherence.Serving.{list_of_member}
use testovoe_bazis.Tests.Data.{world, done_plan, done_patch, task_runs}

abbrev empty_page : TaskPage
empty_page = record { items = []; total = pos 0; page = pos 1; per_page = pos 20; has_next = false }

abbrev no_items : List Task → Bool
no_items [] = true
no_items (_ ∷ _) = false

abbrev is_empty : TaskPage → Bool
is_empty p =
    no_items p.items
    && (p.total == pos 0 && (p.page == pos 1 && (p.per_page == pos 20 && not p.has_next)))

no_items-eq : (ks : List Task) → no_items ks ≡ true → ks ≡ []
no_items-eq [] h = refl
no_items-eq (k ∷ ks) h = absurd (ground arith)

is_empty-eq : (p : TaskPage) → is_empty p ≡ true → p ≡ empty_page
is_empty-eq p h =
    let items : p.items ≡ [] = no_items-eq p.items (ground arith) in
    let total : p.total ≡ pos 0 = ground (arith, int_beq_iff p.total (pos 0)) in
    let page : p.page ≡ pos 1 = ground (arith, int_beq_iff p.page (pos 1)) in
    let size : p.per_page ≡ pos 20 = ground (arith, int_beq_iff p.per_page (pos 20)) in
    let next : p.has_next ≡ false = ground arith in
    λ i. record {
      items = items i;
      total = total i;
      page = page i;
      per_page = size i;
      has_next = next i;
    }

-- An encoding of the empty first page, and of nothing else.
abbrev first_page : PageCodec
first_page = record {
  marshal = λ p. if is_empty p then some [] else none;
  unmarshal = λ _. some empty_page;
}

first_page-RoundTrips : RoundTrips first_page
first_page-RoundTrips = record {
  decodes = λ page bytes h. elim (Bool-cases (is_empty page)) [
    | inl same ↦ rw (is_empty-eq page same) refl
    | inr other ↦ absurd (ground arith)
  ];
}

abbrev done_tasks : TaskFilters
done_tasks = record {
  team_id = pos 1;
  status = status_done;
  assignee_id = none;
  page = pos 0;
  per_page = pos 0;
}

-- Bob lists the tasks that are done, and then does his.
abbrev stored : World
stored = (list (task_service 300 first_page) (pos 2) done_tasks world).1

abbrev changed : World
changed = (update (task_service 300 first_page) (pos 2) (pos 1) done_patch stored).1

world-IsStart : IsStart 300 first_page world
world-IsStart = record {
  empty = refl;
  calm = refl;
  numbered = record { below = (omega arith, tt); team_of = λ _. pos 1; teams = (refl, tt) };
}

run : Run 300 first_page world changed
run =
    followed stored changed
      (followed world stored begun (listed (pos 2) done_tasks world stored refl))
      (updated (pos 2) (pos 1) done_patch stored changed refl)

unfoldable list_runs : Unit {0}
unfolding list load_page normalize clamp_page clamp_per_page validate TaskRepository.list
    select_page insert_desc order_desc matches TaskCache.get_list TaskCache.set_list redis_get
    redis_set version key_text key_for wrap64 ◌*ℤ◌ ◌-ℤ◌
list_runs = tt

-- Before the change the empty page is found in the cache.
served_from_cache : (list (task_service 300 first_page) (pos 2) done_tasks stored).1.cache.hits ≡ 1
unfolding task_runs list_runs
served_from_cache = refl

abbrev done_page : TaskPage
done_page = record {
  items = done_plan ∷ [];
  total = pos 1;
  page = pos 1;
  per_page = pos 20;
  has_next = false;
}

list-page_for_example :
    done_page ≡ page_for 300 first_page (normalize done_tasks) changed.db.tables.tasks
unfolding task_runs list_runs
list-page_for_example =
    list-page_for 300 first_page first_page-RoundTrips world changed (pos 2) done_tasks done_page
      (list (task_service 300 first_page) (pos 2) done_tasks changed).1 world-IsStart run refl

list_of_member_example :
    (list (task_service 300 first_page) (pos 2) done_tasks changed).0
    ≡ ok (page_for 300 first_page (normalize done_tasks) changed.db.tables.tasks)
unfolding task_runs list_runs
list_of_member_example =
    list_of_member 300 first_page first_page-RoundTrips world changed (pos 2) done_tasks role_member
      world-IsStart run refl refl refl (omega arith)
