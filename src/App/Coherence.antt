-- ===== src/App/Coherence.antt =====
-- The cache of pages and the tables, over requests one after another: what `List` of
-- internal/service/task_service.go shows is what the tables hold.
pub mod Keeping
pub mod Writes
pub mod Requests
pub mod Reads
pub mod Runs
pub mod Serving
use testovoe_bazis.Common.{
  ℕ, ◌≡◌, ap, Option, some, List, ℤ, pos, Text, Result, ok, length, mul64, sub64, select,
}
use testovoe_bazis.Domain.{Task, TaskFilters, TaskPage, normalize}
use testovoe_bazis.Service.Gateways.{Bytes, PageCodec}
use testovoe_bazis.Service.Tasks.{page_of}
use testovoe_bazis.Store.Database.{order_desc, page_of_rows}
use testovoe_bazis.Store.Tasks.{matches, task_id}
use testovoe_bazis.Store.Tasks.Numbering.{IsNumbered}
use testovoe_bazis.Store.Cache.{CacheState}
use testovoe_bazis.Store.Cache.Pages.{IsCalm}
use testovoe_bazis.Store.Cache.Soundness.{IsSound}
use testovoe_bazis.App.{World, task_service}

-- What encoding/json is relied on for: a page that was encoded is decoded to itself.
pub record RoundTrips (codec : PageCodec) : Type 0 where
  pub decodes :
      (page : TaskPage) (bytes : Bytes)
      → codec.marshal page ≡ some bytes
      → codec.unmarshal bytes ≡ some page

module _ (ttl : ℕ) (codec : PageCodec) where
  -- The page that the rows of the tasks make for filters.
  abbrev pub page_for : TaskFilters → List Task → TaskPage
  page_for f tasks =
      let g = normalize f in
      let rows = select (matches g) tasks in
      page_of (task_service ttl codec) f (
        page_of_rows g.per_page (mul64 (sub64 g.page (pos 1)) g.per_page) (order_desc task_id rows),
        pos (length rows),
      )

  -- A value of the cache is right for filters: it is the page of the rows.
  abbrev pub IsRight : List Task → TaskFilters → Bytes → Type 0
  IsRight tasks f bytes = codec.unmarshal bytes ≡ some (page_for f tasks)

  -- The ids of the tasks are numbered, Redis answers, and every page that it would be asked for is
  -- right.
  pub record IsCoherent (w : World) : Type 0 where
    pub numbered : IsNumbered w.db.tables.tasks w.db.next_task
    pub calm : IsCalm w.cache
    pub sound : IsSound (IsRight w.db.tables.tasks) w.cache.entries
