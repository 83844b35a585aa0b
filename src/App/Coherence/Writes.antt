-- ===== src/App/Coherence/Writes.antt =====
-- A write to rows of one team, and the raised version behind it, keep the cache right.
use testovoe_bazis.Common.{
  ℕ, ◌≡◌, ◌≢◌, ◌≤◌, refl, sym, ap, subst, ◌∙◌, inl, inr, Option, some, List, [], ◌∷◌, ◌++◌, map, ℤ,
  pos, length, mul64, sub64, select, All-find_first, Error, Result, Action, pure, modify,
  outcome-cases, ◌>>=◌, ◌>>◌, text_eq, ◌==◌, int_eq,
}
use testovoe_bazis.Domain.{Task, TaskFilters, TaskPatch, normalize}
use testovoe_bazis.Service.Gateways.{Bytes, PageCodec}
use testovoe_bazis.Service.Tasks.{page_of}
use testovoe_bazis.Store.Database.{Database, Tables, order_desc, page_of_rows}
use testovoe_bazis.Store.Tasks as TaskRepository
use testovoe_bazis.Store.Tasks.{matches, overwrite, task_id, find_task, stamped}
use testovoe_bazis.Store.Tasks.Elsewhere.{select-append_elsewhere, select-overwrite_elsewhere}
use testovoe_bazis.Store.Tasks.Numbering.{
  IsNumbered, IsNumbered-append, IsNumbered-later, IsNumbered-overwrite, create-next,
}
use testovoe_bazis.Store.Tasks.Counting.{Grows, Grows-create, Grows-update}
use testovoe_bazis.Store.Tasks.Creating.{create-eq-ok, create-err_tables}
use testovoe_bazis.Store.Tasks.Updating.{Updated, update-Updated, update-err_tables}
use testovoe_bazis.Store.Cache.{CacheState, invalidate_team}
use testovoe_bazis.Store.Cache.Pages.{IsCalm, spend-IsCalm}
use testovoe_bazis.Store.Cache.Versions.{invalidate_team_calm}
use testovoe_bazis.Store.Cache.Soundness.{HasVersion-IsVersion, IsSound}
use testovoe_bazis.Store.Cache.Keeping.{raise-IsSound}
use testovoe_bazis.App.{World, on_db, task_service}
use testovoe_bazis.App.Coherence.{IsCoherent, IsRight}
use testovoe_bazis.App.Preserving.{Preserves, after}
use testovoe_bazis.App.Coherence.Keeping.{IsCoherent-moved}

module _ (ttl : ℕ) (codec : PageCodec) where
  -- The pages of filters depend on the rows that match.
  IsRight-same :
      (f : TaskFilters) (tasks tasks' : List Task) (bytes : Bytes)
      → select (matches (normalize f)) tasks' ≡ select (matches (normalize f)) tasks
      → IsRight ttl codec tasks f bytes
      → IsRight ttl codec tasks' f bytes
  IsRight-same f tasks tasks' bytes same right =
      let g = normalize f in
      right
      ∙ ap
          (λ rows. some (
            page_of (task_service ttl codec) f (
              page_of_rows g.per_page (mul64 (sub64 g.page (pos 1)) g.per_page)
                  (order_desc task_id rows),
              pos (length rows),
            )))
          (sym same)

  -- A write to rows of one team, and then the raised version.
  module _ (w : World) (c : IsCoherent ttl codec w) (d : Database) (team_id : ℤ) where
    invalidated-IsCoherent :
        IsNumbered d.tables.tasks d.next_task
        → ((f : TaskFilters)
            → team_id ≢ (normalize f).team_id
            → select (matches (normalize f)) d.tables.tasks
              ≡ select (matches (normalize f)) w.db.tables.tasks)
        → IsCoherent ttl codec (record { db = d; cache = invalidate_team team_id w.cache })
    unfolding normalize
    invalidated-IsCoherent numbered elsewhere =
        let (n, version) = c.sound.versions team_id in
        let moved =
          invalidate_team_calm team_id n w.cache c.calm
            (HasVersion-IsVersion team_id n w.cache version) in
        let raised =
          raise-IsSound (IsRight ttl codec w.db.tables.tasks) (IsRight ttl codec d.tables.tasks)
            w.cache.entries c.sound team_id n version
            (λ f v h right.
              IsRight-same f w.db.tables.tasks d.tables.tasks v (elsewhere f (λ e. h (sym e)))
                right) in
        record {
          numbered = numbered;
          calm = subst IsCalm (sym moved) (spend-IsCalm w.cache c.calm);
          sound =
              subst (λ (x : CacheState). IsSound (IsRight ttl codec d.tables.tasks) x.entries)
                (sym moved) raised;
        }

  -- A write that failed.
  failed-IsCoherent :
      (w : World) (c : IsCoherent ttl codec w) (d : Database)
      → d.tables ≡ w.db.tables
      → w.db.next_task ≤ d.next_task
      → IsCoherent ttl codec (record w { db = d })
  failed-IsCoherent w c d tables next =
      IsCoherent-moved ttl codec w (record w { db = d }) (ap (λ (t : Tables). t.tasks) tables) next
        refl c.calm c

  abbrev invalidate_after : Task → Action World Task
  invalidate_after task =
      modify (λ w. record w { cache = invalidate_team task.team_id w.cache }) >> pure task

  -- The world behind a write that came to an outcome.
  abbrev written : World → Result Task × Database → World
  written w p = (after invalidate_after (let (r, d) = p in (r, record w { db = d }))).1

  pub create-then :
      (k : Task)
      → Preserves (IsCoherent ttl codec) (on_db (TaskRepository.create k) >>= invalidate_after)
  unfolding Preserves Grows stamped
  create-then k w c = elim (outcome-cases (TaskRepository.create k w.db)) [
    | inl (r, d, done) ↦
        let (same, fits, stored) = create-eq-ok k w.db r d done in
        let next = create-next k w.db r d done in
        let tasks : d.tables.tasks ≡ w.db.tables.tasks ++ (r ∷ []) =
          ap (λ (t : Tables). t.tasks) stored in
        let number : r.id ≡ pos w.db.next_task = ap (λ (x : Task). x.id) same in
        let numbered =
          IsNumbered-append w.db.tables.tasks w.db.next_task c.numbered r d.next_task number next in
        subst (λ p. IsCoherent ttl codec (written w p)) (sym done)
          (invalidated-IsCoherent w c d r.team_id
            (subst (λ ks. IsNumbered ks d.next_task) (sym tasks) numbered)
            (λ f h.
              ap (λ ks. select (matches (normalize f)) ks) tasks
              ∙ select-append_elsewhere (normalize f) w.db.tables.tasks r h))
    | inr (e, d, failed) ↦
        let next : w.db.next_task ≤ d.next_task =
          subst (λ (p : Result Task × Database). w.db.next_task ≤ p.1.next_task) failed
            (Grows-create k w.db) in
        subst (λ p. IsCoherent ttl codec (written w p)) (sym failed)
          (failed-IsCoherent w c d (create-err_tables k w.db e d failed) next)
  ]

  module _ (id : ℤ) (p : TaskPatch) (actor_id : ℤ) (allow : Task → Option Error) where
    Updated-IsCoherent :
        (w : World) (r : Task) (d : Database)
        → IsCoherent ttl codec w
        → w.db.next_task ≤ d.next_task
        → Updated id p actor_id allow w.db d r
        → IsCoherent ttl codec (record { db = d; cache = invalidate_team r.team_id w.cache })
    Updated-IsCoherent w r d c next u =
        let num = c.numbered in
        let locked : u.locked.team_id ≡ num.team_of u.locked.id =
          All-find_first (λ (k : Task). k.team_id ≡ num.team_of k.id) (λ (k : Task). k.id == id)
            w.db.tables.tasks u.was_found num.teams in
        let later = IsNumbered-later w.db.tables.tasks w.db.next_task d.next_task next num in
        elim u.outcome [
          | inl (same, unchanged, kept) ↦
              let tasks : d.tables.tasks ≡ w.db.tables.tasks = ap (λ (t : Tables). t.tasks) kept in
              invalidated-IsCoherent w c d r.team_id
                (subst (λ ks. IsNumbered ks d.next_task) (sym tasks) later)
                (λ f h. ap (λ ks. select (matches (normalize f)) ks) tasks)
          | inr (same, stored) ↦
              let tasks : d.tables.tasks ≡ map (overwrite r) w.db.tables.tasks =
                ap (λ (t : Tables). t.tasks) stored in
              let placed : r.team_id ≡ num.team_of r.id =
                ap (λ (k : Task). k.team_id) same
                ∙ locked
                ∙ ap num.team_of (sym (ap (λ (k : Task). k.id) same)) in
              invalidated-IsCoherent w c d r.team_id
                (subst (λ ks. IsNumbered ks d.next_task) (sym tasks)
                  (IsNumbered-overwrite w.db.tables.tasks d.next_task later r))
                (λ f h.
                  ap (λ ks. select (matches (normalize f)) ks) tasks
                  ∙ select-overwrite_elsewhere (normalize f) r num.team_of placed h
                      w.db.tables.tasks num.teams)
        ]

    pub update-then :
        Preserves
          (IsCoherent ttl codec)
          (on_db (TaskRepository.update id p actor_id allow) >>= invalidate_after)
    unfolding Preserves Grows
    update-then w c =
        let grown = Grows-update id p actor_id allow w.db in
        elim (outcome-cases (TaskRepository.update id p actor_id allow w.db)) [
          | inl (r, d, done) ↦
              let next =
                subst (λ (o : Result Task × Database). w.db.next_task ≤ o.1.next_task) done grown in
              subst (λ o. IsCoherent ttl codec (written w o)) (sym done)
                (Updated-IsCoherent w r d c next (update-Updated id p actor_id allow w.db r d done))
          | inr (e, d, failed) ↦
              let next =
                subst (λ (o : Result Task × Database). w.db.next_task ≤ o.1.next_task) failed
                  grown in
              subst (λ o. IsCoherent ttl codec (written w o)) (sym failed)
                (failed-IsCoherent w c d (update-err_tables id p actor_id allow w.db e d failed)
                  next)
        ]
