-- ===== src/App/Coherence/Reads.antt =====
-- `List` shows the page of the rows, from the cache or from the tables, and keeps the cache right.
use testovoe_bazis.Common.{
  ℕ, ◌≡◌, refl, sym, ap, subst, ◌∙◌, inl, inr, some, List, ℤ, arith, Result, ok, err, Action, pure,
  modify, outcome-cases, Option-cases, ◌>>=◌, ◌>>◌, text_eq,
}
use testovoe_bazis.Domain.{Role, Task, TaskFilters, TaskPage, normalize, validate}
use testovoe_bazis.Service.Gateways.{Bytes, PageCodec}
use testovoe_bazis.Service.Tasks.{
  TaskService, list, load_page, look_up, or_load, store, member_role, page_of,
}
use testovoe_bazis.Store.Database.{Database, Tables}
use testovoe_bazis.Store.Tasks as TaskRepository
use testovoe_bazis.Store.Tasks.Reading.{list-eq-ok, list-tables}
use testovoe_bazis.Service.Tasks.Checks.{member_role-eq-ok}
use testovoe_bazis.Store.Teams.Reading.{get_member_role-eq-ok}
use testovoe_bazis.Store.Cache.{CacheState, spend, find_key, get_list, key_text}
use testovoe_bazis.Store.Cache.Keys.{IsFilterStatus, validate-IsFilterStatus}
use testovoe_bazis.Store.Cache.Pages.{
  IsCalm, spend-IsCalm, current, get_list_calm, get_list-entries, entry_for, set_list_calm,
}
use testovoe_bazis.Store.Cache.Versions.{current_of_IsVersion}
use testovoe_bazis.Store.Cache.Soundness.{
  HasVersion, HasVersion-IsVersion, IsSound, find_key-find_entry, page_key,
}
use testovoe_bazis.Store.Cache.Keeping.{RespectsPages, set-IsSound}
use testovoe_bazis.App.{World, task_service}
use testovoe_bazis.App.Coherence.{RoundTrips, IsCoherent, IsRight, page_for}
use testovoe_bazis.App.Preserving.{Preserves, after}
use testovoe_bazis.App.Coherence.Keeping.{IsCoherent-moved, Preserves-member_role}

module _ (ttl : ℕ) (codec : PageCodec) (exact : RoundTrips codec) where
  -- Filters that agree in every field.
  IsRight-RespectsPages : (tasks : List Task) → RespectsPages (IsRight ttl codec tasks)
  unfolding RespectsPages
  IsRight-RespectsPages tasks f g bytes team same right =
      let e : f ≡ g = λ i. record {
        team_id = team i;
        status = same.status i;
        assignee_id = same.assignee i;
        page = same.page i;
        per_page = same.size i;
      } in
      subst (λ h. IsRight ttl codec tasks h bytes) e right

  -- A list that succeeds shows the page of the rows; however it ends, the cache is right.
  abbrev pub IsAnswer : TaskFilters → List Task → Result TaskPage × World → Type 0
  IsAnswer f tasks (ok page, w) = IsCoherent ttl codec w × (page ≡ page_for ttl codec f tasks)
  IsAnswer f tasks (err e, w) = IsCoherent ttl codec w

  module _ (f : TaskFilters) (known : IsFilterStatus f.status) where
    -- The key of a page, under the version of its team.
    key-current :
        (n : ℕ) (c : CacheState)
        → HasVersion f.team_id n c.entries
        → key_text f.team_id (current f.team_id c) f ≡ page_key n f
    key-current n c version =
        ap (λ v. key_text f.team_id v f)
          (current_of_IsVersion f.team_id n c (HasVersion-IsVersion f.team_id n c version))

    -- What the cache has under the key is the page.
    pub hit-IsRight :
        (w : World) (bytes : Bytes)
        → IsCoherent ttl codec w
        → (get_list f.team_id f w.cache).0 ≡ some bytes
        → IsRight ttl codec w.db.tables.tasks f bytes
    hit-IsRight w bytes c hit =
        let (n, version) = c.sound.versions f.team_id in
        let key = key-current n w.cache version in
        let live =
          subst (λ k. find_key k w.cache.clock w.cache.entries ≡ some bytes) key
            (sym (get_list_calm f.team_id f w.cache c.calm) ∙ hit) in
        let (e, found, value) =
          find_key-find_entry (page_key n f) w.cache.clock w.cache.entries bytes live in
        subst (IsRight ttl codec w.db.tables.tasks f) value
          (c.sound.pages n f e version known found)

    -- Storing the page of the rows.
    store-IsCoherent :
        (w : World)
        → IsCoherent ttl codec w
        → IsCoherent ttl codec
            (store (task_service ttl codec) f (page_for ttl codec f w.db.tables.tasks) w)
    store-IsCoherent w c =
        let tasks = w.db.tables.tasks in
        let page = page_for ttl codec f tasks in
        elim (Option-cases (codec.marshal page)) [
          | inl failed ↦ rw failed c
          | inr (bytes, made) ↦
              let (n, version) = c.sound.versions f.team_id in
              let e = entry_for f.team_id f ttl bytes w.cache in
              let stored = set_list_calm f.team_id f ttl bytes w.cache c.calm in
              let kept =
                set-IsSound (IsRight ttl codec tasks) w.cache.entries c.sound f n e
                  (key-current n w.cache version) known version (IsRight-RespectsPages tasks)
                  (exact.decodes page bytes made) in
              rw made (record {
                numbered = c.numbered;
                calm =
                    subst IsCalm (sym stored)
                      (spend-IsCalm (spend w.cache) (spend-IsCalm w.cache c.calm));
                sound =
                    subst (λ (x : CacheState). IsSound (IsRight ttl codec tasks) x.entries)
                      (sym stored) kept;
              })
        ]

    abbrev s : TaskService World
    s = task_service ttl codec

    -- What `List` does behind its read.
    abbrev show : List Task × ℤ → Action World TaskPage
    show found = modify (store s f (page_of s f found)) >> pure (page_of s f found)

    abbrev pub loaded : World → Result (List Task × ℤ) × Database → Result TaskPage × World
    loaded w p = after show (let (r, d) = p in (r, record w { db = d }))

    read-IsCoherent :
        (w : World) (d : Database)
        → IsCoherent ttl codec w
        → d.tables ≡ w.db.tables
        → d.next_task ≡ w.db.next_task
        → IsCoherent ttl codec (record w { db = d })
    read-IsCoherent w d c tables next =
        IsCoherent-moved ttl codec w (record w { db = d }) (ap (λ (t : Tables). t.tasks) tables)
          (omega (arith, next)) refl c.calm c

    load_page-IsAnswer :
        (w : World) → IsCoherent ttl codec w → IsAnswer f w.db.tables.tasks (load_page s f w)
    unfolding load_page
    load_page-IsAnswer w c =
        let (tables, next) = list-tables f w.db in
        elim (outcome-cases (TaskRepository.list f w.db)) [
          | inl (found, d, done) ↦
              let (rows, spent) = list-eq-ok f w.db done in
              let same : d.tables ≡ w.db.tables = ap (λ (x : Database). x.tables) spent in
              let count : d.next_task ≡ w.db.next_task = ap (λ (x : Database). x.next_task) spent in
              let page : page_of s f found ≡ page_for ttl codec f w.db.tables.tasks =
                ap (page_of s f) rows in
              let kept = read-IsCoherent w d c same count in
              let stored =
                subst (λ p. IsCoherent ttl codec (store s f p (record w { db = d })))
                  (ap (λ (t : Tables). page_for ttl codec f t.tasks) same ∙ sym page)
                  (store-IsCoherent (record w { db = d }) kept) in
              subst (λ p. IsAnswer f w.db.tables.tasks (loaded w p)) (sym done) (stored, page)
          | inr (e, d, failed) ↦
              let same : d.tables ≡ w.db.tables =
                subst (λ (p : Result (List Task × ℤ) × Database). p.1.tables ≡ w.db.tables) failed
                  tables in
              let count : d.next_task ≡ w.db.next_task =
                subst (λ (p : Result (List Task × ℤ) × Database). p.1.next_task ≡ w.db.next_task)
                  failed next in
              subst (λ p. IsAnswer f w.db.tables.tasks (loaded w p)) (sym failed)
                (read-IsCoherent w d c same count)
        ]

    tail-IsAnswer :
        (w : World)
        → IsCoherent ttl codec w
        → IsAnswer f w.db.tables.tasks ((look_up s f >>= or_load s f) w)
    tail-IsAnswer w c =
        let (entries, calm) = get_list-entries f.team_id f w.cache c.calm in
        let looked = record w { cache = (get_list f.team_id f w.cache).1 } in
        let kept : IsCoherent ttl codec looked =
          IsCoherent-moved ttl codec w looked refl (omega arith) entries calm c in
        elim (Option-cases (get_list f.team_id f w.cache).0) [
          | inl missed ↦ rw missed (load_page-IsAnswer looked kept)
          | inr (bytes, hit) ↦ rw (hit, hit-IsRight w bytes c hit) (kept, refl)
        ]

  -- The world behind the check of the role.
  abbrev pub asked_role : TaskFilters → Result Role × World → Result TaskPage × World
  asked_role f p =
      after
        (λ (role : Role). look_up (task_service ttl codec) f >>= or_load (task_service ttl codec) f)
        p

  -- If the cache is right, then `List` shows the page of the rows for the normalised filters,
  -- and the cache is right after it.
  pub list-IsAnswer :
      (actor_id : ℤ) (asked : TaskFilters) (w : World)
      → IsCoherent ttl codec w
      → IsAnswer
          (normalize asked)
          w.db.tables.tasks
          (list (task_service ttl codec) actor_id asked w)
  unfolding list
  list-IsAnswer actor_id asked w c =
      let f = normalize asked in
      let role = member_role (task_service ttl codec) f.team_id actor_id in
      elim (Option-cases (validate f)) [
        | inl valid ↦ elim (outcome-cases (role w)) [
          | inl (r, v, first) ↦
              let member = member_role-eq-ok (task_service ttl codec) f.team_id actor_id w first in
              let (has_role, spent) =
                get_member_role-eq-ok f.team_id actor_id w.db
                  (ap (λ (p : Result Role × World). (p.0, p.1.db)) member) in
              let tasks : v.db.tables.tasks ≡ w.db.tables.tasks =
                ap (λ (d : Database). d.tables.tasks) spent in
              let kept : IsCoherent ttl codec v =
                subst (λ (p : Result Role × World). IsCoherent ttl codec p.1) first
                  (unfold Preserves in Preserves-member_role ttl codec f.team_id actor_id w c) in
              rw valid (
                subst (λ p. IsAnswer f w.db.tables.tasks (asked_role f p)) (sym first)
                  (subst
                    (λ ks. IsAnswer f ks (
                      (look_up (task_service ttl codec) f >>= or_load (task_service ttl codec) f)
                        v))
                    tasks (tail-IsAnswer f (validate-IsFilterStatus f valid) v kept)))
          | inr (e, v, failed) ↦
              let kept : IsCoherent ttl codec v =
                subst (λ (p : Result Role × World). IsCoherent ttl codec p.1) failed
                  (unfold Preserves in Preserves-member_role ttl codec f.team_id actor_id w c) in
              rw valid
                (subst (λ p. IsAnswer f w.db.tables.tasks (asked_role f p)) (sym failed) kept)
        ]
        | inr (e, bad) ↦ rw bad c
      ]
