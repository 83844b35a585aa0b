-- ===== src/App/Coherence/Runs.antt =====
-- Requests one after another, while Redis answers: what is shown is what the tables hold.
use testovoe_bazis.Common.{ℕ, ◌≡◌, ◌≤◌, sym, subst, List, [], ℤ, Result, ok, err}
use testovoe_bazis.Domain.{Task, TaskFilters, TaskPage, TaskPatch, normalize}
use testovoe_bazis.Service.Gateways.{PageCodec}
use testovoe_bazis.Service.Tasks.{CreateTaskInput, create, list, update, history}
use testovoe_bazis.Store.Tasks.Numbering.{IsNumbered}
use testovoe_bazis.Store.Cache.Pages.{IsCalm}
use testovoe_bazis.Store.Cache.Soundness.{IsSound, IsSound-empty}
use testovoe_bazis.App.{World, task_service}
use testovoe_bazis.App.Coherence.{RoundTrips, IsCoherent, IsRight, page_for}
use testovoe_bazis.App.Preserving.{Preserves}
use testovoe_bazis.App.Coherence.Keeping.{IsCoherent-moved, history-IsCoherent}
use testovoe_bazis.App.Coherence.Requests.{create-IsCoherent, update-IsCoherent}
use testovoe_bazis.App.Coherence.Reads.{IsAnswer, list-IsAnswer}

module _ (ttl : ℕ) (codec : PageCodec) where
  -- One request about tasks, whatever it is answered with; or anything else that leaves the tasks
  -- and the entries of the cache as they are, such as another request, or the passing of time.
  pub data Step : World → World → Type 0 where
    listed :
        (actor_id : ℤ) (asked : TaskFilters) (w w' : World)
        → (list (task_service ttl codec) actor_id asked w).1 ≡ w'
        → Step w w'
    created :
        (actor_id : ℤ) (input : CreateTaskInput) (w w' : World)
        → (create (task_service ttl codec) actor_id input w).1 ≡ w'
        → Step w w'
    updated :
        (actor_id task_id : ℤ) (patch : TaskPatch) (w w' : World)
        → (update (task_service ttl codec) actor_id task_id patch w).1 ≡ w'
        → Step w w'
    traced :
        (actor_id task_id page size : ℤ) (w w' : World)
        → (history (task_service ttl codec) actor_id task_id page size w).1 ≡ w'
        → Step w w'
    elsewhere :
        (w w' : World)
        → w'.db.tables.tasks ≡ w.db.tables.tasks
        → w.db.next_task ≤ w'.db.next_task
        → w'.cache.entries ≡ w.cache.entries
        → IsCalm w'.cache
        → Step w w'

  pub data Run (start : World) : World → Type 0 where
    begun : Run start start
    followed : (v w : World) → Run start v → Step v w → Run start w

  -- An empty cache that answers, and tasks whose ids are below the counter.
  pub record IsStart (w : World) : Type 0 where
    pub empty : w.cache.entries ≡ []
    pub calm : IsCalm w.cache
    pub numbered : IsNumbered w.db.tables.tasks w.db.next_task

  IsStart-IsCoherent : (w : World) → IsStart w → IsCoherent ttl codec w
  IsStart-IsCoherent w s = record {
    numbered = s.numbered;
    calm = s.calm;
    sound =
        subst (λ es. IsSound (IsRight ttl codec w.db.tables.tasks) es) (sym s.empty)
          (IsSound-empty (IsRight ttl codec w.db.tables.tasks));
  }

  module _ (exact : RoundTrips codec) where
    IsAnswer-IsCoherent :
        (f : TaskFilters) (tasks : List Task) (p : Result TaskPage × World)
        → IsAnswer ttl codec exact f tasks p
        → IsCoherent ttl codec p.1
    IsAnswer-IsCoherent f tasks (ok page, w) h = h.0
    IsAnswer-IsCoherent f tasks (err e, w) h = h

    Step-IsCoherent : (v w : World) → Step v w → IsCoherent ttl codec v → IsCoherent ttl codec w
    unfolding Preserves
    Step-IsCoherent _ _ (listed actor_id asked v w e) c = subst (IsCoherent ttl codec) e (
        IsAnswer-IsCoherent (normalize asked) v.db.tables.tasks _
          (list-IsAnswer ttl codec exact actor_id asked v c))
    Step-IsCoherent _ _ (created actor_id input v w e) c =
        subst (IsCoherent ttl codec) e (create-IsCoherent ttl codec actor_id input v c)
    Step-IsCoherent _ _ (updated actor_id task_id patch v w e) c =
        subst (IsCoherent ttl codec) e (update-IsCoherent ttl codec actor_id task_id patch v c)
    Step-IsCoherent _ _ (traced actor_id task_id page size v w e) c =
        subst (IsCoherent ttl codec) e (history-IsCoherent ttl codec actor_id task_id page size v c)
    Step-IsCoherent _ _ (elsewhere v w tasks next entries calm) c =
        IsCoherent-moved ttl codec v w tasks next entries calm c

    pub Run-IsCoherent : (start w : World) → IsStart start → Run start w → IsCoherent ttl codec w
    Run-IsCoherent start _ s begun = IsStart-IsCoherent start s
    Run-IsCoherent start _ s (followed v w r step) =
        Step-IsCoherent v w step (Run-IsCoherent start v s r)

    IsAnswer-page :
        (f : TaskFilters) (tasks : List Task) (p : Result TaskPage × World) (page : TaskPage)
        (w' : World)
        → p ≡ (ok page, w')
        → IsAnswer ttl codec exact f tasks p
        → page ≡ page_for ttl codec f tasks
    IsAnswer-page f tasks p page w' e h = (subst (IsAnswer ttl codec exact f tasks) e h).1

    -- If encoding/json decodes what it encoded, and the service has started with an empty cache
    -- that answers ever since, then after any run of requests, one after another, a `List` that
    -- succeeds shows exactly the page that the tables hold at that moment.
    pub list-page_for :
        (start w : World) (actor_id : ℤ) (asked : TaskFilters) (page : TaskPage) (w' : World)
        → IsStart start
        → Run start w
        → list (task_service ttl codec) actor_id asked w ≡ (ok page, w')
        → page ≡ page_for ttl codec (normalize asked) w.db.tables.tasks
    list-page_for start w actor_id asked page w' s r done =
        IsAnswer-page (normalize asked) w.db.tables.tasks _ page w' done
          (list-IsAnswer ttl codec exact actor_id asked w (Run-IsCoherent start w s r))
