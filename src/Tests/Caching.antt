-- ===== src/Tests/Caching.antt =====
-- The cache of pages, empty and with one page.
use testovoe_bazis.Common.{◌≡◌, ◌≢◌, refl, inl, none, some, [], ◌∷◌, suc, pos, arith, format_int}
use testovoe_bazis.Domain.{TaskFilters}
use testovoe_bazis.Store.Cache.{
  CacheState, find_key, key_text, key_for, get_list, set_list, invalidate_team,
}
use testovoe_bazis.Store.Cache.Versions.{IsVersion, get_list-invalidate_team, late_page_served}
use testovoe_bazis.Tests.Data.{world}

abbrev asked : TaskFilters
asked = record { team_id = pos 1; status = []; assignee_id = none; page = pos 1; per_page = pos 20 }

abbrev empty_cache : CacheState
empty_cache = world.cache

fresh : IsVersion (pos 1) 0 empty_cache
unfolding IsVersion find_key
fresh = inl (refl, refl)

get_list-invalidate_team_example :
    (get_list
      (pos 1)
      asked
      (invalidate_team (pos 1) (set_list 300 (pos 1) asked (1 ∷ []) empty_cache))).0
    ≡ find_key (key_text (pos 1) (format_int (pos (suc 0))) asked) 7 []
get_list-invalidate_team_example =
    get_list-invalidate_team (pos 1) 0 asked 300 (1 ∷ []) empty_cache refl fresh

late_page_served_example :
    ((get_list
        (pos 1)
        asked
        (set_list 300 (pos 1) asked (1 ∷ []) (invalidate_team (pos 1) empty_cache))).0
      ≡ some (1 ∷ []))
    × ((key_for (pos 1) asked (invalidate_team (pos 1) empty_cache)).0
        ≢ (key_for (pos 1) asked empty_cache).0)
late_page_served_example =
    late_page_served (pos 1) 0 asked 300 (1 ∷ []) empty_cache refl fresh (omega arith)
