-- ===== src/Store/Cache.antt =====
-- internal/store/rediscache/task_cache.go: pages of tasks in Redis, under keys that hold a version
-- of their team.
pub mod Entries
pub mod Keys
pub mod Pages
pub mod Versions
pub mod Soundness
pub mod Keeping
use testovoe_bazis.Common.{
  ℕ, suc, ◌+◌, Bool, true, false, Option, none, some, List, [], ◌∷◌, ◌++◌, ℤ, pos, negsuc, zero,
  ltb, text_eq, ◌==◌, Text, codes, format_int, read_int, if◌then◌else◌,
}
use testovoe_bazis.Domain.{TaskFilters}
use testovoe_bazis.Service.Gateways.{Bytes}

-- A key with its value, and the second at which it expires if it does.
pub record Entry : Type 0 where
  pub key : Text
  pub value : Bytes
  pub expires : Option ℕ

-- `faults` says which of the next commands fail; when it is used up, none does. `hits` and `misses`
-- are the counters of the metrics.
pub record CacheState : Type 0 where
  pub entries : List Entry
  pub faults : List Bool
  pub clock : ℕ
  pub hits : ℕ
  pub misses : ℕ

-- The answer to GET: a value, `redis.Nil`, or an error.
pub data Reply : Type 0 where
  value : Bytes → Reply
  absent : Reply
  failed : Reply

abbrev next_fails : List Bool → Bool
next_fails [] = false
next_fails (b ∷ _) = b

abbrev later : List Bool → List Bool
later [] = []
later (_ ∷ bs) = bs

abbrev pub spend : CacheState → CacheState
spend c = record c { faults = later c.faults }

abbrev is_live : ℕ → Option ℕ → Bool
is_live clock none = true
is_live clock (some at) = ltb clock at

unfoldable pub find_key : Text → ℕ → List Entry → Option Bytes
find_key k clock [] = none
find_key k clock (e ∷ es) =
    let rest = find_key k clock es in
    if e.key == k then (if is_live clock e.expires then some e.value else none) else rest

unfoldable pub put_key : Entry → List Entry → List Entry
put_key e [] = e ∷ []
put_key e (f ∷ fs) = let rest = put_key e fs in if f.key == e.key then e ∷ fs else f ∷ rest

abbrev as_reply : Option Bytes → Reply
as_reply none = absent
as_reply (some v) = value v

-- GET
unfoldable pub redis_get : Text → CacheState → Reply × CacheState
redis_get k c =
    (if next_fails c.faults then failed else as_reply (find_key k c.clock c.entries), spend c)

-- SET with a time to live; a failure changes nothing.
unfoldable pub redis_set : ℕ → Text → Bytes → CacheState → CacheState
redis_set ttl k v c = if next_fails c.faults then spend c else record (spend c) {
  entries = put_key (record { key = k; value = v; expires = some (c.clock + ttl) }) c.entries;
}

abbrev next_number : ℤ → ℤ
next_number (pos n) = pos (suc n)
next_number (negsuc zero) = pos 0
next_number (negsuc (suc n)) = negsuc n

-- What INCR stores: `none` if the value is not the decimal form of an integer, which is an error.
abbrev incremented : Option Bytes → Option Bytes
incremented none = some (format_int (pos 1))
incremented (some v) =
    if format_int (read_int v) == v then some (format_int (next_number (read_int v))) else none

abbrev store_number : Text → Option Bytes → CacheState → CacheState
store_number k none c = c
store_number k (some v) c = record c {
  entries = put_key (record { key = k; value = v; expires = none }) c.entries;
}

-- INCR, on a key that never expires; a failure changes nothing.
unfoldable pub redis_incr : Text → CacheState → CacheState
redis_incr k c =
    if next_fails c.faults
    then spend c
    else store_number k (incremented (find_key k c.clock c.entries)) (spend c)

unfoldable pub version_key : ℤ → Text
version_key team_id = codes "teams:" ++ format_int team_id ++ codes ":tasks:version"

abbrev version_of : Reply → Bytes
version_of (value v) = v
version_of absent = codes "0"
version_of failed = codes "0"

unfoldable pub version : ℤ → CacheState → Bytes × CacheState
version team_id c = let (r, c') = redis_get (version_key team_id) c in (version_of r, c')

abbrev key_assignee : Option ℤ → Text
key_assignee none = codes "none"
key_assignee (some id) = format_int id

unfoldable pub key_text : ℤ → Text → TaskFilters → Text
key_text team_id version f =
    codes "teams:"
    ++ (format_int team_id
        ++ (codes ":tasks:v"
            ++ (version
                ++ (codes ":status:"
                    ++ ((if f.status == [] then codes "all" else f.status)
                        ++ (codes ":assignee:"
                            ++ (key_assignee f.assignee_id
                                ++ (codes ":page:"
                                    ++ (format_int f.page
                                        ++ (codes ":size:" ++ format_int f.per_page))))))))))

-- `TaskCache.key`
unfoldable pub key_for : ℤ → TaskFilters → CacheState → Text × CacheState
key_for team_id f c = let (v, c') = version team_id c in (key_text team_id v f, c')

-- `TaskCache.GetList` behind the GET.
abbrev counted : Reply × CacheState → Option Bytes × CacheState
counted (value v, c) = (some v, record c { hits = suc c.hits })
counted (absent, c) = (none, record c { misses = suc c.misses })
counted (failed, c) = (none, record c { misses = suc c.misses })

-- `TaskCache.GetList`
unfoldable pub get_list : ℤ → TaskFilters → CacheState → Option Bytes × CacheState
get_list team_id f c = let (k, c') = key_for team_id f c in counted (redis_get k c')

-- `TaskCache.SetList`
unfoldable pub set_list : ℕ → ℤ → TaskFilters → Bytes → CacheState → CacheState
set_list ttl team_id f bytes c = let (k, c') = key_for team_id f c in redis_set ttl k bytes c'

-- `TaskCache.InvalidateTeam`
unfoldable pub invalidate_team : ℤ → CacheState → CacheState
invalidate_team team_id c = redis_incr (version_key team_id) c
