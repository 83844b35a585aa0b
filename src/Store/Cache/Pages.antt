-- ===== src/Store/Cache/Pages.antt =====
-- The cache of pages: what the calls come to if Redis answers, and that a stored page is found.
use testovoe_bazis.Common.{
  ℕ, ◌+◌, ◌<◌, ◌≡◌, refl, ap, inl, inr, true, some, [], ℤ, ltb, arith, Text, text_eq, Option-cases,
}
use testovoe_bazis.Domain.{TaskFilters}
use testovoe_bazis.Service.Gateways.{Bytes}
use testovoe_bazis.Store.Cache.{
  as_reply, next_fails, later, spend, Entry, CacheState, find_key, put_key, redis_get, redis_set,
  version_key, version, version_of, key_text, key_for, get_list, set_list,
}
use testovoe_bazis.Store.Cache.Keys.{key_text-ne-version_key}
use testovoe_bazis.Store.Cache.Entries.{find_key-put_key, find_key-put_key_other}

-- The version that a Redis without failures answers with.
abbrev pub current : ℤ → CacheState → Bytes
current team_id c = version_of (as_reply (find_key (version_key team_id) c.clock c.entries))

-- Redis answers: none of the next commands fails.
abbrev pub IsCalm : CacheState → Type 0
IsCalm c = c.faults ≡ []

pub spend-IsCalm : (c : CacheState) → IsCalm c → IsCalm (spend c)
spend-IsCalm c calm = ap later calm

redis_get_calm :
    (k : Text) (c : CacheState)
    → IsCalm c
    → redis_get k c ≡ (as_reply (find_key k c.clock c.entries), spend c)
unfolding redis_get
redis_get_calm k c calm = rw calm refl

module _ (team_id : ℤ) (f : TaskFilters) where
  pub key_for_calm :
      (c : CacheState)
      → IsCalm c
      → key_for team_id f c ≡ (key_text team_id (current team_id c) f, spend c)
  unfolding key_for version
  key_for_calm c calm = rw (redis_get_calm (version_key team_id) c calm) refl

  pub get_list_calm :
      (c : CacheState)
      → IsCalm c
      → (get_list team_id f c).0
        ≡ find_key (key_text team_id (current team_id c) f) c.clock c.entries
  unfolding get_list
  get_list_calm c calm =
      let k = key_text team_id (current team_id c) f in
      rw (key_for_calm c calm, redis_get_calm k (spend c) (spend-IsCalm c calm))
        (elim (Option-cases (find_key k c.clock c.entries)) [
          | inl missed ↦ rw missed refl
          | inr (v, hit) ↦ rw hit refl
        ])

  -- `GetList` stores nothing.
  pub get_list-entries :
      (c : CacheState)
      → IsCalm c
      → ((get_list team_id f c).1.entries ≡ c.entries) × IsCalm (get_list team_id f c).1
  unfolding get_list
  get_list-entries c calm =
      let k = key_text team_id (current team_id c) f in
      let spent = spend-IsCalm (spend c) (spend-IsCalm c calm) in
      rw (key_for_calm c calm, redis_get_calm k (spend c) (spend-IsCalm c calm))
        (elim (Option-cases (find_key k c.clock c.entries)) [
          | inl missed ↦ rw missed (refl, spent)
          | inr (v, hit) ↦ rw hit (refl, spent)
        ])

  abbrev pub entry_for : ℕ → Bytes → CacheState → Entry
  entry_for ttl bytes c = record {
    key = key_text team_id (current team_id c) f;
    value = bytes;
    expires = some (c.clock + ttl);
  }

  pub set_list_calm :
      (ttl : ℕ) (bytes : Bytes) (c : CacheState)
      → IsCalm c
      → set_list ttl team_id f bytes c
        ≡ record (spend (spend c)) { entries = put_key (entry_for ttl bytes c) c.entries }
  unfolding set_list redis_set
  set_list_calm ttl bytes c calm =
      rw (key_for_calm c calm, ap next_fails (spend-IsCalm c calm)) refl

  -- If Redis answers and the time to live is positive, a page that `SetList` has stored is what
  -- `GetList` returns for the same filters.
  pub get_list-set_list :
      (ttl : ℕ) (bytes : Bytes) (c : CacheState)
      → IsCalm c
      → 0 < ttl
      → (get_list team_id f (set_list ttl team_id f bytes c)).0 ≡ some bytes
  get_list-set_list ttl bytes c calm h =
      let e = entry_for ttl bytes c in
      let c' = record (spend (spend c)) { entries = put_key e c.entries } in
      let same : current team_id c' ≡ current team_id c =
        ap (λ o. version_of (as_reply o))
          (find_key-put_key_other (version_key team_id) e c.clock c.entries
            (key_text-ne-version_key team_id team_id (current team_id c) f)) in
      let live : ltb c.clock (c.clock + ttl) ≡ true = ground arith in
      rw
        (
          set_list_calm ttl bytes c calm,
          get_list_calm c' (spend-IsCalm (spend c) (spend-IsCalm c calm)),
          same,
          find_key-put_key e c.clock c.entries,
          live,
        )
        refl
