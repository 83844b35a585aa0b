-- ===== src/Store/Cache/Versions.antt =====
-- The versions of the cache: an invalidation moves the key of every page of a team.
use mathlib.Core.List.{append_cancel_left, append_cancel_right}
use testovoe_bazis.Common.{
  ℕ, suc, ◌<◌, ◌≡◌, ◌≢◌, refl, sym, ap, subst, ◌∙◌, ◌⊎◌, inl, inr, none, some, ℤ, pos, pos_part,
  arith, Text, text_eq, text_beq_refl, codes, format_int, format_int_injective, read_int-format_int,
}
use testovoe_bazis.Domain.{TaskFilters}
use testovoe_bazis.Service.Gateways.{Bytes}
use testovoe_bazis.Store.Cache.{
  next_fails, spend, Entry, CacheState, find_key, put_key, redis_incr, version_key, key_text,
  key_for, get_list, set_list, invalidate_team, incremented,
}
use testovoe_bazis.Store.Cache.Keys.{key_text-ne-version_key}
use testovoe_bazis.Store.Cache.Entries.{find_key-put_key, find_key-put_key_other}
use testovoe_bazis.Store.Cache.Pages.{
  current, IsCalm, spend-IsCalm, key_for_calm, get_list_calm, entry_for, set_list_calm,
  get_list-set_list,
}

-- Filters alone do not make two versions share a key.
key_text_injective :
    (team_id : ℤ) (v v' : Text) (f : TaskFilters)
    → key_text team_id v f ≡ key_text team_id v' f
    → v ≡ v'
unfolding key_text
key_text_injective team_id v v' f h = append_cancel_right v v' _ (
    append_cancel_left (codes ":tasks:v") _ _
      (append_cancel_left (format_int team_id) _ _ (append_cancel_left (codes "teams:") _ _ h)))

-- The version of a team is `n`: its key is absent, which counts as 0, or holds `n`.
unfoldable pub IsVersion : ℤ → ℕ → CacheState → Type 0
IsVersion team_id n c =
    ((find_key (version_key team_id) c.clock c.entries ≡ none) × (n ≡ 0))
    ⊎ (find_key (version_key team_id) c.clock c.entries ≡ some (format_int (pos n)))

pub current_of_IsVersion :
    (team_id : ℤ) (n : ℕ) (c : CacheState)
    → IsVersion team_id n c
    → current team_id c ≡ format_int (pos n)
unfolding IsVersion format_int
current_of_IsVersion team_id n c (inl (fresh, first)) = rw (fresh, first) refl
current_of_IsVersion team_id n c (inr stored) = rw stored refl

abbrev pub version_entry : ℤ → ℕ → Entry
version_entry team_id n = record {
  key = version_key team_id;
  value = format_int (pos n);
  expires = none;
}

incremented_of_IsVersion :
    (team_id : ℤ) (n : ℕ) (c : CacheState)
    → IsVersion team_id n c
    → incremented (find_key (version_key team_id) c.clock c.entries)
      ≡ some (format_int (pos (suc n)))
unfolding IsVersion
incremented_of_IsVersion team_id n c (inl (fresh, first)) = rw (fresh, first) refl
incremented_of_IsVersion team_id n c (inr stored) =
    rw (stored, read_int-format_int (pos n), text_beq_refl (format_int (pos n))) refl

module _ (team_id : ℤ) (n : ℕ) where
  pub invalidate_team_calm :
      (c : CacheState)
      → IsCalm c
      → IsVersion team_id n c
      → invalidate_team team_id c
        ≡ record (spend c) { entries = put_key (version_entry team_id (suc n)) c.entries }
  unfolding invalidate_team redis_incr
  invalidate_team_calm c calm known =
      rw (ap next_fails calm, incremented_of_IsVersion team_id n c known) refl

  -- If Redis answers, `InvalidateTeam` takes the version of the team from any number to the next.
  pub invalidate_team-IsVersion :
      (c : CacheState)
      → IsCalm c
      → IsVersion team_id n c
      → IsVersion team_id (suc n) (invalidate_team team_id c)
  unfolding IsVersion
  invalidate_team-IsVersion c calm known = inr (
      rw (invalidate_team_calm c calm known)
        (find_key-put_key (version_entry team_id (suc n)) c.clock c.entries))

  successor_ne : format_int (pos n) ≢ format_int (pos (suc n))
  successor_ne h =
      let same = format_int_injective (pos n) (pos (suc n)) h in omega (arith, ap pos_part same)

  module _ (f : TaskFilters) (ttl : ℕ) (bytes : Bytes) where
    set_list-IsVersion :
        (c : CacheState)
        → IsCalm c
        → IsVersion team_id n c
        → IsVersion team_id n (set_list ttl team_id f bytes c)
    unfolding IsVersion
    set_list-IsVersion c calm known =
        rw
          (
            set_list_calm team_id f ttl bytes c calm,
            find_key-put_key_other (version_key team_id) (entry_for team_id f ttl bytes c) c.clock
                c.entries (key_text-ne-version_key team_id team_id (current team_id c) f),
          )
          known

    -- If Redis answers, a page that was stored before `InvalidateTeam` is not served after it: for
    -- the same filters `GetList` finds only what the cache held under the next version before.
    pub get_list-invalidate_team :
        (c : CacheState)
        → IsCalm c
        → IsVersion team_id n c
        → (get_list team_id f (invalidate_team team_id (set_list ttl team_id f bytes c))).0
          ≡ find_key (key_text team_id (format_int (pos (suc n))) f) c.clock c.entries
    get_list-invalidate_team c calm known =
        let e = entry_for team_id f ttl bytes c in
        let v = version_entry team_id (suc n) in
        let key = key_text team_id (format_int (pos (suc n))) f in
        let stored = set_list ttl team_id f bytes c in
        let stored_eq = set_list_calm team_id f ttl bytes c calm in
        let stored_calm : IsCalm stored =
          subst IsCalm (sym stored_eq) (spend-IsCalm (spend c) (spend-IsCalm c calm)) in
        let stored_known = set_list-IsVersion c calm known in
        let moved = invalidate_team-IsVersion stored stored_calm stored_known in
        let moved_eq = invalidate_team_calm stored stored_calm stored_known in
        let moved_calm : IsCalm (invalidate_team team_id stored) =
          subst IsCalm (sym moved_eq) (spend-IsCalm stored stored_calm) in
        let clock : (invalidate_team team_id stored).clock ≡ c.clock =
          ap (λ (d : CacheState). d.clock) moved_eq ∙ ap (λ (d : CacheState). d.clock) stored_eq in
        let entries : (invalidate_team team_id stored).entries ≡ put_key v (put_key e c.entries) =
          ap (λ (d : CacheState). d.entries) moved_eq
          ∙ ap (λ (d : CacheState). put_key v d.entries) stored_eq in
        let not_version : v.key ≢ key =
          λ h. key_text-ne-version_key team_id team_id (format_int (pos (suc n))) f (sym h) in
        let not_earlier : e.key ≢ key = λ h.
          successor_ne
            (sym (current_of_IsVersion team_id n c known) ∙ key_text_injective team_id _ _ f h) in
        get_list_calm team_id f (invalidate_team team_id stored) moved_calm
        ∙ rw
            (
              current_of_IsVersion team_id (suc n) (invalidate_team team_id stored) moved,
              clock,
              entries,
              find_key-put_key_other key v c.clock (put_key e c.entries) not_version,
              find_key-put_key_other key e c.clock c.entries not_earlier,
            )
            refl

    -- If Redis answers and the time to live is positive, a page that is stored after an
    -- `InvalidateTeam`, however old its rows are, is served to the next reader, although the key
    -- that its own reader looked up before the invalidation was another one.
    pub late_page_served :
        (c : CacheState)
        → IsCalm c
        → IsVersion team_id n c
        → 0 < ttl
        → ((get_list team_id f (set_list ttl team_id f bytes (invalidate_team team_id c))).0
            ≡ some bytes)
          × ((key_for team_id f (invalidate_team team_id c)).0 ≢ (key_for team_id f c).0)
    late_page_served c calm known positive =
        let d = invalidate_team team_id c in
        let d_eq = invalidate_team_calm c calm known in
        let d_calm : IsCalm d = subst IsCalm (sym d_eq) (spend-IsCalm c calm) in
        let before : current team_id c ≡ format_int (pos n) =
          current_of_IsVersion team_id n c known in
        let after : current team_id d ≡ format_int (pos (suc n)) =
          current_of_IsVersion team_id (suc n) d (invalidate_team-IsVersion c calm known) in
        (
          get_list-set_list team_id f ttl bytes d d_calm positive,
          λ h. successor_ne (
              key_text_injective team_id _ _ f (
                ap (λ v. key_text team_id v f) (sym before)
                ∙ sym (ap (λ p. p.0) (key_for_calm team_id f c calm))
                ∙ sym h
                ∙ ap (λ p. p.0) (key_for_calm team_id f d d_calm)
                ∙ ap (λ v. key_text team_id v f) after)),
        )
