-- ===== src/Store/Cache/Soundness.antt =====
-- When the entries in Redis are sound: each page under the current version of its team is good, in
-- a sense that is given, and there is none under a later version.
use testovoe_bazis.Common.{
  ℕ, ◌<◌, ◌≡◌, ◌≢◌, ◌⊎◌, refl, sym, ap, ◌∙◌, inl, inr, Bool-cases, Option, none, some, List, [],
  ◌∷◌, ℤ, pos, pos_part, arith, Text, text_eq, text_beq, text_beq_iff, text_beq_refl, ◌==◌,
  if◌then◌else◌, format_int, format_int_injective,
}
use testovoe_bazis.Domain.{TaskFilters}
use testovoe_bazis.Service.Gateways.{Bytes}
use testovoe_bazis.Store.Cache.{
  Entry, CacheState, find_key, put_key, is_live, version_key, key_text,
}
use testovoe_bazis.Store.Cache.Keys.{IsFilterStatus, key_text-ne-version_key}
use testovoe_bazis.Store.Cache.Versions.{IsVersion, version_entry}

-- The entry of a key, expired or not.
unfoldable pub find_entry : Text → List Entry → Option Entry
find_entry k [] = none
find_entry k (e ∷ es) = let rest = find_entry k es in if e.key == k then some e else rest

abbrev live_value : ℕ → Option Entry → Option Bytes
live_value clock none = none
live_value clock (some e) = if is_live clock e.expires then some e.value else none

pub find_key_lem :
    (k : Text) (clock : ℕ) (es : List Entry)
    → find_key k clock es ≡ live_value clock (find_entry k es)
unfolding find_key find_entry
find_key_lem k clock [] = refl
find_key_lem k clock (e ∷ es) = elim (Bool-cases (text_beq e.key k)) [
  | inl same ↦ rw same refl
  | inr other ↦ rw other (find_key_lem k clock es)
]

pub find_entry-put_key : (e : Entry) (es : List Entry) → find_entry e.key (put_key e es) ≡ some e
unfolding find_entry put_key
find_entry-put_key e [] = rw (text_beq_refl e.key) refl
find_entry-put_key e (f ∷ fs) = elim (Bool-cases (text_beq f.key e.key)) [
  | inl same ↦ simp (same, text_beq_refl)
  | inr other ↦ simp (other, find_entry-put_key e fs)
]

pub find_entry-put_key_other :
    (k : Text) (e : Entry) (es : List Entry)
    → e.key ≢ k
    → find_entry k (put_key e es) ≡ find_entry k es
unfolding find_entry put_key
find_entry-put_key_other k e [] h = ground (arith, text_beq_iff e.key k)
find_entry-put_key_other k e (f ∷ fs) h = ground (
  arith,
  text_beq_iff e.key k,
  text_beq_iff f.key e.key,
  text_beq_iff f.key k,
  find_entry-put_key_other k e fs h,
)

-- What is found alive is the value of the entry.
pub find_key-find_entry :
    (k : Text) (clock : ℕ) (es : List Entry) (v : Bytes)
    → find_key k clock es ≡ some v
    → (e : Entry) × (find_entry k es ≡ some e) × (e.value ≡ v)
find_key-find_entry k clock es v h =
    live_value-eq-some (find_entry k es) refl (sym (find_key_lem k clock es) ∙ h)
  where
    live_value-eq-some :
        (o : Option Entry)
        → find_entry k es ≡ o
        → live_value clock o ≡ some v
        → (e : Entry) × (find_entry k es ≡ some e) × (e.value ≡ v)
    live_value-eq-some none same g = absurd (ground arith)
    live_value-eq-some (some e) same g = (e, same, ground arith)

-- The version of a team is `n`: INCR has stored it so that it does not expire, or has not been
-- called yet.
unfoldable pub HasVersion : ℤ → ℕ → List Entry → Type 0
HasVersion team_id n es =
    ((find_entry (version_key team_id) es ≡ none) × (n ≡ 0))
    ⊎ (find_entry (version_key team_id) es ≡ some (version_entry team_id n))

pub HasVersion-IsVersion :
    (team_id : ℤ) (n : ℕ) (c : CacheState) → HasVersion team_id n c.entries → IsVersion team_id n c
unfolding HasVersion IsVersion
HasVersion-IsVersion team_id n c (inl (fresh, first)) =
    inl
      (find_key_lem (version_key team_id) c.clock c.entries ∙ ap (live_value c.clock) fresh, first)
HasVersion-IsVersion team_id n c (inr stored) =
    inr (find_key_lem (version_key team_id) c.clock c.entries ∙ ap (live_value c.clock) stored)

pub format_nat_injective : (m n : ℕ) → format_int (pos m) ≡ format_int (pos n) → m ≡ n
format_nat_injective m n h = ap pos_part (format_int_injective (pos m) (pos n) h)

pub HasVersion-unique :
    (team_id : ℤ) (m n : ℕ) (es : List Entry)
    → HasVersion team_id m es
    → HasVersion team_id n es
    → m ≡ n
unfolding HasVersion
HasVersion-unique team_id m n es (inl (a, b)) (inl (c, d)) = b ∙ sym d
HasVersion-unique team_id m n es (inl (a, b)) (inr c) = absurd (ground arith)
HasVersion-unique team_id m n es (inr a) (inl (c, d)) = absurd (ground arith)
HasVersion-unique team_id m n es (inr a) (inr b) =
    let same : format_int (pos m) ≡ format_int (pos n) = ground arith in
    format_nat_injective m n same

abbrev pub page_key : ℕ → TaskFilters → Text
page_key n f = key_text f.team_id (format_int (pos n)) f

pub record IsSound (Good : TaskFilters → Bytes → Type 0) (es : List Entry) : Type 0 where
  pub versions : (team_id : ℤ) → (n : ℕ) × HasVersion team_id n es
  pub pages :
      (n : ℕ) (f : TaskFilters) (e : Entry)
      → HasVersion f.team_id n es
      → IsFilterStatus f.status
      → find_entry (page_key n f) es ≡ some e
      → Good f e.value
  pub ahead :
      (n m : ℕ) (f : TaskFilters)
      → HasVersion f.team_id n es
      → n < m
      → IsFilterStatus f.status
      → find_entry (page_key m f) es ≡ none

pub IsSound-empty : (Good : TaskFilters → Bytes → Type 0) → IsSound Good []
unfolding find_entry HasVersion
IsSound-empty Good = record {
  versions = λ team_id. (0, inl (refl, refl));
  pages = λ n f e h k found. absurd (ground arith);
  ahead = λ n m f h l k. refl;
}

-- Storing a page does not touch a version.
module _ (team_id : ℤ) (v : Text) (f : TaskFilters) (e : Entry) (es : List Entry)
    (key : e.key ≡ key_text team_id v f) where
  version_kept :
      (team_id' : ℤ)
      → find_entry (version_key team_id') (put_key e es) ≡ find_entry (version_key team_id') es
  version_kept team_id' =
      find_entry-put_key_other (version_key team_id') e es
        (λ h. key_text-ne-version_key team_id team_id' v f (sym key ∙ h))

  pub HasVersion-before :
      (team_id' : ℤ) (n : ℕ) → HasVersion team_id' n (put_key e es) → HasVersion team_id' n es
  unfolding HasVersion
  HasVersion-before team_id' n h = rw (version_kept team_id') at h

  pub HasVersion-after :
      (team_id' : ℤ) (n : ℕ) → HasVersion team_id' n es → HasVersion team_id' n (put_key e es)
  unfolding HasVersion
  HasVersion-after team_id' n h = rw (version_kept team_id') h
