-- ===== src/Store/Cache/Keeping.antt =====
-- Storing a good page keeps the cache sound, and so does raising a version, after which the pages
-- of that team may be good in another sense.
use testovoe_bazis.Common.{
  ℕ, suc, ◌<◌, ◌≡◌, ◌≢◌, ◌⊎◌, sym, ap, subst, ◌∙◌, inl, inr, Bool-cases, Option, none, some, List,
  ℤ, pos, int_beq, int_beq_iff, arith, Text, text_beq, text_beq_iff, format_int,
}
use testovoe_bazis.Domain.{TaskFilters}
use testovoe_bazis.Service.Gateways.{Bytes}
use testovoe_bazis.Store.Cache.{Entry, put_key, version_key}
use testovoe_bazis.Store.Cache.Keys.{
  IsFilterStatus, SamePage, format_int-NoColon, key_text-parts, version_key_injective,
  key_text-ne-version_key,
}
use testovoe_bazis.Store.Cache.Versions.{version_entry}
use testovoe_bazis.Store.Cache.Soundness.{
  find_entry, find_entry-put_key, find_entry-put_key_other, format_nat_injective, HasVersion,
  HasVersion-unique, HasVersion-before, HasVersion-after, IsSound, page_key,
}

text-cases : (s t : Text) → (s ≡ t) ⊎ (s ≢ t)
text-cases s t = elim (Bool-cases (text_beq s t)) [
  | inl same ↦ inl ((text_beq_iff s t).0 same)
  | inr other ↦ inr (λ h. absurd (ground (arith, (text_beq_iff s t).1 h)))
]

int-cases : (a b : ℤ) → (a ≡ b) ⊎ (a ≢ b)
int-cases a b = elim (Bool-cases (int_beq a b)) [
  | inl same ↦ inl ((int_beq_iff a b).0 same)
  | inr other ↦ inr (λ h. absurd (ground (arith, (int_beq_iff a b).1 h)))
]

-- Two page keys, taken apart.
page_key-parts :
    (n m : ℕ) (f g : TaskFilters)
    → IsFilterStatus f.status
    → IsFilterStatus g.status
    → page_key n f ≡ page_key m g
    → (f.team_id ≡ g.team_id) × (n ≡ m) × SamePage f g
page_key-parts n m f g h k e =
    let (team, version, same) =
      key_text-parts f.team_id g.team_id (format_int (pos n)) (format_int (pos m)) f g
        (format_int-NoColon (pos n)) (format_int-NoColon (pos m)) h k e in
    (team, format_nat_injective n m version, same)

module _ (Good : TaskFilters → Bytes → Type 0) where
  -- What is good for a page is good for the same page.
  unfoldable pub RespectsPages : Type 0
  RespectsPages =
      (f g : TaskFilters) (v : Bytes) → f.team_id ≡ g.team_id → SamePage f g → Good f v → Good g v

  module _ (es : List Entry) (sound : IsSound Good es) (f : TaskFilters) (n : ℕ) (e : Entry)
      (key : e.key ≡ page_key n f) (known : IsFilterStatus f.status)
      (current : HasVersion f.team_id n es) where
    set-pages :
        RespectsPages
        → Good f e.value
        → (m : ℕ) (g : TaskFilters) (d : Entry) → HasVersion g.team_id m (put_key e es)
        → IsFilterStatus g.status
        → find_entry (page_key m g) (put_key e es) ≡ some d
        → Good g d.value
    unfolding RespectsPages
    set-pages respects good m g d version status found = elim (text-cases e.key (page_key m g)) [
      | inl same ↦
          let (team, numbers, page) = page_key-parts n m f g known status (sym key ∙ same) in
          let stored : Path (Option Entry) (some e) (some d) =
            sym (find_entry-put_key e es) ∙ ap (λ k. find_entry k (put_key e es)) same ∙ found in
          let value : e.value ≡ d.value = ground arith in
          subst (Good g) value (respects f g e.value team page good)
      | inr other ↦
          sound.pages m g d
            (HasVersion-before f.team_id (format_int (pos n)) f e es key g.team_id m version) status
            (sym (find_entry-put_key_other (page_key m g) e es other) ∙ found)
    ]

    set-ahead :
        (m l : ℕ) (g : TaskFilters)
        → HasVersion g.team_id m (put_key e es)
        → m < l
        → IsFilterStatus g.status
        → find_entry (page_key l g) (put_key e es) ≡ none
    set-ahead m l g version later status =
        let before =
          HasVersion-before f.team_id (format_int (pos n)) f e es key g.team_id m version in
        elim (text-cases e.key (page_key l g)) [
          | inl same ↦
              let (team, numbers, page) = page_key-parts n l f g known status (sym key ∙ same) in
              let now = subst (λ t. HasVersion t n es) team current in
              absurd (omega (arith, later, numbers, HasVersion-unique g.team_id m n es before now))
          | inr other ↦
              find_entry-put_key_other (page_key l g) e es other
              ∙ sound.ahead m l g before later status
        ]

    pub set-IsSound : RespectsPages → Good f e.value → IsSound Good (put_key e es)
    set-IsSound respects good = record {
      versions = λ team_id.
          let (m, version) = sound.versions team_id in
          (m, HasVersion-after f.team_id (format_int (pos n)) f e es key team_id m version);
      pages = set-pages respects good;
      ahead = set-ahead;
    }

module _ (Good Later : TaskFilters → Bytes → Type 0) (es : List Entry) (sound : IsSound Good es)
    (team_id : ℤ) (n : ℕ) (current : HasVersion team_id n es)
    (elsewhere : (f : TaskFilters) (v : Bytes) → f.team_id ≢ team_id → Good f v → Later f v) where
  abbrev raised : List Entry
  raised = put_key (version_entry team_id (suc n)) es

  page_kept :
      (m : ℕ) (f : TaskFilters) → find_entry (page_key m f) raised ≡ find_entry (page_key m f) es
  page_kept m f =
      find_entry-put_key_other (page_key m f) (version_entry team_id (suc n)) es
        (λ h. key_text-ne-version_key f.team_id team_id (format_int (pos m)) f (sym h))

  version_raised : HasVersion team_id (suc n) raised
  unfolding HasVersion
  version_raised = inr (find_entry-put_key (version_entry team_id (suc n)) es)

  version_kept_elsewhere :
      (other : ℤ)
      → other ≢ team_id
      → find_entry (version_key other) raised ≡ find_entry (version_key other) es
  version_kept_elsewhere other h =
      find_entry-put_key_other (version_key other) (version_entry team_id (suc n)) es
        (λ k. h (version_key_injective other team_id (sym k)))

  raise-versions : (other : ℤ) → (m : ℕ) × HasVersion other m raised
  unfolding HasVersion
  raise-versions other = elim (int-cases other team_id) [
    | inl same ↦ (suc n, subst (λ t. HasVersion t (suc n) raised) (sym same) version_raised)
    | inr differ ↦
        let (m, version) = sound.versions other in
        (m, rw (version_kept_elsewhere other differ) version)
  ]

  elsewhere_before :
      (other : ℤ) (m : ℕ) → other ≢ team_id → HasVersion other m raised → HasVersion other m es
  unfolding HasVersion
  elsewhere_before other m h version = rw (version_kept_elsewhere other h) at version

  raised_number : (other : ℤ) (m : ℕ) → other ≡ team_id → HasVersion other m raised → m ≡ suc n
  raised_number other m same version =
      HasVersion-unique team_id m (suc n) raised (subst (λ t. HasVersion t m raised) same version)
        version_raised

  raise-pages :
      (m : ℕ) (f : TaskFilters) (e : Entry)
      → HasVersion f.team_id m raised
      → IsFilterStatus f.status
      → find_entry (page_key m f) raised ≡ some e
      → Later f e.value
  raise-pages m f e version status found = elim (int-cases f.team_id team_id) [
    | inl same ↦
        let number = raised_number f.team_id m same version in
        let gone =
          sound.ahead n m f (subst (λ t. HasVersion t n es) (sym same) current)
            (omega (arith, number)) status in
        let kept = page_kept m f in absurd (ground arith)
    | inr differ ↦ elsewhere f e.value differ (
        sound.pages m f e (elsewhere_before f.team_id m differ version) status
          (sym (page_kept m f) ∙ found))
  ]

  raise-ahead :
      (m l : ℕ) (f : TaskFilters)
      → HasVersion f.team_id m raised
      → m < l
      → IsFilterStatus f.status
      → find_entry (page_key l f) raised ≡ none
  raise-ahead m l f version later status = elim (int-cases f.team_id team_id) [
    | inl same ↦
        let number = raised_number f.team_id m same version in
        page_kept l f
        ∙ sound.ahead n l f (subst (λ t. HasVersion t n es) (sym same) current)
            (omega (arith, number, later)) status
    | inr differ ↦
        page_kept l f ∙ sound.ahead m l f (elsewhere_before f.team_id m differ version) later status
  ]

  pub raise-IsSound : IsSound Later raised
  raise-IsSound = record { versions = raise-versions; pages = raise-pages; ahead = raise-ahead }
