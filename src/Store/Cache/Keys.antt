-- ===== src/Store/Cache/Keys.antt =====
-- The keys of the cache: different pages have different keys, and none is the key of a version.
use mathlib.Core.List.{append_cancel_left}
use testovoe_bazis.Common.{
  ◌≡◌, ◌≢◌, ◌⊎◌, refl, sym, ap, subst, inl, inr, Bool-cases, Option, none, some, [], ◌∷◌, ◌++◌, ℤ,
  pos, negsuc, arith, Text, text_eq, text_beq, text_beq_iff, codes, length, length-append, ◌==◌,
  if◌then◌else◌, format_int, format_int_injective, AreDigits, format_int_pos-IsDecimal,
  format_int_negsuc-IsDecimal,
}
use testovoe_bazis.Domain.{
  TaskFilters, TaskStatus, status_valid, status_todo, status_in_progress, status_done, validate,
}
use testovoe_bazis.Store.Cache.{version_key, key_text, key_assignee}

-- No character is the colon that stands between the parts of a key.
abbrev pub NoColon : Text → Type 0
NoColon [] = Unit
NoColon (c ∷ s) = (c ≢ b':') × NoColon s

-- What stands before the first colon, and behind it.
pub first_part :
    (s s' r r' : Text)
    → NoColon s
    → NoColon s'
    → s ++ (b':' ∷ r) ≡ s' ++ (b':' ∷ r')
    → (s ≡ s') × (r ≡ r')
first_part [] [] r r' h h' e = (refl, ground arith)
first_part [] (c ∷ s') r r' h h' e = absurd (ground arith)
first_part (c ∷ s) [] r r' h h' e = absurd (ground arith)
first_part (c ∷ s) (d ∷ s') r r' h h' e =
    let (same, rest) = first_part s s' r r' h.1 h'.1 (ground arith) in (ground arith, rest)

AreDigits-NoColon : (s : Text) → AreDigits s → NoColon s
AreDigits-NoColon [] h = tt
AreDigits-NoColon (c ∷ s) (low, high, h) = (ground arith, AreDigits-NoColon s h)

pub format_int-NoColon : (v : ℤ) → NoColon (format_int v)
format_int-NoColon (pos n) = AreDigits-NoColon _ (format_int_pos-IsDecimal n).are_digits
format_int-NoColon (negsuc n) =
    let (s, printed, d) = format_int_negsuc-IsDecimal n in
    rw printed (ground arith, AreDigits-NoColon s d.are_digits)

-- The first character of a number, which `none` does not have.
format_int-ne-none : (v : ℤ) → format_int v ≢ codes "none"
format_int-ne-none (pos n) e =
    let (low, high, rest) = subst AreDigits e (format_int_pos-IsDecimal n).are_digits in
    absurd (omega (arith, high))
format_int-ne-none (negsuc n) e =
    let (s, printed, d) = format_int_negsuc-IsDecimal n in absurd (ground arith)

key_assignee-NoColon : (o : Option ℤ) → NoColon (key_assignee o)
key_assignee-NoColon none = ground arith
key_assignee-NoColon (some v) = format_int-NoColon v

key_assignee_injective : (o o' : Option ℤ) → key_assignee o ≡ key_assignee o' → o ≡ o'
key_assignee_injective none none e = refl
key_assignee_injective none (some v) e = absurd (format_int-ne-none v (sym e))
key_assignee_injective (some v) none e = absurd (format_int-ne-none v e)
key_assignee_injective (some v) (some v') e = ap some (format_int_injective v v' e)

-- A status that a valid filter may have.
abbrev pub IsFilterStatus : TaskStatus → Type 0
IsFilterStatus s = (s ≡ []) ⊎ (s ≡ status_todo) ⊎ (s ≡ status_in_progress) ⊎ (s ≡ status_done)

pub validate-IsFilterStatus : (f : TaskFilters) → validate f ≡ none → IsFilterStatus f.status
unfolding validate status_valid
validate-IsFilterStatus f h = ground (
  arith,
  text_beq_iff f.status [],
  text_beq_iff f.status status_todo,
  text_beq_iff f.status status_in_progress,
  text_beq_iff f.status status_done,
)

abbrev status_text : TaskStatus → Text
status_text s = if s == [] then codes "all" else s

status_text-NoColon : (s : TaskStatus) → IsFilterStatus s → NoColon (status_text s)
unfolding text_beq
status_text-NoColon s (inl e) = subst (λ x. NoColon (status_text x)) (sym e) (ground arith)
status_text-NoColon s (inr (inl e)) = subst (λ x. NoColon (status_text x)) (sym e) (ground arith)
status_text-NoColon s (inr (inr (inl e))) =
    subst (λ x. NoColon (status_text x)) (sym e) (ground arith)
status_text-NoColon s (inr (inr (inr e))) =
    subst (λ x. NoColon (status_text x)) (sym e) (ground arith)

status-ne-all : (s : TaskStatus) → IsFilterStatus s → s ≢ codes "all"
status-ne-all s h e = ground arith

status_text_injective :
    (s s' : TaskStatus)
    → IsFilterStatus s
    → IsFilterStatus s'
    → status_text s ≡ status_text s'
    → s ≡ s'
status_text_injective s s' h h' e = elim (Bool-cases (text_beq s [])) [
  | inl empty ↦ elim (Bool-cases (text_beq s' [])) [
    | inl empty' ↦ ground (arith, text_beq_iff s [], text_beq_iff s' [])
    | inr full' ↦ absurd (status-ne-all s' h' (ground arith))
  ]
  | inr full ↦ elim (Bool-cases (text_beq s' [])) [
    | inl empty' ↦ absurd (status-ne-all s h (ground arith))
    | inr full' ↦ ground arith
  ]
]

-- Which page a key is of.
pub record SamePage (f f' : TaskFilters) : Type 0 where
  pub status : f.status ≡ f'.status
  pub assignee : f.assignee_id ≡ f'.assignee_id
  pub page : f.page ≡ f'.page
  pub size : f.per_page ≡ f'.per_page

module _ (team_id team_id' : ℤ) (v v' : Text) (f f' : TaskFilters) (plain : NoColon v)
    (plain' : NoColon v') (known : IsFilterStatus f.status)
    (known' : IsFilterStatus f'.status) where
  -- Two keys of pages are the same only if they are of one team, one version, and the same filters,
  -- page and size.
  pub key_text-parts :
      key_text team_id v f ≡ key_text team_id' v' f'
      → (team_id ≡ team_id') × (v ≡ v') × SamePage f f'
  unfolding key_text
  key_text-parts e =
      let (teams, e1) =
        first_part (format_int team_id) (format_int team_id') _ _ (format_int-NoColon team_id)
          (format_int-NoColon team_id') (append_cancel_left (codes "teams:") _ _ e) in
      let (versions, e2) =
        first_part v v' _ _ plain plain' (append_cancel_left (codes "tasks:v") _ _ e1) in
      let (statuses, e3) =
        first_part (status_text f.status) (status_text f'.status) _ _
          (status_text-NoColon f.status known) (status_text-NoColon f'.status known')
          (append_cancel_left (codes "status:") _ _ e2) in
      let (assignees, e4) =
        first_part (key_assignee f.assignee_id) (key_assignee f'.assignee_id) _ _
          (key_assignee-NoColon f.assignee_id) (key_assignee-NoColon f'.assignee_id)
          (append_cancel_left (codes "assignee:") _ _ e3) in
      let (pages, e5) =
        first_part (format_int f.page) (format_int f'.page) _ _ (format_int-NoColon f.page)
          (format_int-NoColon f'.page) (append_cancel_left (codes "page:") _ _ e4) in
      let sizes = append_cancel_left (codes "size:") _ _ e5 in
      (
        format_int_injective team_id team_id' teams,
        versions,
        record {
          status = status_text_injective f.status f'.status known known' statuses;
          assignee = key_assignee_injective f.assignee_id f'.assignee_id assignees;
          page = format_int_injective f.page f'.page pages;
          size = format_int_injective f.per_page f'.per_page sizes;
        },
      )

pub version_key_injective :
    (team_id team_id' : ℤ) → version_key team_id ≡ version_key team_id' → team_id ≡ team_id'
unfolding version_key
version_key_injective team_id team_id' e =
    format_int_injective team_id team_id'
      (first_part (format_int team_id) (format_int team_id') (codes "tasks:version")
        (codes "tasks:version") (format_int-NoColon team_id) (format_int-NoColon team_id')
        (append_cancel_left (codes "teams:") _ _ e)).0

-- The key of a page is never that of a version, of whichever team: behind what they share, the
-- first has at least the eight characters of `:status:` and the second has six.
pub key_text-ne-version_key :
    (team_id team_id' : ℤ) (v : Text) (f : TaskFilters)
    → key_text team_id v f ≢ version_key team_id'
unfolding key_text version_key
key_text-ne-version_key team_id team_id' v f e =
    let (teams, rest) =
      first_part (format_int team_id) (format_int team_id') _ (codes "tasks:version")
        (format_int-NoColon team_id) (format_int-NoColon team_id')
        (append_cancel_left (codes "teams:") _ _ e) in
    let tail = append_cancel_left (codes "tasks:v") _ (codes "ersion") rest in
    omega (arith, ap length tail, length-append v _)
