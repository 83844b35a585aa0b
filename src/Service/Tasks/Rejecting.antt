-- ===== src/Service/Tasks/Rejecting.antt =====
-- `TaskService.Create` and `TaskService.Update` of internal/service/task_service.go, on a request that
-- is badly formed.
use testovoe_bazis.Common.{
  ◌≡◌, codes, ◌≢◌, ◌≤◌, ◌⊎◌, refl, inl, inr, true, false, Option, none, some, [], String, ℤ, arith,
  Text, text_eq, text_beq_iff, length, trim_space, ap, ◌∙◌, Result, invalid, plain, Bool-cases,
  Option-cases, Error, error_is, validation, ok, err, ◌==◌, outcome-cases,
}
use testovoe_bazis.Domain.{TaskStatus, TaskPatch, patch_empty}
use testovoe_bazis.Service.Tasks.{
  TaskService, CreateTaskInput, title_error, status_error, initial_status, create, update,
  trimmed_title, patch_status_error,
}
use testovoe_bazis.Service.Tasks.Checks.{title_error-IsTitle, status_error-IsStatus}

-- A title that is empty once trimmed, or longer than 200 characters.
abbrev pub IsBadTitle : Text → Type 0
IsBadTitle s = (trim_space s ≡ []) ⊎ (201 ≤ length (trim_space s))

abbrev pub IsBadTitle? : Option Text → Type 0
IsBadTitle? none = ⊥
IsBadTitle? (some s) = IsBadTitle s

-- A status that is none of the three.
abbrev pub IsBadStatus : TaskStatus → Type 0
IsBadStatus s = (s ≢ codes "todo") × (s ≢ codes "in_progress") × (s ≢ codes "done")

abbrev pub IsBadStatus? : Option TaskStatus → Type 0
IsBadStatus? none = ⊥
IsBadStatus? (some s) = IsBadStatus s

-- A patch that sets nothing.
abbrev pub SetsNothing : TaskPatch → Type 0
SetsNothing p =
    (p.title ≡ none) × (p.description ≡ none) × (p.status ≡ none) × (p.assignee.is_set ≡ false)

-- An answer with `ErrValidation`, from a state that is as it was.
abbrev pub IsInvalid : {W A : Type 0} → W → Result A × W → Type 0
IsInvalid {W} {A} w r = (e : Error) × (r ≡ (err e, w)) × (error_is e validation ≡ true)

title_error-validation :
    (missing : String) (s : Text) (e : Error)
    → title_error missing s ≡ some e
    → error_is e validation ≡ true
unfolding title_error
title_error-validation missing s e h = ground arith

status_error-validation :
    (s : TaskStatus) (e : Error) → status_error s ≡ some e → error_is e validation ≡ true
unfolding status_error
status_error-validation s e h = ground arith

title-ne-bad :
    (missing : String) (s : Text) → title_error missing (trim_space s) ≡ none → IsBadTitle s → ⊥
title-ne-bad missing s h bad =
    let t = title_error-IsTitle missing s h in
    elim bad [ inl empty ↦ t.nonempty empty | inr long ↦ absurd (omega (arith, t.short, long)) ]

status-ne-bad : (s : TaskStatus) → status_error s ≡ none → IsBadStatus s → ⊥
status-ne-bad s h (a, b, c) = elim (status_error-IsStatus s h) [
  | inl e ↦ a e
  | inr (inl e) ↦ b e
  | inr (inr e) ↦ c e
]

initial_status-ne-bad :
    (s : TaskStatus) → status_error (initial_status s) ≡ none → (s ≢ []) × IsBadStatus s → ⊥
unfolding initial_status
initial_status-ne-bad s h (named, bad) = elim (Bool-cases (s == [])) [
  | inl empty ↦ named ((text_beq_iff s []).0 empty)
  | inr filled ↦ status-ne-bad s (rw filled at h) bad
]

SetsNothing-ne-full : (p : TaskPatch) → SetsNothing p → patch_empty p ≡ false → ⊥
unfolding patch_empty
SetsNothing-ne-full p (a, b, c, d) h = absurd (ground arith)

module _ {W : Type 0} (s : TaskService W) (actor_id : ℤ) where
  -- `Create` answers `ErrValidation` and leaves everything as it was if the title is empty once
  -- trimmed or longer than 200 characters, or if a status is given that is none of the three.
  pub create_bad_request :
      (input : CreateTaskInput) (w : W)
      → IsBadTitle input.title ⊎ ((input.status ≢ []) × IsBadStatus input.status)
      → IsInvalid w (create s actor_id input w)
  unfolding create
  create_bad_request input w bad =
      elim (Option-cases (title_error "title is required" (trim_space input.title))) [
        | inl titled ↦ elim (Option-cases (status_error (initial_status input.status))) [
          | inl known ↦ elim bad [
            | inl b ↦ absurd (title-ne-bad "title is required" input.title titled b)
            | inr b ↦ absurd (initial_status-ne-bad input.status known b)
          ]
          | inr (e, unknown) ↦
              (e, ground arith, status_error-validation (initial_status input.status) e unknown)
        ]
        | inr (e, untitled) ↦
            (e, ground arith, title_error-validation "title is required" _ e untitled)
      ]

  patch_status-ne-bad :
      (status : Option TaskStatus) → patch_status_error s status ≡ none → IsBadStatus? status → ⊥
  patch_status-ne-bad none h bad = bad
  patch_status-ne-bad (some status) h bad = status-ne-bad status h bad

  patch_status-validation :
      (status : Option TaskStatus) (e : Error)
      → patch_status_error s status ≡ some e
      → error_is e validation ≡ true
  patch_status-validation none e h = cc
  patch_status-validation (some status) e h = status_error-validation status e h

  trimmed_title-ne-bad :
      (title : Option Text) (w : W) {r : Option Text} {w' : W}
      → trimmed_title s title w ≡ (ok r, w')
      → IsBadTitle? title
      → ⊥
  trimmed_title-ne-bad none w h bad = bad
  trimmed_title-ne-bad (some title) w h bad =
      elim (Option-cases (title_error "title cannot be empty" (trim_space title))) [
        | inl fine ↦ title-ne-bad "title cannot be empty" title fine bad
        | inr (e, wrong) ↦ absurd (ground arith)
      ]

  trimmed_title-IsInvalid :
      (title : Option Text) (w : W) {e : Error} {w' : W}
      → trimmed_title s title w ≡ (err e, w')
      → (w' ≡ w) × (error_is e validation ≡ true)
  trimmed_title-IsInvalid none w h = absurd (ground arith)
  trimmed_title-IsInvalid (some title) w {e} h =
      elim (Option-cases (title_error "title cannot be empty" (trim_space title))) [
        | inl fine ↦ absurd (ground arith)
        | inr (f, wrong) ↦
            let same : f ≡ e = ground arith in
            (
              ground arith,
              title_error-validation "title cannot be empty" (trim_space title) e
                  (wrong ∙ ap (λ g. some g) same),
            )
      ]

  -- `Update` answers `ErrValidation` and leaves everything as it was if the patch sets nothing, or
  -- a title that is empty once trimmed or longer than 200 characters, or a status that is none of
  -- the three.
  pub update_bad_request :
      (task_id : ℤ) (given : TaskPatch) (w : W)
      → SetsNothing given ⊎ IsBadTitle? given.title ⊎ IsBadStatus? given.status
      → IsInvalid w (update s actor_id task_id given w)
  unfolding update
  update_bad_request task_id given w bad = elim (Bool-cases (patch_empty given)) [
    | inl empty ↦ (invalid (plain "at least one field must be provided"), ground arith, refl)
    | inr something ↦ elim (Option-cases (patch_status_error s given.status)) [
      | inl known ↦ elim (outcome-cases (trimmed_title s given.title w)) [
        | inl (title, v, done) ↦ elim bad [
          | inl nothing ↦ absurd (SetsNothing-ne-full given nothing something)
          | inr (inl b) ↦ absurd (trimmed_title-ne-bad given.title w done b)
          | inr (inr b) ↦ absurd (patch_status-ne-bad given.status known b)
        ]
        | inr (e, v, failed) ↦
            let (same, kind) = trimmed_title-IsInvalid given.title w failed in
            (e, ground arith, kind)
      ]
      | inr (e, unknown) ↦ (e, ground arith, patch_status-validation given.status e unknown)
    ]
  ]
