-- ===== src/Store/Tasks/Elsewhere.antt =====
-- What a page of one team does not see: the rows of another.
use testovoe_bazis.Common.{
  ◌≡◌, ◌≢◌, refl, sym, ap, ◌∙◌, inl, inr, true, false, Bool-cases, List, [], ◌∷◌, ◌++◌, map, ℤ,
  int_beq, int_beq_iff, int_eq, text_eq, arith, select, All,
}
use testovoe_bazis.Domain.{Task, TaskFilters}
use testovoe_bazis.Store.Tasks.{matches, overwrite}

-- The row keeps its id and team when it is overwritten.
pub overwrite-id : (r k : Task) → (overwrite r k).id ≡ k.id
overwrite-id r k = ground arith

pub overwrite-team_id : (r k : Task) → (overwrite r k).team_id ≡ k.team_id
overwrite-team_id r k = ground arith

module _ (f : TaskFilters) where
  matches_elsewhere : (k : Task) → k.team_id ≢ f.team_id → matches f k ≡ false
  unfolding matches
  matches_elsewhere k h = elim (Bool-cases (int_beq k.team_id f.team_id)) [
    | inl same ↦ absurd (h ((int_beq_iff k.team_id f.team_id).0 same))
    | inr other ↦ rw other refl
  ]

  pub select-append_elsewhere :
      (tasks : List Task) (r : Task)
      → r.team_id ≢ f.team_id
      → select (matches f) (tasks ++ (r ∷ [])) ≡ select (matches f) tasks
  select-append_elsewhere [] r h = rw (matches_elsewhere r h) refl
  select-append_elsewhere (k ∷ tasks) r h =
      let rest = select-append_elsewhere tasks r h in
      elim (Bool-cases (matches f k)) [
        | inl shown ↦ rw (shown, rest) refl
        | inr hidden ↦ rw (hidden, rest) refl
      ]

  module _ (r : Task) (team_of : ℤ → ℤ) (placed : r.team_id ≡ team_of r.id)
      (away : r.team_id ≢ f.team_id) where
    overwrite_elsewhere :
        (k : Task) → k.team_id ≡ team_of k.id → matches f k ≡ true → overwrite r k ≡ k
    overwrite_elsewhere k h shown = elim (Bool-cases (int_beq k.id r.id)) [
      | inl same ↦
          let team : k.team_id ≡ r.team_id =
            h ∙ ap team_of ((int_beq_iff k.id r.id).0 same) ∙ sym placed in
          let hidden = matches_elsewhere k (λ e. away (sym team ∙ e)) in absurd (ground arith)
      | inr other ↦ rw other refl
    ]

    matches-overwrite_elsewhere :
        (k : Task)
        → k.team_id ≡ team_of k.id
        → matches f k ≡ false
        → matches f (overwrite r k) ≡ false
    matches-overwrite_elsewhere k h hidden = elim (Bool-cases (int_beq k.id r.id)) [
      | inl same ↦
          let team : k.team_id ≡ r.team_id =
            h ∙ ap team_of ((int_beq_iff k.id r.id).0 same) ∙ sym placed in
          matches_elsewhere (overwrite r k) (λ e. away (sym team ∙ sym (overwrite-team_id r k) ∙ e))
      | inr other ↦ rw other hidden
    ]

    pub select-overwrite_elsewhere :
        (tasks : List Task)
        → All (λ (k : Task). k.team_id ≡ team_of k.id) tasks
        → select (matches f) (map (overwrite r) tasks) ≡ select (matches f) tasks
    select-overwrite_elsewhere [] h = refl
    select-overwrite_elsewhere (k ∷ tasks) (p, h) =
        let rest = select-overwrite_elsewhere tasks h in
        elim (Bool-cases (matches f k)) [
          | inl shown ↦ rw (overwrite_elsewhere k p shown, shown, rest) refl
          | inr hidden ↦ rw (matches-overwrite_elsewhere k p hidden, hidden, rest) refl
        ]
