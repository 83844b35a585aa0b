-- ===== src/Store/Connection/Retries.antt =====
-- The retries of `NewDB`: they end, they leave nothing open that failed, and they outlast a server
-- that is slow to come up.
use testovoe_bazis.Common.{
  ℕ, zero, suc, ◌+◌, ◌≤◌, ◌<◌, ◌≡◌, refl, ap, sym, subst, wrap, plain, Bool, Bool-cases, true,
  false, Option, Option-cases, none, some, List, [], ◌∷◌, ◌++◌, map, length, arith, inl, inr, Error,
  foreign, Result, ok, err,
}
use testovoe_bazis.Store.Connection.{
  Dial, next_answer, next_done, later_answers, later_done, pinged, waited, closed, context_error,
  ping_loop, new_db,
}

-- A success leaves the connection open, an error closes it.
abbrev pub IsSettled : Bool → Result (Unit {0}) × Dial → Type 0
IsSettled was_open (ok u, d) = d.is_open ≡ was_open
IsSettled was_open (err e, d) = d.is_open ≡ false

-- The ways an attempt goes.
ping_answered :
    (n : ℕ) (last : Error) (d : Dial)
    → next_answer d.answers ≡ none
    → ping_loop (suc n) last d ≡ (ok tt, pinged d)
unfolding ping_loop
ping_answered n last d h = ground arith

ping_over :
    (n : ℕ) (last e : Error) (d : Dial)
    → next_answer d.answers ≡ some e
    → next_done d.is_done ≡ true
    → ping_loop (suc n) last d
      ≡ (err (wrap (plain "ping mysql: %w") context_error), closed (waited (pinged d)))
unfolding ping_loop
ping_over n last e d h k = ground arith

ping_again :
    (n : ℕ) (last e : Error) (d : Dial)
    → next_answer d.answers ≡ some e
    → next_done d.is_done ≡ false
    → ping_loop (suc n) last d ≡ ping_loop n e (waited (pinged d))
unfolding ping_loop
ping_again n last e d h k = ground arith

ping_loop-bound : (n : ℕ) (last : Error) (d : Dial) → (ping_loop n last d).1.pings ≤ d.pings + n
ping_loop-bound zero last d = unfold ping_loop in omega arith
ping_loop-bound (suc n) last d = elim (Option-cases (next_answer d.answers)) [
  | inl answered ↦ rw (ping_answered n last d answered) (omega arith)
  | inr (e, failed) ↦ elim (Bool-cases (next_done d.is_done)) [
    | inl over ↦ rw (ping_over n last e d failed over) (omega arith)
    | inr waiting ↦
        rw (ping_again n last e d failed waiting)
          (omega (arith, ping_loop-bound n e (waited (pinged d))))
  ]
]

ping_loop-IsSettled : (n : ℕ) (last : Error) (d : Dial) → IsSettled d.is_open (ping_loop n last d)
ping_loop-IsSettled zero last d = unfold ping_loop in refl
ping_loop-IsSettled (suc n) last d = elim (Option-cases (next_answer d.answers)) [
  | inl answered ↦ subst (IsSettled d.is_open) (sym (ping_answered n last d answered)) refl
  | inr (e, failed) ↦ elim (Bool-cases (next_done d.is_done)) [
    | inl over ↦ subst (IsSettled d.is_open) (sym (ping_over n last e d failed over)) refl
    | inr waiting ↦
        subst (IsSettled d.is_open) (sym (ping_again n last e d failed waiting))
          (ping_loop-IsSettled n e (waited (pinged d)))
  ]
]

-- `NewDB` pings the server at most ten times; then it returns an open connection, or an error and a
-- closed one.
pub new_db-ends : (d : Dial) → ((new_db d).1.pings ≤ d.pings + 10) × IsSettled true (new_db d)
unfolding new_db
new_db-ends d = (
  ping_loop-bound 10 (foreign 0) (record d { is_open = true }),
  ping_loop-IsSettled 10 (foreign 0) (record d { is_open = true }),
)

ping_loop-answers :
    (failures : List Error) (rest : List (Option Error)) (n : ℕ) (last : Error) (d : Dial)
    → length failures < n
    → d.is_done ≡ []
    → d.answers ≡ map some failures ++ (none ∷ rest)
    → ((ping_loop n last d).0 ≡ ok tt)
      × ((ping_loop n last d).1.pings ≡ d.pings + suc (length failures))
ping_loop-answers failures rest zero last d h calm e = absurd (omega (arith, h))
ping_loop-answers [] rest (suc n) last d h calm e =
    rw (ping_answered n last d (ap next_answer e)) (refl, omega arith)
ping_loop-answers (f ∷ failures) rest (suc n) last d h calm e =
    let (good, count) =
      ping_loop-answers failures rest n f (waited (pinged d)) (omega (arith, h))
        (ap later_done calm) (ap later_answers e) in
    rw (ping_again n last f d (ap next_answer e) (ap next_done calm)) (good, omega (arith, count))

-- If the context is not done and the server answers after fewer than ten failed pings, `NewDB`
-- succeeds, at the first ping that is answered.
pub new_db-answers :
    (failures : List Error) (rest : List (Option Error)) (d : Dial)
    → length failures < 10
    → d.is_done ≡ []
    → d.answers ≡ map some failures ++ (none ∷ rest)
    → ((new_db d).0 ≡ ok tt) × ((new_db d).1.pings ≡ d.pings + suc (length failures))
unfolding new_db
new_db-answers failures rest d h calm e =
    ping_loop-answers failures rest 10 (foreign 0) (record d { is_open = true }) h calm e
