-- ===== src/Store/Connection.antt =====
-- internal/store/mysql/db.go and migrate.go: connecting to the server, with retries, and the
-- parameter that migrations want in the address.
pub mod Retries
use testovoe_bazis.Common.{
  ℕ, zero, suc, ◌+◌, ◌≤◌, ◌≡◌, ◌⊎◌, refl, inl, inr, Bool, true, false, Option, none, some, List, [],
  ◌∷◌, ◌++◌, any, Text, codes, nat_eq, ◌==◌, arith, if◌then◌else◌, Error, Result, ok, err, foreign,
  wrap, plain, shows_number,
}

-- The server as `NewDB` meets it: what becomes of the next pings, and whether the context is done
-- after each; when a list is used up, pings succeed and the context goes on.
pub record Dial : Type 0 where
  pub answers : List (Option Error)
  pub is_done : List Bool
  pub pings : ℕ
  pub is_open : Bool

abbrev next_answer : List (Option Error) → Option Error
next_answer [] = none
next_answer (a ∷ _) = a

abbrev later_answers : List (Option Error) → List (Option Error)
later_answers [] = []
later_answers (_ ∷ rest) = rest

abbrev next_done : List Bool → Bool
next_done [] = false
next_done (b ∷ _) = b

abbrev later_done : List Bool → List Bool
later_done [] = []
later_done (_ ∷ rest) = rest

abbrev pinged : Dial → Dial
pinged d = record d { answers = later_answers d.answers; pings = suc d.pings }

abbrev waited : Dial → Dial
waited d = record d { is_done = later_done d.is_done }

abbrev closed : Dial → Dial
closed d = record d { is_open = false }

abbrev pub ping_attempts : ℕ
ping_attempts = 10

abbrev pub context_error : Error
context_error = foreign 3

-- The loop over the attempts; `last` is the error of the ping before.
unfoldable pub ping_loop : ℕ → Error → Dial → Result (Unit {0}) × Dial
ping_loop zero last d =
    (err (wrap (shows_number "ping mysql after %d attempts" ping_attempts) last), closed d)
ping_loop (suc n) last d = elim (next_answer d.answers) [
  | none ↦ (ok tt, pinged d)
  | some e ↦ elim (next_done d.is_done) [
    | true ↦ (err (wrap (plain "ping mysql: %w") context_error), closed (waited (pinged d)))
    | false ↦ ping_loop n e (waited (pinged d))
  ]
]

-- `NewDB` from the opened pool.
unfoldable pub new_db : Dial → Result (Unit {0}) × Dial
new_db d = ping_loop ping_attempts (foreign 0) (record d { is_open = true })

-- `withMultiStatements`
unfoldable pub with_multi_statements : Text → Text
with_multi_statements dsn =
    if any (λ c. c == b'?') dsn
    then dsn ++ codes "&multiStatements=true"
    else dsn ++ codes "?multiStatements=true"
