-- ===== src/Common/Errors.antt =====
-- Go's `error` values, and calls that keep a state and may fail. The state comes back after an
-- error too, since what was done stays done.
use Prim.Native.Nat.{ℕ}
use Prim.Native.String.{String}
use mathlib.Core.Path.{◌≡◌, refl, ap}
use mathlib.Core.Logic.{◌⊎◌, inl, inr}
use mathlib.Core.Bool.{Bool, true, false}
use mathlib.Core.Option.{Option, none, some}
use native.Mathlib.Omega.{arith}
use testovoe_bazis.Common.Texts.{Text}

-- The sentinel errors of the domain (internal/domain/errors.go) and of database/sql.
pub data Sentinel : Type 0 where
  not_found unauthorized forbidden validation conflict no_rows : Sentinel

-- What `fmt.Errorf` is given beside the wrapped error: the format, and the text or number that it
-- shows. The rendering is left to `fmt`.
pub data Message : Type 0 where
  plain : String → Message
  shows_text : String → Text → Message
  shows_number : String → ℕ → Message

pub data Error : Type 0 where
  sentinel : Sentinel → Error
  mysql : ℕ → Error
  foreign : ℕ → Error
  wrap : Message → Error → Error

abbrev pub same_sentinel : Sentinel → Sentinel → Bool
same_sentinel not_found not_found = true
same_sentinel unauthorized unauthorized = true
same_sentinel forbidden forbidden = true
same_sentinel validation validation = true
same_sentinel conflict conflict = true
same_sentinel no_rows no_rows = true
same_sentinel _ _ = false

-- `errors.Is(err, target)`
abbrev pub error_is : Error → Sentinel → Bool
error_is (sentinel s) t = same_sentinel s t
error_is (mysql _) t = false
error_is (foreign _) t = false
error_is (wrap _ e) t = error_is e t

-- `errors.As(err, &mysqlErr)`: the number of the first MySQL error in the chain.
abbrev pub mysql_number : Error → Option ℕ
mysql_number (sentinel _) = none
mysql_number (mysql n) = some n
mysql_number (foreign _) = none
mysql_number (wrap _ e) = mysql_number e

-- `fmt.Errorf("%w: ...", domain.ErrValidation)` and the like.
abbrev pub invalid : Message → Error
invalid m = wrap m (sentinel validation)

pub data Result (A : Type 0) : Type 0 where
  ok : A → Result A
  err : Error → Result A

abbrev pub Action : Type 0 → Type 0 → Type 0
Action W A = W → Result A × W

module _ {W A : Type 0} where
  abbrev pub pure : A → Action W A
  pure a w = (ok a, w)

  abbrev pub fail : Error → Action W A
  fail e w = (err e, w)

  abbrev pub gets : (W → A) → Action W A
  gets f w = (ok (f w), w)

  -- `if err != nil { return ..., f(err) }`
  abbrev pub on_error : Action W A → (Error → Error) → Action W A
  on_error m f w = let (r, w') = m w in elim r [ ok a ↦ (ok a, w') | err e ↦ (err (f e), w') ]

infixl 5 ◌>>=◌ ◌>>◌
abbrev pub ◌>>=◌ : {W A B : Type 0} → Action W A → (A → Action W B) → Action W B
◌>>=◌ m f w = let (r, w') = m w in elim r [ ok a ↦ f a w' | err e ↦ (err e, w') ]

abbrev pub ◌>>◌ : {W A B : Type 0} → Action W A → Action W B → Action W B
m >> k = m >>= λ _. k

module _ {W : Type 0} where
  abbrev pub modify : (W → W) → Action W (Unit {0})
  modify f w = (ok tt, f w)

  -- A guard: `if test { return ..., e }`.
  abbrev pub fail_if : Bool → Error → Action W (Unit {0})
  fail_if true e = fail e
  fail_if false e = pure tt

  -- A check that returns an `error`.
  abbrev pub check : Option Error → Action W (Unit {0})
  check none = pure tt
  check (some e) = fail e

pub Result-cases :
    {A : Type 0} (r : Result A) → ((a : A) × (r ≡ ok a)) ⊎ ((e : Error) × (r ≡ err e))
Result-cases (ok a) = inl (a, refl)
Result-cases (err e) = inr (e, refl)

pub outcome-cases :
    {W A : Type 0} (p : Result A × W)
    → ((a : A) × (v : W) × (p ≡ (ok a, v))) ⊎ ((e : Error) × (v : W) × (p ≡ (err e, v)))
outcome-cases (ok a, v) = inl (a, v, refl)
outcome-cases (err e, v) = inr (e, v, refl)

-- What a successful chain says of its parts: the first action succeeded, and so did the rest from
-- where it ended.
pub >>=-eq-ok :
    {W A B : Type 0} (m : Action W A) (f : A → Action W B) (w : W) {b : B} {w' : W}
    → (m >>= f) w ≡ (ok b, w')
    → (a : A) × (v : W) × (m w ≡ (ok a, v)) × (f a v ≡ (ok b, w'))
>>=-eq-ok m f w h = elim (outcome-cases (m w)) [
  | inl (a, v, done) ↦ (a, v, done, ground arith)
  | inr (e, v, failed) ↦ absurd (ground arith)
]

-- The same for a handler of errors, and for the guards.
pub on_error-eq-ok :
    {W A : Type 0} (m : Action W A) (f : Error → Error) (w : W) {a : A} {w' : W}
    → on_error m f w ≡ (ok a, w')
    → m w ≡ (ok a, w')
on_error-eq-ok m f w h = elim (outcome-cases (m w)) [
  | inl (a, v, done) ↦ ground arith
  | inr (e, v, failed) ↦ absurd (ground arith)
]

pub check-eq-ok :
    {W : Type 0} (o : Option Error) (w : W) {u : Unit {0}} {w' : W}
    → check o w ≡ (ok u, w')
    → (o ≡ none) × (w ≡ w')
check-eq-ok none w h = (refl, ap (λ p. p.1) h)
check-eq-ok (some e) w h = absurd (ground arith)

pub fail_if-eq-ok :
    {W : Type 0} (b : Bool) (e : Error) (w : W) {u : Unit {0}} {w' : W}
    → fail_if b e w ≡ (ok u, w')
    → (b ≡ false) × (w ≡ w')
fail_if-eq-ok true e w h = absurd (ground arith)
fail_if-eq-ok false e w h = (refl, ap (λ p. p.1) h)
