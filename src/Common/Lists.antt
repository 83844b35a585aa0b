-- ===== src/Common/Lists.antt =====
-- Lists measured by native numbers, and predicates on all their members.
use Prim.Native.Nat.{ℕ, zero, suc, ◌+◌, ◌-◌, ◌≤◌}
use mathlib.Core.Path.{◌≡◌, subst}
use mathlib.Core.Logic.{inl, inr}
use mathlib.Core.Bool.{Bool, true, false, ◌||◌}
use mathlib.Core.List.{List, [], ◌∷◌, ◌++◌, map, Mem, mem-cons_self, mem-cons_of_mem}
use mathlib.Core.Option.{Option, none, some}
use native.Mathlib.Omega.{arith}
use testovoe_bazis.Common.Tests.{if◌then◌else◌, Bool-cases}

module _ {ℓ} {A : Type ℓ} where
  abbrev pub length : List A → ℕ
  length [] = 0
  length (x ∷ xs) = suc (length xs)

  abbrev pub take : ℕ → List A → List A
  take zero xs = []
  take (suc n) [] = []
  take (suc n) (x ∷ xs) = x ∷ take n xs

  abbrev pub drop : ℕ → List A → List A
  drop zero xs = xs
  drop (suc n) [] = []
  drop (suc n) (x ∷ xs) = drop n xs

  -- The first member that passes a test, and the members that pass it.
  abbrev pub find_first : (A → Bool) → List A → Option A
  find_first p [] = none
  find_first p (x ∷ xs) = if p x then some x else find_first p xs

  abbrev pub select : (A → Bool) → List A → List A
  select p [] = []
  select p (x ∷ xs) = let rest = select p xs in if p x then x ∷ rest else rest

  abbrev pub any : (A → Bool) → List A → Bool
  any p [] = false
  any p (x ∷ xs) = p x || any p xs

  -- What either search finds stands in the list, and passes the test.
  pub find_first-Mem :
      (p : A → Bool) (xs : List A) {x : A} → find_first p xs ≡ some x → Mem x xs × (p x ≡ true)
  find_first-Mem p [] e = absurd (ground arith)
  find_first-Mem p (y ∷ xs) {x} e = elim (Bool-cases (p y)) [
    | inl hit ↦
        let same : y ≡ x = ground arith in
        subst (λ z. Mem z (y ∷ xs) × (p z ≡ true)) same (mem-cons_self, hit)
    | inr miss ↦
        let (there, passed) = find_first-Mem p xs (rw miss at e) in
        (mem-cons_of_mem y there, passed)
  ]

  pub any-Mem : (p : A → Bool) (xs : List A) → any p xs ≡ true → (x : A) × Mem x xs × (p x ≡ true)
  any-Mem p [] e = absurd (ground arith)
  any-Mem p (y ∷ xs) e = elim (Bool-cases (p y)) [
    | inl hit ↦ (y, mem-cons_self, hit)
    | inr miss ↦
        let (x, there, passed) = any-Mem p xs (rw miss at e) in (x, mem-cons_of_mem y there, passed)
  ]

  pub length-append : (xs ys : List A) → length (xs ++ ys) ≡ length xs + length ys
  length-append [] ys = omega arith
  length-append (x ∷ xs) ys = omega (arith, length-append xs ys)

  pub length-take : (n : ℕ) (xs : List A) → length (take n xs) ≤ n
  length-take zero xs = omega arith
  length-take (suc n) [] = omega arith
  length-take (suc n) (x ∷ xs) = omega (arith, length-take n xs)

  pub length-drop : (n : ℕ) (xs : List A) → length (drop n xs) ≡ length xs - n
  length-drop zero xs = omega arith
  length-drop (suc n) [] = omega arith
  length-drop (suc n) (x ∷ xs) = omega (arith, length-drop n xs)

module _ {ℓ κ} {A : Type ℓ} (P : A → Type κ) where
  abbrev pub All : List A → Type κ
  All [] = Unit
  All (x ∷ xs) = P x × All xs

  pub All-append : (xs ys : List A) → All xs → All ys → All (xs ++ ys)
  All-append [] ys h k = k
  All-append (x ∷ xs) ys (p, h) k = (p, All-append xs ys h k)

  pub All-find_first :
      (p : A → Bool) (xs : List A) {x : A} → find_first p xs ≡ some x → All xs → P x
  All-find_first p [] e h = absurd (ground arith)
  All-find_first p (y ∷ xs) {x} e (q, h) = elim (Bool-cases (p y)) [
    | inl hit ↦ let same : y ≡ x = ground arith in subst P same q
    | inr miss ↦ All-find_first p xs (rw miss at e) h
  ]

  pub All-map : (f : A → A) (xs : List A) → ((x : A) → P x → P (f x)) → All xs → All (map f xs)
  All-map f [] keep h = tt
  All-map f (x ∷ xs) keep (q, h) = (keep x q, All-map f xs keep h)
