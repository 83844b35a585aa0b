-- ===== src/App/Preserving.antt =====
-- The calls of a service one after another keep what each of them keeps.
use testovoe_bazis.Common.{
  true, false, Bool, Option, none, some, Error, Result, ok, err, Action, pure, check, fail_if,
  on_error, ◌>>=◌,
}
use testovoe_bazis.App.{World}

-- What a call and the next one come to, from the outcome of the first.
abbrev pub after : {A B : Type 0} → (A → Action World B) → Result A × World → Result B × World
after f p = let (r, v) = p in elim r [ ok a ↦ f a v | err e ↦ (err e, v) ]

abbrev mapped : {A : Type 0} → (Error → Error) → Result A × World → Result A × World
mapped f p = let (r, v) = p in elim r [ ok a ↦ (ok a, v) | err e ↦ (err (f e), v) ]

module _ (P : World → Type 0) where
  -- A call that keeps a property of the world, however it ends.
  unfoldable pub Preserves : {A : Type 0} → Action World A → Type 0
  Preserves m = (w : World) → P w → P (m w).1

  after-kept :
      {A B : Type 0} (f : A → Action World B) (p : Result A × World)
      → ((a : A) → Preserves (f a))
      → P p.1
      → P (after f p).1
  unfolding Preserves
  after-kept f (ok a, v) h c = h a v c
  after-kept f (err e, v) h c = c

  mapped-kept : {A : Type 0} (f : Error → Error) (p : Result A × World) → P p.1 → P (mapped f p).1
  mapped-kept f (ok a, v) c = c
  mapped-kept f (err e, v) c = c

  pub Preserves->>= :
      {A B : Type 0} (m : Action World A) (f : A → Action World B)
      → Preserves m
      → ((a : A) → Preserves (f a))
      → Preserves (m >>= f)
  unfolding Preserves
  Preserves->>= m f g h w c = after-kept f (m w) h (g w c)

  pub Preserves-on_error :
      {A : Type 0} (m : Action World A) (f : Error → Error) → Preserves m → Preserves (on_error m f)
  unfolding Preserves
  Preserves-on_error m f g w c = mapped-kept f (m w) (g w c)

  pub Preserves-pure : {A : Type 0} (a : A) → Preserves (pure a)
  unfolding Preserves
  Preserves-pure a w c = c

  pub Preserves-check : (o : Option Error) → Preserves (check o)
  unfolding Preserves
  Preserves-check none w c = c
  Preserves-check (some e) w c = c

  pub Preserves-fail_if : (b : Bool) (e : Error) → Preserves (fail_if b e)
  unfolding Preserves
  Preserves-fail_if true e w c = c
  Preserves-fail_if false e w c = c
