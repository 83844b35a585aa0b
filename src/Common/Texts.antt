-- ===== src/Common/Texts.antt =====
-- Go strings that hold valid UTF-8, as lists of code points, with the functions of the packages
-- `strings`, `unicode` and `utf8` that the program calls.
use Prim.Native.Nat.{ℕ, ◌+◌}
use Prim.Native.Char.{code}
use Prim.Native.String.{String}
use mathlib.Core.Path.{◌≡◌, refl, ◌∙◌, ap}
use mathlib.Core.Logic.{◌↔◌, inl, inr}
use mathlib.Core.Bool.{Bool, true, false, ◌&&◌, ◌||◌}
use mathlib.Core.List.{List, [], ◌∷◌, map}
use native.Mathlib.Omega.{arith}
use testovoe_bazis.Common.Tests.{ltb, leb, nat_beq, Eq, Bool-cases, if◌then◌else◌}

abbrev pub Text : Type 0
Text = List ℕ

-- A literal of the source.
abbrev pub codes : String → Text
codes String.[] = []
codes (String.◌∷◌ c s) = code c ∷ codes s

unfoldable pub text_beq : Text → Text → Bool
text_beq [] [] = true
text_beq (x ∷ xs) (y ∷ ys) = nat_beq x y && text_beq xs ys
text_beq _ _ = false

pub text_beq_iff : (s t : Text) → (text_beq s t ≡ true) ↔ (s ≡ t)
unfolding text_beq
text_beq_iff [] [] = ground arith
text_beq_iff [] (y ∷ ys) = ground arith
text_beq_iff (x ∷ xs) [] = ground arith
text_beq_iff (x ∷ xs) (y ∷ ys) = ground (arith, text_beq_iff xs ys)

pub text_beq_refl : (s : Text) → text_beq s s ≡ true
text_beq_refl s = (text_beq_iff s s).1 refl

instance abbrev pub text_eq : Eq Text
text_eq = record { equal = text_beq; equal_iff = text_beq_iff }

-- `len(s)`: the bytes of the UTF-8 encoding.
abbrev pub rune_len : ℕ → ℕ
rune_len c = if ltb c 0x80 then 1 else if ltb c 0x800 then 2 else if ltb c 0x10000 then 3 else 4

unfoldable pub byte_len : Text → ℕ
byte_len [] = 0
byte_len (c ∷ s) = rune_len c + byte_len s

-- `unicode.IsSpace`
unfoldable pub is_space : ℕ → Bool
is_space c =
    (leb 9 c && leb c 13)
    || nat_beq c 0x20
    || nat_beq c 0x85
    || nat_beq c 0xa0
    || nat_beq c 0x1680
    || (leb 0x2000 c && leb c 0x200a)
    || nat_beq c 0x2028
    || nat_beq c 0x2029
    || nat_beq c 0x202f
    || nat_beq c 0x205f
    || nat_beq c 0x3000

-- `strings.TrimSpace`: leading white space, then trailing.
unfoldable pub trim_left : Text → Text
trim_left [] = []
trim_left (c ∷ s) = let rest = trim_left s in if is_space c then rest else c ∷ s

-- A character is kept if it is no space or if something behind it is kept.
abbrev pub keep_right : ℕ → Text → Text
keep_right c [] = if is_space c then [] else c ∷ []
keep_right c (d ∷ s) = c ∷ d ∷ s

unfoldable pub trim_right : Text → Text
trim_right [] = []
trim_right (c ∷ s) = keep_right c (trim_right s)

unfoldable pub trim_space : Text → Text
unfolding trim_left trim_right
trim_space s = trim_right (trim_left s)

-- Neither end of a trimmed text is a space.
abbrev pub StartsNonSpace : Text → Type 0
StartsNonSpace [] = Unit
StartsNonSpace (c ∷ _) = is_space c ≡ false

abbrev pub EndsNonSpace : Text → Type 0
EndsNonSpace [] = Unit
EndsNonSpace (c ∷ []) = is_space c ≡ false
EndsNonSpace (_ ∷ d ∷ s) = EndsNonSpace (d ∷ s)

pub trim_left-StartsNonSpace : (s : Text) → StartsNonSpace (trim_left s)
unfolding trim_left
trim_left-StartsNonSpace [] = tt
trim_left-StartsNonSpace (c ∷ s) = elim (Bool-cases (is_space c)) [
  | inl space ↦ rw space (trim_left-StartsNonSpace s)
  | inr other ↦ rw other other
]

keep_right-EndsNonSpace : (c : ℕ) (s : Text) → EndsNonSpace s → EndsNonSpace (keep_right c s)
keep_right-EndsNonSpace c [] h = elim (Bool-cases (is_space c)) [
  | inl space ↦ rw space tt
  | inr other ↦ rw other other
]
keep_right-EndsNonSpace c (d ∷ s) h = h

trim_right-EndsNonSpace : (s : Text) → EndsNonSpace (trim_right s)
unfolding trim_right
trim_right-EndsNonSpace [] = tt
trim_right-EndsNonSpace (c ∷ s) =
    keep_right-EndsNonSpace c (trim_right s) (trim_right-EndsNonSpace s)

-- `trim_right` keeps the first character of a text that starts with no space.
keep_right-StartsNonSpace :
    (c : ℕ) (s : Text) → is_space c ≡ false → StartsNonSpace (keep_right c s)
keep_right-StartsNonSpace c [] h = rw h h
keep_right-StartsNonSpace c (d ∷ s) h = h

trim_right-StartsNonSpace : (s : Text) → StartsNonSpace s → StartsNonSpace (trim_right s)
unfolding trim_right
trim_right-StartsNonSpace [] h = tt
trim_right-StartsNonSpace (c ∷ s) h = keep_right-StartsNonSpace c (trim_right s) h

abbrev pub IsTrimmed : Text → Type 0
IsTrimmed s = StartsNonSpace s × EndsNonSpace s

pub trim_space-IsTrimmed : (s : Text) → IsTrimmed (trim_space s)
unfolding trim_space
trim_space-IsTrimmed s = (
  trim_right-StartsNonSpace (trim_left s) (trim_left-StartsNonSpace s),
  trim_right-EndsNonSpace (trim_left s),
)

-- A text that is trimmed is left alone.
trim_right_id : (s : Text) → EndsNonSpace s → trim_right s ≡ s
unfolding trim_right
trim_right_id [] h = refl
trim_right_id (c ∷ []) h = rw h
trim_right_id (c ∷ d ∷ s) h = ap (keep_right c) (trim_right_id (d ∷ s) h)

trim_left_id : (s : Text) → StartsNonSpace s → trim_left s ≡ s
unfolding trim_left
trim_left_id [] h = refl
trim_left_id (c ∷ s) h = rw h

pub trim_space_id : (s : Text) → IsTrimmed s → trim_space s ≡ s
unfolding trim_space
trim_space_id s (h, k) = ap trim_right (trim_left_id s h) ∙ trim_right_id s k

-- `strings.ToLower`, over the table of `unicode.ToLower`.
unfoldable pub to_lower : (ℕ → ℕ) → Text → Text
to_lower lower s = map lower s
